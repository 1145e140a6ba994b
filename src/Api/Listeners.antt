-- ===== src/Api/Listeners.antt =====
-- src/api/mod.rs, `new`: the three listeners and how their tasks are waited for. The future is
-- modelled by what a poll of it answers, given the state of the tasks.
pub mod Joined
mod Tests
use acme_dns_rust.Base.{Bool, true, false, Option, none, some, List, [], ◌∷◌, ◌++◌, String}
use acme_dns_rust.Base.Outcome.{Outcome, ok, err, panic, Error, ◌>>=◌}
use acme_dns_rust.Config.Listener.{Listener}
use acme_dns_rust.Config.File.{Api}

pub data Poll : Type 0 where
  pending : Poll
  ready : Outcome (Unit {0}) → Poll

-- A task of `serve`, behind its `JoinHandle`.
pub data Task : Type 0 where
  running finished panicked : Task

abbrev pub poll_task : Task → Poll
poll_task running = pending
poll_task finished = ready (ok tt)
poll_task panicked = ready (err (Error.message "task panicked"))

-- `tokio::try_join!`: the first that is ready with an error ends it; otherwise it waits for all.
abbrev pub join_with : Poll → Poll → Poll
join_with pending (ready (ok _)) = pending
join_with pending rest = rest
join_with (ready (ok _)) rest = rest
join_with (ready (err e)) rest = ready (err e)
join_with (ready panic) rest = ready panic

abbrev pub try_join : List Poll → Poll
try_join [] = ready (ok tt)
try_join (p ∷ ps) = join_with p (try_join ps)

-- The match on the handles, in the order of the source.
unfoldable pub poll_handles : Option Task → Option Task → Option Task → Poll
poll_handles (some https) (some http) (some prom) =
    try_join (poll_task https ∷ poll_task http ∷ poll_task prom ∷ [])
poll_handles none none none = ready (ok tt)
poll_handles (some https) (some http) none = try_join (poll_task https ∷ poll_task http ∷ [])
poll_handles (some https) none (some prom) = try_join (poll_task https ∷ poll_task prom ∷ [])
poll_handles none (some http) (some prom) = try_join (poll_task http ∷ poll_task prom ∷ [])
poll_handles (some https) none none = poll_task https
poll_handles none (some http) none = poll_task http
poll_handles none none (some prom) = poll_task prom

-- The state of the tasks, should there be one for the listener.
pub record Tasks : Type 0 where
  pub http : Task
  pub https : Task
  pub prom : Task

-- `OptionFuture::from(addr.map(TcpListener::bind))`
abbrev pub bind_option :
    {Socket : Type 0} → (String → Outcome Socket) → Option String → Outcome (Option Socket)
bind_option bind none = ok none
bind_option bind (some addr) = do socket ← bind addr; ok (some socket)

abbrev pub spawn : {Socket : Type 0} → Option Socket → Task → Option Task
spawn none task = none
spawn (some socket) task = some task

abbrev pub settled : Outcome Poll → Poll
settled (ok p) = p
settled (err e) = ready (err e)
settled panic = ready panic

-- `new`, once the addresses are bound.
unfoldable pub listen : {Socket : Type 0} → (String → Outcome Socket) → Api → Tasks → Poll
unfolding poll_handles
listen bind api tasks = settled (do
  http ← bind_option bind api.http.0
  https ← bind_option bind api.https.0
  prom ← bind_option bind api.prom.0
  ok (poll_handles (spawn https tasks.https) (spawn http tasks.http) (spawn prom tasks.prom)))
