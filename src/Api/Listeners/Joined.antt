-- ===== src/Api/Listeners/Joined.antt =====
-- The cases of `new` are one rule: it waits for all the tasks that there are.
use acme_dns_rust.Base.{◌≡◌, refl, sym, Option, none, some, List, [], ◌∷◌, ◌++◌, String}
use acme_dns_rust.Base.Outcome.{Outcome, ok}
use acme_dns_rust.Config.File.{Api}
use acme_dns_rust.Api.Listeners.{
  Poll, ready, Task, running, finished, panicked, poll_task, join_with, try_join, poll_handles,
  Tasks, bind_option, spawn, listen,
}

abbrev pub if_configured : Option String → Task → List Poll
if_configured none task = []
if_configured (some addr) task = poll_task task ∷ []

-- The tasks of the listeners with an address.
abbrev pub configured : Api → Tasks → List Poll
configured api tasks =
    if_configured api.https.0 tasks.https
    ++ if_configured api.http.0 tasks.http
    ++ if_configured api.prom.0 tasks.prom

-- The address can be bound, if there is one.
abbrev pub Binds : {Socket : Type 0} → (String → Outcome Socket) → Option String → Type 0
Binds {Socket} bind none = Unit {0}
Binds {Socket} bind (some addr) = (socket : Socket) × (bind addr ≡ ok socket)

join_one : (t : Task) → join_with (poll_task t) (ready (ok tt)) ≡ poll_task t
join_one running = refl
join_one finished = refl
join_one panicked = refl

abbrev with_task : Option String → Task → Option Task
with_task none t = none
with_task (some addr) t = some t

handles_joined :
    (https http prom : Option String) (tasks : Tasks)
    → poll_handles
        (with_task https tasks.https)
        (with_task http tasks.http)
        (with_task prom tasks.prom)
      ≡ try_join (
          if_configured https tasks.https
          ++ if_configured http tasks.http
          ++ if_configured prom tasks.prom)
unfolding poll_handles
handles_joined (some a) (some b) (some c) tasks = refl
handles_joined none none none tasks = refl
handles_joined (some a) (some b) none tasks = refl
handles_joined (some a) none (some c) tasks = refl
handles_joined none (some b) (some c) tasks = refl
handles_joined (some a) none none tasks = sym (join_one tasks.https)
handles_joined none (some b) none tasks = sym (join_one tasks.http)
handles_joined none none (some c) tasks = sym (join_one tasks.prom)

module _ {Socket : Type 0} (bind : String → Outcome Socket) where
  bound :
      (addr : Option String)
      → Binds bind addr
      → (o : Option Socket) × (bind_option bind addr ≡ ok o)
        × ((t : Task) → spawn o t ≡ with_task addr t)
  bound none b = (none, refl, λ t. refl)
  bound (some addr) (socket, e) = (some socket, rw e refl, λ t. refl)

  -- If the configured addresses can be bound, what the API answers is what the join of the tasks
  -- of exactly the configured listeners answers, in the order of HTTPS, HTTP and metrics: it
  -- waits for all of them and ends with the first error.
  pub listen-try_join :
      (api : Api) (tasks : Tasks)
      → Binds bind api.http.0
      → Binds bind api.https.0
      → Binds bind api.prom.0
      → listen bind api tasks ≡ try_join (configured api tasks)
  unfolding listen
  listen-try_join api tasks b b' b'' =
      let (http, e, s) = bound api.http.0 b in
      let (https, e', s') = bound api.https.0 b' in
      let (prom, e'', s'') = bound api.prom.0 b'' in
      rw (e, e', e'', s tasks.http, s' tasks.https, s'' tasks.prom)
        (handles_joined api.https.0 api.http.0 api.prom.0 tasks)
