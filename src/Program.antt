-- ===== src/Program.antt =====
-- src/lib.rs: how the program starts, and when it ends. Its parts wait side by side; each is
-- modelled by what a poll of it answers.
pub mod Ends
pub mod Events
mod Tests
use acme_dns_rust.Base.{ℕ, ◌≡◌, ◌⊎◌, Option, List, [], ◌∷◌, String}
use acme_dns_rust.Base.Outcome.{Outcome, ok, err, panic, Error, ◌>>=◌, ◌>>◌}
use acme_dns_rust.Api.Metrics.{Bytes}
use acme_dns_rust.Dns.Records.{Name, IpAddr}
use acme_dns_rust.Dns.Authority.{Authority}
use acme_dns_rust.Dns.Authority.Object.{new as new_authority}
use acme_dns_rust.Dns.Server.{ServerTask, new as new_dns, spawn}
use acme_dns_rust.Manager.Start.{cert_manager}
use acme_dns_rust.Config.File.{General, Api, Config}
use acme_dns_rust.Api.Listeners.{Poll, pending, ready, Task, Tasks, listen}

-- What the start takes from outside: the runtime of tokio, the parser of the database's address, its
-- pool of connections and its migrations, the parser of names, `LowerName::from`, the system's resolver, the test for
-- UTF-8, and the sockets.
pub record Outside (Options Pool Socket : Type 0) : Type 0 where
  pub runtime : Outcome (Unit {0})
  pub from_str : String → Outcome Options
  pub connect_with : Options → Outcome Pool
  pub migrate : Pool → Outcome (Unit {0})
  pub parse_name : String → Outcome Name
  pub lower_name : Name → Name
  pub lookup_host : String → Outcome (List IpAddr)
  pub from_utf8 : Bytes → Option String
  pub bind : String → Outcome Socket
  pub bind_udp : String → Outcome Socket

-- What the parts are at when they are polled: the tasks of the API, the lookup of the authority's
-- directory, the task of the manager, that of the name server, and Ctrl-C.
pub record Moment : Type 0 where
  pub tasks : Tasks
  pub from_url : String → Poll
  pub manager : Task
  pub server : ServerTask
  pub ctrl_c : Poll

module _ {Options Pool Socket : Type 0} (outside : Outside Options Pool Socket) where
  unfoldable pub setup_database : String → Outcome Pool
  setup_database db = do
    options ← outside.from_str db
    pool ← outside.connect_with options
    outside.migrate pool
    ok pool

  module _ {RecordSet : Type 0} where
    -- The branches of `select!`, polled at a moment.
    unfoldable pub branches : Config RecordSet → Authority RecordSet → Moment → List Poll
    branches config authority moment =
        listen outside.bind config.api moment.tasks
        ∷ cert_manager moment.from_url config.general.acme moment.manager
        ∷ spawn outside.bind_udp (new_dns config.general.dns authority) moment.server
        ∷ moment.ctrl_c
        ∷ []

    -- `run`, up to the polls.
    unfoldable pub run : Outcome (Config RecordSet) → Moment → Outcome (List Poll)
    unfolding setup_database branches
    run loaded moment = do
      config ← loaded
      outside.runtime
      pool ← setup_database config.general.db
      authority ←
          new_authority outside.parse_name outside.lower_name outside.lookup_host outside.from_utf8
            config.general.name config.records
      ok (branches config authority moment)

-- `tokio::select!` without an order: it ends with what any of the branches that are ready answers.
abbrev pub Selects : List Poll → Outcome (Unit {0}) → Type 0
Selects [] o = ⊥
Selects (p ∷ ps) o = (p ≡ ready o) ⊎ Selects ps o

-- What the program ends with: the error or the panic of its start, or what a branch answers.
abbrev pub Ends : Outcome (List Poll) → Outcome (Unit {0}) → Type 0
Ends (ok polls) o = Selects polls o
Ends (err e) o = o ≡ err e
Ends panic o = o ≡ panic

-- `main` of src/main.rs: its exit code; a panic of the main thread has the code 101.
unfoldable pub main : Outcome (Unit {0}) → ℕ
main (ok _) = 0
main (err e) = 1
main panic = 101
