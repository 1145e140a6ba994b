-- ===== src/Facade/Workers.antt =====
-- Any number of workers on one store of the in-memory facade of src/facade/cert.rs: each takes a
-- job with `start_cert` and may end it with `stop_cert`; domains are updated and registered between,
-- in any order of the calls.
pub mod Older
pub mod Valid
pub mod Exclusive
mod Tests
use acme_dns_rust.Base.{ℕ, ◌^◌, ◌<◌, ◌≡◌, ◌≢◌, ◌⊎◌, Option, some, List, [], ◌∷◌, String}
use acme_dns_rust.Base.Map.{Map}
use acme_dns_rust.Base.Outcome.{Outcome, ok}
use acme_dns_rust.Facade.{Cert, Domain, Env}
use acme_dns_rust.Facade.Memory.{Memory, Order, start_cert, stop_cert, create_domain, update_domain}
use acme_dns_rust.Facade.Single.{unstarted}

-- `rest` is `jobs` without one occurrence of `j`.
abbrev pub Removes : Cert → List Cert → List Cert → Type 0
Removes j [] rest = ⊥
Removes j (x ∷ jobs) rest =
    ((x ≡ j) × (jobs ≡ rest)) ⊎ ((rest' : List Cert) × (rest ≡ x ∷ rest') × Removes j jobs rest')

-- What a worker makes of its job: the id and the time stay.
abbrev pub IsFor : Cert → Cert → Type 0
IsFor m j = (m.id ≡ j.id) × (m.update ≡ j.update)

-- One call on the store, with the jobs that the workers hold before and after. The clocks are
-- below 2^63.
pub data Step (order : Order) : Memory → List Cert → Memory → List Cert → Type 0 where
  start :
      (env : Env) (c : Cert) (s s' : Memory) (jobs : List Cert)
      → env.now < 2 ^ 63
      → start_cert order env s ≡ (ok (some c), s')
      → Step order s jobs s' (c ∷ jobs)
  refused :
      (env : Env) (result : Outcome (Option Cert)) (s s' : Memory) (jobs : List Cert)
      → start_cert order env s ≡ (result, s')
      → ((c : Cert) → result ≢ ok (some c))
      → Step order s jobs s' jobs
  update :
      (d : Domain) (s : Memory) (jobs : List Cert) → Step order s jobs (update_domain d s).1 jobs
  -- A registration of the API.
  create : (d : Domain) (s : Memory) (jobs : List Cert) → Step order s jobs (create_domain d s) jobs
  stop :
      (m j : Cert) (s : Memory) (jobs rest : List Cert)
      → Removes j jobs rest
      → IsFor m j
      → Step order s jobs (stop_cert order m s).1 rest
  -- The worker ends without a call.
  crash :
      (j : Cert) (s : Memory) (jobs rest : List Cert)
      → Removes j jobs rest
      → Step order s jobs s rest

-- The states that calls lead to from a store without certificates.
pub data Reachable (order : Order) : Memory → List Cert → Type 0 where
  initial : (ds : Map String Domain) → Reachable order (unstarted ds) []
  next :
      (s s' : Memory) (jobs jobs' : List Cert)
      → Reachable order s jobs
      → Step order s jobs s' jobs'
      → Reachable order s' jobs'
