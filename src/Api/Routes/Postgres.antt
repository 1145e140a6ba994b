-- ===== src/Api/Routes/Postgres.antt =====
-- The routes of src/api/routes.rs on Postgres and in memory, next to each other.
use acme_dns_rust.Base.{
  ℕ, ◌≡◌, refl, ap, Bool, Bool-cases, inl, inr, true, false, Option, none, some, String,
}
use acme_dns_rust.Base.Outcome.{Outcome, ok, err, panic}
use acme_dns_rust.Sql.{Postgres}
use acme_dns_rust.Facade.{DomainDto, Domain, Env, default_dto, try_from}
use acme_dns_rust.Facade.Memory.{Memory, Order, memory_facade}
use acme_dns_rust.Facade.Consistency.{create_domain-IsConsistent}
use acme_dns_rust.Facade.Postgres.{postgres_facade}
use acme_dns_rust.Facade.Postgres.Tables.{Tables}
use acme_dns_rust.Facade.Postgres.Sim.{Sim}
use acme_dns_rust.Facade.Postgres.Starts.{IsNew}
use acme_dns_rust.Facade.Postgres.Calls.{create_domain-Agrees}
use acme_dns_rust.Manager.Postgres.Storable.{IsNew-IsStorable}
use acme_dns_rust.Manager.Postgres.Keeps.{IsKept}
use acme_dns_rust.Api.Routes.{
  HttpRequest, Counters, count, create, respond, register_handler, is_register, is_update,
  update_handler, update_or_not_found, routes, handle,
}

-- What a registration draws is new, and fits the columns.
abbrev pub CanRegister : Env → Memory → Type 0
CanRegister env m = (d : Domain) → try_from env (default_dto env) ≡ ok d → IsNew m d

module _ (order : Order) (to_json : DomainDto → Option String) (show_status : ℕ → String) where
  register-IsKept :
      (env : Env) (m : Memory)
      → IsKept m
      → CanRegister env m
      → IsKept (register_handler (memory_facade order) to_json show_status env m).1
  unfolding register_handler memory_facade
  register-IsKept env m h can = by_domain (try_from env (default_dto env)) refl
    where
      by_domain :
          (made : Outcome Domain)
          → try_from env (default_dto env) ≡ made
          → IsKept (create (memory_facade order) to_json show_status env (default_dto env) made m).1
      by_domain (ok d) e = record {
        consistent = create_domain-IsConsistent d m h.consistent;
        storable = IsNew-IsStorable m d (can d e) h.storable;
      }
      by_domain (err cause) e = h
      by_domain panic e = h

  pub handle-IsKept :
      (env : Env) (request : HttpRequest) (m : Memory) (counters : Counters)
      → IsKept m
      → CanRegister env m
      → IsKept (handle (memory_facade order) to_json show_status env request (m, counters)).1.0
  unfolding handle routes
  handle-IsKept env request m counters h can =
      elim (Bool-cases (is_register (memory_facade order) to_json show_status request)) [
        | inl registers ↦ rw registers (register-IsKept env m h can)
        | inr other ↦ rw other h
      ]

module _ {Db : Type 0} (pg : Postgres Db) (tables : Tables pg) (order : Order)
    (to_json : DomainDto → Option String) (show_status : ℕ → String) where
  create-Agrees :
      (env : Env) (made : Outcome Domain) (db : Db) (m : Memory)
      → ((d : Domain) → made ≡ ok d → IsNew m d)
      → Sim (tables.view db) m
      → let r = create (postgres_facade pg) to_json show_status env (default_dto env) made db in
        let r' = create (memory_facade order) to_json show_status env (default_dto env) made m in
        (r.0 ≡ r'.0) × Sim (tables.view r.1) r'.1
  unfolding postgres_facade memory_facade
  create-Agrees env (ok d) db m new sim =
      let (same, sim') = create_domain-Agrees pg tables d db m (new d refl) sim in
      (rw (same, create) refl, sim')
  create-Agrees env (err e) db m new sim = (refl, sim)
  create-Agrees env panic db m new sim = (refl, sim)

  update_or_not_found_same :
      (update : Bool) (request : HttpRequest) (user key : Option String)
      → update_or_not_found (postgres_facade pg) to_json show_status update request user key
        ≡ update_or_not_found (memory_facade order) to_json show_status update request user key
  unfolding update_handler
  update_or_not_found_same true request (some user) (some key) = refl
  update_or_not_found_same true request (some user) none = refl
  update_or_not_found_same true request none key = refl
  update_or_not_found_same false request user key = refl

  routes-Agrees :
      (env : Env) (request : HttpRequest) (db : Db) (m : Memory)
      → CanRegister env m
      → Sim (tables.view db) m
      → let r = routes (postgres_facade pg) to_json show_status env request db in
        let r' = routes (memory_facade order) to_json show_status env request m in
        (r.0 ≡ r'.0) × Sim (tables.view r.1) r'.1
  unfolding routes register_handler
  routes-Agrees env request db m can sim =
      elim (Bool-cases (is_register (memory_facade order) to_json show_status request)) [
        | inl registers ↦
            let (same, sim') = create-Agrees env (try_from env (default_dto env)) db m can sim in
            rw registers (rw (same, respond) refl, sim')
        | inr other ↦
            let found =
              update_or_not_found_same (is_update (memory_facade order) to_json show_status request)
                request (request.header "X-Api-User") (request.header "X-Api-Key") in
            rw other (ap (λ a. (ok a.0, a.1)) found, sim)
      ]

  -- A request has the same answer on Postgres as in memory, is counted the same, and leaves the
  -- same rows.
  pub handle-Agrees :
      (env : Env) (request : HttpRequest) (db : Db) (m : Memory) (counters : Counters)
      → CanRegister env m
      → Sim (tables.view db) m
      → let (answer, (db', counted)) =
          handle (postgres_facade pg) to_json show_status env request (db, counters) in
        let (answer', (m', counted')) =
          handle (memory_facade order) to_json show_status env request (m, counters) in
        (answer ≡ answer') × (counted ≡ counted') × Sim (tables.view db') m'
  unfolding handle
  handle-Agrees env request db m counters can sim =
      let (same, sim') = routes-Agrees env request db m can sim in
      (ap (λ a. a.0) same, ap (λ a. count show_status request.method a counters) same, sim')
