-- ===== src/Program/Events/Postgres.antt =====
-- The whole program on Postgres and in memory, next to each other.
use acme_dns_rust.Base.{◌≡◌, refl, sym, ap, subst, List, [], ◌∷◌, some, String}
use acme_dns_rust.Sql.Text.{IsText}
use acme_dns_rust.Sql.{Postgres}
use acme_dns_rust.Facade.Memory.{Memory, Order, memory_facade}
use acme_dns_rust.Facade.Postgres.{postgres_facade}
use acme_dns_rust.Facade.Postgres.Tables.{View, Tables}
use acme_dns_rust.Facade.Postgres.Sim.{Sim}
use acme_dns_rust.Facade.Postgres.Starts.{CanStart}
use acme_dns_rust.Api.Metrics.{Bytes}
use acme_dns_rust.Api.Routes.{Counters}
use acme_dns_rust.Api.Routes.Postgres.{CanRegister, handle-IsKept, handle-Agrees}
use acme_dns_rust.Dns.Authority.{first}
use acme_dns_rust.Dns.Authority.Answers.{search_records-pure}
use acme_dns_rust.Dns.Authority.Postgres.{search_records-Agrees}
use acme_dns_rust.Manager.Postgres.{SuppliesTexts}
use acme_dns_rust.Manager.{Acme, tick}
use acme_dns_rust.Manager.Postgres.Keeps.{IsKept, manage-IsKept}
use acme_dns_rust.Manager.Postgres.Loop.{db_acme, memory_acme}
use acme_dns_rust.Manager.Postgres.Refines.{manage-Agrees}
use acme_dns_rust.Program.Events.{
  Event, query, request, interval, renewal, Reply, looked_up, responded, renewed, Parts, run_event,
  run_events,
}

module _ {Db RecordSet NewOrder Auth Csr : Type 0} (pg : Postgres Db) (tables : Tables pg)
    (order : Order) (parts : Parts RecordSet) (acme : Acme View NewOrder Auth Csr) where
  abbrev pub on_postgres : List Event → Db × Counters → List (Reply RecordSet) × (Db × Counters)
  on_postgres = run_events parts (db_acme pg tables order acme) (postgres_facade pg)

  abbrev pub on_memory :
      List Event → Memory × Counters → List (Reply RecordSet) × (Memory × Counters)
  on_memory = run_events parts (memory_acme pg tables order acme) (memory_facade order)

  -- A query asks for a text that the database can hold, and what a handler draws is new and fits
  -- the columns.
  abbrev pub CanHandle : Event → Memory → Type 0
  CanHandle (query q) m =
      (label : Bytes) (id : String)
      → first q.name.labels ≡ some label
      → parts.authority.from_utf8 label ≡ some id
      → IsText id
  CanHandle (request env r) m = CanRegister env m
  CanHandle (interval fuel env) m = Unit {0}
  CanHandle (renewal fuel env) m = CanStart env m × SuppliesTexts acme.dns_proof acme.finalize

  abbrev pub CanHandleAll : List Event → Memory × Counters → Type 0
  CanHandleAll [] state = Unit {0}
  CanHandleAll (e ∷ events) state =
      CanHandle e state.0
      × CanHandleAll events
          (run_event parts (memory_acme pg tables order acme) (memory_facade order) e state).1

  run_event-IsKept :
      (e : Event) (m : Memory) (counters : Counters)
      → IsKept m
      → CanHandle e m
      → IsKept
          (run_event parts
            (memory_acme pg tables order acme)
            (memory_facade order)
            e
            (m, counters)).1.0
  unfolding run_event tick
  run_event-IsKept (query q) m counters h can =
      subst IsKept (sym (search_records-pure parts.dns parts.authority order q m)) h
  run_event-IsKept (request env r) m counters h can =
      handle-IsKept order parts.to_json parts.show_status env r m counters h can
  run_event-IsKept (interval fuel env) m counters h can = h
  run_event-IsKept (renewal fuel env) m counters h can =
      manage-IsKept (memory_acme pg tables order acme) order can.1 fuel env m h can.0

  run_event-Agrees :
      (e : Event) (db : Db) (m : Memory) (counters : Counters)
      → IsKept m
      → CanHandle e m
      → Sim (tables.view db) m
      → let r =
          run_event parts (db_acme pg tables order acme) (postgres_facade pg) e (db, counters) in
        let r' =
          run_event parts
            (memory_acme pg tables order acme)
            (memory_facade order)
            e
            (m, counters) in
        (r.0 ≡ r'.0) × (r.1.1 ≡ r'.1.1) × Sim (tables.view r.1.0) r'.1.0
  unfolding run_event tick
  run_event-Agrees (query q) db m counters h can sim =
      let (same, sim') =
        search_records-Agrees pg tables order parts.dns parts.authority q db m h.consistent
          (λ label first id text. can label id first text) sim in
      (ap looked_up same, refl, sim')
  run_event-Agrees (request env r) db m counters h can sim =
      let (same, counted, sim') =
        handle-Agrees pg tables order parts.to_json parts.show_status env r db m counters can sim in
      (ap responded same, counted, sim')
  run_event-Agrees (interval fuel env) db m counters h can sim = (refl, refl, sim)
  run_event-Agrees (renewal fuel env) db m counters h can sim =
      let (same, sim') =
        manage-Agrees pg tables order acme can.1 fuel env db m h.consistent h.storable can.0 sim in
      (ap renewed same, refl, sim')

  -- The same replies, the same counters, and tables that hold what the memory holds.
  abbrev pub EventsAgree :
      List (Reply RecordSet) × (Db × Counters)
      → List (Reply RecordSet) × (Memory × Counters)
      → Type 0
  EventsAgree r r' = (r.0 ≡ r'.0) × (r.1.1 ≡ r'.1.1) × Sim (tables.view r.1.0) r'.1.0

  -- Whatever queries, requests, ticks and renewals arrive, in any order and one after the other,
  -- the program gives on Postgres, in working order and with the same rows, the same replies and
  -- the same counters as in memory, errors and panics included (a panic in a renewal's blocking
  -- task as an error), and leaves the same rows, and the store in memory stays consistent and
  -- within the columns, if: the store is so at the start; the first label of a query, if it is
  -- text, is one that the database can hold; what a handler or a start draws is new and fits the
  -- columns; the authority sees a store only through its rows; and for a renewal its proofs, keys
  -- and chains are texts without NUL.
  pub run_events-Agrees :
      (events : List Event) (db : Db) (m : Memory) (counters : Counters)
      → IsKept m
      → CanHandleAll events (m, counters)
      → Sim (tables.view db) m
      → EventsAgree (on_postgres events (db, counters)) (on_memory events (m, counters))
        × IsKept (on_memory events (m, counters)).1.0
  unfolding run_events
  run_events-Agrees [] db m counters h can sim = ((refl, refl, sim), h)
  run_events-Agrees (e ∷ events) db m counters h (can, later) sim =
      let r =
        run_event parts (db_acme pg tables order acme) (postgres_facade pg) e (db, counters) in
      let r' =
        run_event parts (memory_acme pg tables order acme) (memory_facade order) e (m, counters) in
      let (same, counted, sim') = run_event-Agrees e db m counters h can sim in
      let (agree, h'') =
        run_events-Agrees events r.1.0 r'.1.0 r'.1.1 (run_event-IsKept e m counters h can) later
          sim' in
      let (rest, counted', sim'') =
        subst (λ c. EventsAgree (on_postgres events (r.1.0, c)) (on_memory events r'.1))
          (sym counted) agree in
      ((λ i. same i ∷ rest i, counted', sim''), h'')
