-- ===== src/Program/Events/Challenge/Postgres.antt =====
-- The challenge of a renewal on Postgres, while the rest of the program goes on.
use acme_dns_rust.Base.{◌≡◌, ◌∙◌, some, List, String}
use acme_dns_rust.Base.Outcome.{ok}
use acme_dns_rust.Sql.{Postgres}
use acme_dns_rust.Facade.{Cert, Domain}
use acme_dns_rust.Facade.Memory.{Memory, Order}
use acme_dns_rust.Facade.Postgres.{postgres_facade}
use acme_dns_rust.Facade.Postgres.Tables.{View, Tables}
use acme_dns_rust.Facade.Postgres.Sim.{Sim}
use acme_dns_rust.Api.Routes.{Counters}
use acme_dns_rust.Dns.Authority.{Query, acme_challenge_label, txt_record, search_records}
use acme_dns_rust.Dns.Authority.Answers.{IsOpen}
use acme_dns_rust.Dns.Authority.Postgres.{search_records-Agrees}
use acme_dns_rust.Manager.{Acme}
use acme_dns_rust.Manager.Postgres.Keeps.{IsKept}
use acme_dns_rust.Manager.Postgres.Loop.{memory_acme}
use acme_dns_rust.Program.Events.{Event, query, Parts}
use acme_dns_rust.Program.Events.Postgres.{
  on_postgres, on_memory, CanHandle, CanHandleAll, run_events-Agrees,
}
use acme_dns_rust.Program.Events.Challenge.{SparesAll, HasChallenge, run_events-search_records}

module _ {Db RecordSet NewOrder Auth Csr : Type 0} (pg : Postgres Db) (tables : Tables pg)
    (order : Order) (parts : Parts RecordSet) (acme : Acme View NewOrder Auth Csr) where
  -- On Postgres, in working order, with the rows of a consistent store that keeps within the
  -- columns, and with a first certificate whose domain has a proof as its text: after any
  -- queries, requests and ticks that the program can handle, and none of which draws the id of
  -- that domain, a query for the challenge label that the configured records leave open is
  -- answered with the proof. The label, if it is text, is one that the database can hold.
  pub on_postgres-search_records :
      (events : List Event) (db : Db) (m : Memory) (counters : Counters) (c : Cert) (d : Domain)
      (q : Query) (proof : String)
      → IsKept m
      → Sim (tables.view db) m
      → CanHandleAll pg tables order parts acme events (m, counters)
      → SparesAll c.domain events
      → HasChallenge order c d m
      → d.txt ≡ some proof
      → IsOpen parts.dns parts.authority q acme_challenge_label
      → CanHandle pg tables order parts acme (query q) m
      → let db' = (on_postgres pg tables order parts acme events (db, counters)).1.0 in
        (search_records parts.dns parts.authority (postgres_facade pg) q db').0
        ≡ ok (txt_record parts.dns parts.authority q.name proof)
  on_postgres-search_records events db m counters c d q proof h sim can spares challenge text
        open_query asks =
      let m' = (on_memory pg tables order parts acme events (m, counters)).1.0 in
      let db' = (on_postgres pg tables order parts acme events (db, counters)).1.0 in
      let ((_, _, sim'), h') =
        run_events-Agrees pg tables order parts acme events db m counters h can sim in
      let (same, _) =
        search_records-Agrees pg tables order parts.dns parts.authority q db' m' h'.consistent
          (λ label first id text'. asks label id first text') sim' in
      same
      ∙ run_events-search_records parts (memory_acme pg tables order acme) order c d events m
          counters q proof spares challenge text open_query
