-- ===== src/Facade/Postgres/Serial.antt =====
-- Starts on Postgres one after the other: what the in-memory facade promises of the lease holds
-- there too.
mod Tests
use acme_dns_rust.Sql.Text.{IsChar}
use acme_dns_rust.Base.{ℕ, ◌+◌, ◌^◌, ◌<◌, ◌≤◌, ◌≡◌, refl, sym, ap, subst, ◌∙◌, some, none, [], ◌∷◌}
use acme_dns_rust.Base.Outcome.{ok}
use acme_dns_rust.Util.{hour_in_seconds}
use acme_dns_rust.Sql.{Postgres}
use acme_dns_rust.Facade.{State, Cert, Env}
use acme_dns_rust.Facade.Memory.{Memory, Order, start_cert as memory_start_cert}
use acme_dns_rust.Facade.Single.{single, IsConsistent}
use acme_dns_rust.Facade.Lease.{start_cert-Started}
use acme_dns_rust.Facade.Jobs.{StoredIs, start_cert-exclusive}
use acme_dns_rust.Facade.Consistency.{start_cert-IsConsistent}
use acme_dns_rust.Facade.Postgres.{start_cert}
use acme_dns_rust.Facade.Postgres.Tables.{Tables}
use acme_dns_rust.Facade.Postgres.Sim.{Sim}
use acme_dns_rust.Facade.Postgres.Starts.{CanStart, start_cert-Agrees}

module _ {Db : Type 0} (pg : Postgres Db) (tables : Tables pg) (order : Order) (env : Env) (db : Db)
    (m : Memory) (h : IsConsistent m) (can : CanStart env m) (sim : Sim (tables.view db) m)
    (c : Cert) (started : (start_cert pg env db).0 ≡ ok (some c)) where
  started_in_memory :
      memory_start_cert order env m ≡ (ok (some c), (memory_start_cert order env m).1)
  started_in_memory =
      let (same, _) = start_cert-Agrees pg tables order env db m h can sim in
      λ i. ((sym same ∙ started) i, (memory_start_cert order env m).1)

  -- On Postgres, in working order and with the rows of a consistent store, if a start returns a
  -- certificate, and none was stored or the stored one was in the state Updating, then a start
  -- that begins after it has ended, and within the following hour (clocks below 2^63), returns no
  -- certificate and leaves the rows as they are; what the starts draw is new and fits the
  -- columns.
  pub serial_exclusive :
      (later : Env)
      → IsChar 32 (later.uuid 3)
      → StoredIs order m State.updating
      → env.now < 2 ^ 63
      → later.now < 2 ^ 63
      → later.now ≤ env.now + hour_in_seconds
      → let db' = (start_cert pg env db).1 in
        ((start_cert pg later db').0 ≡ ok none)
        × Sim (tables.view (start_cert pg later db').1) (memory_start_cert order env m).1
  serial_exclusive later wide u small small' soon =
      let m' = (memory_start_cert order env m).1 in
      let (_, sim') = start_cert-Agrees pg tables order env db m h can sim in
      let (shape, _) = start_cert-Started order env m c m' h started_in_memory in
      let can' : CanStart later m' = record {
        wide = wide;
        new = λ gone. absurd (let clash = sym gone ∙ ap (λ s. s.certs) shape in cc);
      } in
      let busy =
        start_cert-exclusive order env m h c m' started_in_memory later u small small' soon in
      let (same, sim'') =
        start_cert-Agrees pg tables order later (start_cert pg env db).1 m'
          (start_cert-IsConsistent order env m h) can' sim' in
      (
        same ∙ ap (λ r. r.0) busy,
        subst (λ s. Sim (tables.view (start_cert pg later (start_cert pg env db).1).1) s)
            (ap (λ r. r.1) busy) sim'',
      )
