-- ===== src/Facade/Postgres/Races/Stop.antt =====
-- A start on Postgres between the SELECT of `stop_cert` and its update.
use acme_dns_rust.Base.{◌≡◌, refl, subst, ap, ◌∙◌, true, false, Option, some, arith, String}
use acme_dns_rust.Base.Map.{Map, string_key}
use acme_dns_rust.Base.Outcome.{Outcome, ok}
use acme_dns_rust.Sql.{Postgres}
use acme_dns_rust.Facade.{Cert, Domain, Env}
use acme_dns_rust.Facade.Memory.{Order, is_ok, timed_out, still_running}
use acme_dns_rust.Facade.Single.{single, taken_at, finished, IsConsistent, start_cert-single}
use acme_dns_rust.Facade.Postgres.{first_cert, start_cert, stop_read, stop_cert}
use acme_dns_rust.Facade.Postgres.Tables.{CertTexts, Tables}
use acme_dns_rust.Facade.Postgres.Sim.{Sim}
use acme_dns_rust.Facade.Postgres.Refines.{first_single, start_single, after_update}
use acme_dns_rust.Facade.Postgres.Races.{version-IsConsistent}

module _ {Db : Type 0} (pg : Postgres Db) where
  -- `stop_cert` reads, another worker starts, and `stop_cert` goes on with what it has read.
  unfoldable pub stop_around_start : Cert → Env → Db → (Outcome Cert × Outcome (Option Cert)) × Db
  stop_around_start m env db =
      let (found, read) = first_cert pg db in
      let (started, db') = start_cert pg env read in
      let (stopped, db'') = stop_read pg m db' (found, read) in ((stopped, started), db'')

  -- Without the start it is `stop_cert`.
  stop_cert-stop_read :
      (m : Cert) (db : Db)
      → pg.begin db ≡ ok tt
      → stop_cert pg m db ≡ stop_read pg m db (first_cert pg db)
  unfolding stop_cert
  stop_cert-stop_read m db begun = rw begun refl

module _ {Db : Type 0} (pg : Postgres Db) (tables : Tables pg) (order : Order) (env : Env) (db : Db)
    (m c : Cert) (ds : Map String Domain) (h : IsConsistent (single c ds))
    (sim : Sim (tables.view db) (single c ds)) where
  busy : still_running c m ≡ true → is_ok c.state ≡ false
  unfolding still_running
  busy runs = ground arith

  taken_over :
      still_running c m ≡ true
      → timed_out env c ≡ true
      → ((start_cert pg env db).0 ≡ ok (some (taken_at env c)))
        × Sim (tables.view (start_cert pg env db).1) (single (taken_at env c) ds)
  taken_over runs late =
      let (same, sim') = start_single pg tables order env db c ds h sim in
      let alone = start_cert-single order env ds c ∙ rw (busy runs, late) refl in
      (
        same ∙ ap (λ r. r.0) alone,
        subst (λ s. Sim (tables.view (start_cert pg env db).1) s) (ap (λ r. r.1) alone) sim',
      )

  -- On Postgres, in working order and with the rows of a consistent store, if stop_cert has read
  -- the job of its worker, whose chain and key are texts that the database can hold, and before
  -- its update another worker starts whose clock says that the job has timed out, both succeed:
  -- the other has the job with its own time, but the row that is stored is that of the first
  -- worker in the state Ok.
  pub stop_around_start-finished :
      m.id ≡ c.id
      → m.domain ≡ c.domain
      → CertTexts m
      → still_running c m ≡ true
      → timed_out env c ≡ true
      → let ((stopped, started), db') = stop_around_start pg m env db in
        (stopped ≡ ok (finished m))
        × (started ≡ ok (some (taken_at env c)))
        × Sim (tables.view db') (single (finished m) ds)
  unfolding stop_around_start
  stop_around_start-finished same bound texts runs late =
      let (started, sim') = taken_over runs late in
      let db' = (start_cert pg env db).1 in
      let h' = version-IsConsistent (taken_at env c) c ds (refl, refl) h in
      let (run, sim'') =
        after_update pg tables db' (taken_at env c) (finished m) ds (finished m) h' sim' same bound
          texts in
      rw (first_single pg tables db c ds sim, runs, run, tables.commits db) (refl, started, sim'')
