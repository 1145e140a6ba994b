-- ===== src/Manager/Postgres/Refines.antt =====
-- A whole renewal on Postgres and in memory.
use acme_dns_rust.Base.{
  ℕ, ◌≡◌, refl, sym, ap, subst, ◌∙◌, inl, inr, Option, Option-cases, none, some,
}
use acme_dns_rust.Base.Map.{get, string_key}
use acme_dns_rust.Base.Outcome.{Outcome, Outcome-cases, ok, err, panic}
use acme_dns_rust.Sql.{Postgres}
use acme_dns_rust.Facade.{Cert, Domain, Env}
use acme_dns_rust.Facade.Memory.{
  Memory, Order, memory_facade, start_cert, stop_cert, find_domain_by_id,
}
use acme_dns_rust.Facade.Single.{single, IsConsistent}
use acme_dns_rust.Facade.Lease.{start_cert-Started}
use acme_dns_rust.Facade.Consistency.{start_cert-IsConsistent}
use acme_dns_rust.Facade.Postgres.{
  postgres_facade, start_cert as start_in_db, find_domain_by_id as find_in_db,
  stop_cert as stop_in_db,
}
use acme_dns_rust.Facade.Postgres.Tables.{View, Tables}
use acme_dns_rust.Facade.Postgres.Sim.{Sim, get_own}
use acme_dns_rust.Facade.Postgres.Starts.{CanStart, start_cert-Agrees}
use acme_dns_rust.Facade.Postgres.Calls.{
  IsJob, IsVersion, stop_cert-Agrees, find_domain_by_id-Agrees,
}
use acme_dns_rust.Manager.{
  Acme, Run, done, out_of_fuel, confirm_loop, issue, issue_after, validate, ignore, stop_after,
  order_for, with_domain, with_job, manage,
}
use acme_dns_rust.Manager.Renewal.{confirm_loop-certs, confirm_loop-IsConsistent, certs-single}
use acme_dns_rust.Manager.Postgres.Storable.{
  IsStorable, IsStorable-IsVersion, start_cert-IsStorable,
}
use acme_dns_rust.Manager.Postgres.{SuppliesTexts}
use acme_dns_rust.Manager.Postgres.Keeps.{single-IsJob, issue-keeps}
use acme_dns_rust.Manager.Postgres.Loop.{db_acme, memory_acme, RunAgrees, confirm_loop-Agrees}

module _ {Db NewOrder Auth Csr : Type 0} (pg : Postgres Db) (tables : Tables pg) (order : Order)
    (acme : Acme View NewOrder Auth Csr) (texts : SuppliesTexts acme.dns_proof acme.finalize) where
  abbrev on_db : Acme Db NewOrder Auth Csr
  on_db = db_acme pg tables order acme

  abbrev in_memory : Acme Memory NewOrder Auth Csr
  in_memory = memory_acme pg tables order acme

  ignore-Agrees :
      (result : Outcome Cert) (db : Db) (m : Memory)
      → Sim (tables.view db) m
      → RunAgrees pg tables order acme
          (ignore on_db (postgres_facade pg) (result, db))
          (ignore in_memory (memory_facade order) (result, m))
  ignore-Agrees (ok c) db m sim = (refl, sim)
  ignore-Agrees (err e) db m sim = (refl, sim)
  ignore-Agrees panic db m sim = (refl, sim)

  issue-same :
      (c : Cert) (csr : Csr)
      → issue on_db (postgres_facade pg) c csr ≡ issue in_memory (memory_facade order) c csr
  unfolding issue
  issue-same c csr = refl

  stop-Agrees :
      (c' : Cert) (db : Db) (m : Memory)
      → IsConsistent m
      → IsJob order m c'
      → Sim (tables.view db) m
      → RunAgrees pg tables order acme
          (stop_after on_db (postgres_facade pg) (done (ok c'), db))
          (stop_after in_memory (memory_facade order) (done (ok c'), m))
  unfolding postgres_facade memory_facade
  stop-Agrees c' db m h job sim =
      let (same, sim') = stop_cert-Agrees pg tables order c' db m h job sim in
      subst
        (λ r.
          RunAgrees pg tables order acme
            (ignore on_db (postgres_facade pg) (r, (stop_in_db pg c' db).1))
            (ignore in_memory (memory_facade order) (stop_cert order c' m)))
        (sym same)
        (ignore-Agrees (stop_cert order c' m).0 (stop_in_db pg c' db).1 (stop_cert order c' m).1
          sim')

  issued-Agrees :
      (c : Cert) (run : Run Csr) (db : Db) (m : Memory)
      → IsConsistent m
      → m ≡ single c m.domains
      → Sim (tables.view db) m
      → RunAgrees pg tables order acme
          (stop_after on_db
            (postgres_facade pg)
            (issue_after on_db (postgres_facade pg) c (run, db)))
          (stop_after in_memory
            (memory_facade order)
            (issue_after in_memory (memory_facade order) c (run, m)))
  issued-Agrees c (done (ok csr)) db m h shape sim =
      rw (issue-same c csr) (elim (Outcome-cases (issue in_memory (memory_facade order) c csr)) [
        | inl (c', made) ↦
            let (same, bound, held) = issue-keeps in_memory order texts c c' csr made in
            rw made (stop-Agrees c' db m h (single-IsJob order m c c' shape same bound held) sim)
        | inr (inl (cause, failed)) ↦ rw failed (refl, sim)
        | inr (inr failed) ↦ rw failed (refl, sim)
      ])
  issued-Agrees c (done (err e)) db m h shape sim = (refl, sim)
  issued-Agrees c (done panic) db m h shape sim = (refl, sim)
  issued-Agrees c out_of_fuel db m h shape sim = (refl, sim)

  order-Agrees :
      (fuel : ℕ) (c : Cert) (d : Domain) (placed : Outcome NewOrder) (db : Db) (m : Memory)
      → IsConsistent m
      → m ≡ single c m.domains
      → IsVersion m d
      → Sim (tables.view db) m
      → RunAgrees pg tables order acme
          (order_for on_db (postgres_facade pg) fuel c d placed db)
          (order_for in_memory (memory_facade order) fuel c d placed m)
  unfolding validate
  order-Agrees fuel c d (ok o) db m h shape v sim =
      let (same, sim') =
        confirm_loop-Agrees pg tables order acme fuel d o db m texts.proofs v sim in
      let (run, m') = confirm_loop in_memory (memory_facade order) fuel d o m in
      let db' = (confirm_loop on_db (postgres_facade pg) fuel d o db).1 in
      subst
        (λ r.
          RunAgrees pg tables order acme
            (stop_after on_db (postgres_facade pg)
              (issue_after on_db (postgres_facade pg) c (r, db')))
            (stop_after in_memory (memory_facade order)
              (issue_after in_memory (memory_facade order) c (run, m'))))
        (sym same)
        (issued-Agrees c run db' m' (confirm_loop-IsConsistent in_memory order fuel d o m h)
          (certs-single in_memory order c m m' shape
            (confirm_loop-certs in_memory order fuel d o m))
          sim')
  order-Agrees fuel c d (err e) db m h shape v sim = (refl, sim)
  order-Agrees fuel c d panic db m h shape v sim = (refl, sim)

  found-Agrees :
      (fuel : ℕ) (c : Cert) (db : Db) (m : Memory)
      → IsConsistent m
      → m ≡ single c m.domains
      → IsStorable m.domains
      → Sim (tables.view db) m
      → RunAgrees pg tables order acme
          (with_domain on_db (postgres_facade pg) fuel c (ok (get c.domain m.domains), db))
          (with_domain in_memory (memory_facade order) fuel c (ok (get c.domain m.domains), m))
  found-Agrees fuel c db m h shape storable sim = elim (Option-cases (get c.domain m.domains)) [
    | inl missing ↦ rw missing (refl, sim)
    | inr (d, found) ↦
        let named : d.id ≡ c.domain = h.named c.domain d found in
        let own : get d.id m.domains ≡ some d =
          subst (λ k. get k m.domains ≡ some d) (sym named) found in
        rw found (
          order-Agrees fuel c d acme.new_order db m h shape (IsStorable-IsVersion m d storable own)
            sim)
  ]

  job-Agrees :
      (fuel : ℕ) (c : Cert) (db : Db) (m : Memory)
      → IsConsistent m
      → m ≡ single c m.domains
      → IsStorable m.domains
      → Sim (tables.view db) m
      → RunAgrees pg tables order acme
          (with_job on_db (postgres_facade pg) fuel (ok (some c), db))
          (with_job in_memory (memory_facade order) fuel (ok (some c), m))
  unfolding postgres_facade memory_facade find_domain_by_id
  job-Agrees fuel c db m h shape storable sim =
      let own : get c.id m.certs ≡ some c = ap (λ m'. get c.id m'.certs) shape ∙ get_own c in
      let (same, sim') =
        find_domain_by_id-Agrees pg tables c.domain db m
          ((subst (Sim (tables.view db)) shape sim).width c.id c (get_own c)).1.1 sim in
      let db' = (find_in_db pg c.domain db).1 in
      subst
        (λ r.
          RunAgrees pg tables order acme (with_domain on_db (postgres_facade pg) fuel c (r, db'))
            (with_domain in_memory (memory_facade order) fuel c (ok (get c.domain m.domains), m)))
        (sym same) (found-Agrees fuel c db' m h shape storable sim')

  -- A whole renewal, with any authority that sees a store only through its rows and any fuel, has
  -- on Postgres, in working order and with the same rows, the same result as in memory, errors
  -- included, a panic in the blocking task being one, and leaves the same rows, if the store is
  -- consistent, its domains fit their columns and have no name or password in common, what a
  -- start draws fits and is new, and the proofs, keys and chains of the authority are texts
  -- without NUL.
  pub manage-Agrees :
      (fuel : ℕ) (env : Env) (db : Db) (m : Memory)
      → IsConsistent m
      → IsStorable m.domains
      → CanStart env m
      → Sim (tables.view db) m
      → RunAgrees pg tables order acme
          (manage on_db (postgres_facade pg) fuel env db)
          (manage in_memory (memory_facade order) fuel env m)
  unfolding manage postgres_facade memory_facade
  manage-Agrees fuel env db m h storable can sim =
      let (same, sim') = start_cert-Agrees pg tables order env db m h can sim in
      let db' = (start_in_db pg env db).1 in
      let m' = (start_cert order env m).1 in
      subst
        (λ r.
          RunAgrees pg tables order acme (with_job on_db (postgres_facade pg) fuel (r, db'))
            (with_job in_memory (memory_facade order) fuel (start_cert order env m)))
        (sym same) (by_result (start_cert order env m).0 refl sim')
    where
      by_result :
          (result : Outcome (Option Cert))
          → (start_cert order env m).0 ≡ result
          → Sim (tables.view (start_in_db pg env db).1) (start_cert order env m).1
          → RunAgrees pg tables order acme
              (with_job on_db (postgres_facade pg) fuel (result, (start_in_db pg env db).1))
              (with_job in_memory (memory_facade order) fuel (result, (start_cert order env m).1))
      by_result (ok none) e sim'' = (refl, sim'')
      by_result (ok (some c)) e sim'' =
          let (shape, _) =
            start_cert-Started order env m c (start_cert order env m).1 h
              (λ i. (e i, (start_cert order env m).1)) in
          job-Agrees fuel c _ _ (start_cert-IsConsistent order env m h) shape
            (start_cert-IsStorable order env m h can storable) sim''
      by_result (err cause) e sim'' = (refl, sim'')
      by_result panic e sim'' = (refl, sim'')
