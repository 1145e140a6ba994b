-- ===== src/Manager/Postgres/Loop.antt =====
-- The loop of `validate` on Postgres and in memory.
use acme_dns_rust.Base.{ℕ, zero, suc, ◌≡◌, refl, sym, ap, subst, ◌∙◌, inl, inr, Option-cases}
use acme_dns_rust.Base.Map.{get, string_key}
use acme_dns_rust.Base.Outcome.{Outcome, ok, err, panic, ◌>>=◌, ◌>>◌}
use acme_dns_rust.Sql.Text.{IsText}
use acme_dns_rust.Sql.{Postgres}
use acme_dns_rust.Facade.{Domain}
use acme_dns_rust.Facade.Memory.{Memory, Order, memory_facade, update_domain}
use acme_dns_rust.Facade.Consistency.{update_domain-found}
use acme_dns_rust.Facade.Postgres.{postgres_facade}
use acme_dns_rust.Facade.Postgres.Tables.{View, Tables}
use acme_dns_rust.Facade.Postgres.Sim.{Sim}
use acme_dns_rust.Facade.Postgres.Calls.{IsVersion, update_domain-Agrees}
use acme_dns_rust.Manager.{
  Acme, Run, first_auth, with_proof, next_order, go_on, run_round, confirm_loop,
}
use acme_dns_rust.Manager.Postgres.{view_of, Sim-view_of, acme_on}
use acme_dns_rust.Manager.Postgres.Storable.{create_domain-IsVersion}

pub update_domain-IsVersion :
    (m : Memory) (d : Domain) → IsVersion m d → IsVersion (update_domain d m).1 d
update_domain-IsVersion m d v = elim (Option-cases (get d.id m.domains)) [
  | inl missing ↦ absurd (v.there missing)
  | inr (old, found) ↦ rw (update_domain-found d old m found) (create_domain-IsVersion m d v)
]

module _ {Db NewOrder Auth Csr : Type 0} (pg : Postgres Db) (tables : Tables pg) (order : Order)
    (acme : Acme View NewOrder Auth Csr) where
  abbrev pub db_acme : Acme Db NewOrder Auth Csr
  db_acme = acme_on (λ db. tables.view db) acme

  abbrev pub memory_acme : Acme Memory NewOrder Auth Csr
  memory_acme = acme_on view_of acme

  -- The same result, and tables that hold what the memory holds.
  abbrev pub RunAgrees : {A : Type 0} → Run A × Db → Run A × Memory → Type 0
  RunAgrees r r' = (r.0 ≡ r'.0) × Sim (tables.view r.1) r'.1

  next_order-same :
      (auth : Auth) (o : NewOrder) (db : Db) (m : Memory)
      → Sim (tables.view db) m
      → next_order db_acme (postgres_facade pg) auth db o
        ≡ next_order memory_acme (memory_facade order) auth m o
  unfolding next_order
  next_order-same auth o db m sim =
      ap (λ view. acme.validate auth view o >>= acme.refresh) (Sim-view_of (tables.view db) m sim)

  go_on-Agrees :
      (result : Outcome NewOrder) (db : Db) (m : Memory) (again : NewOrder → Db → Run Csr × Db)
      (again' : NewOrder → Memory → Run Csr × Memory)
      → Sim (tables.view db) m
      → ((o : NewOrder) → RunAgrees (again o db) (again' o m))
      → RunAgrees
          (go_on db_acme (postgres_facade pg) (result, db) again)
          (go_on memory_acme (memory_facade order) (result, m) again')
  go_on-Agrees (ok o) db m again again' sim h = h o
  go_on-Agrees (err e) db m again again' sim h = (refl, sim)
  go_on-Agrees panic db m again again' sim h = (refl, sim)

  run_round-Agrees :
      (auth : Outcome Auth) (d : Domain) (o : NewOrder) (db : Db) (m : Memory)
      (again : Domain → NewOrder → Db → Run Csr × Db)
      (again' : Domain → NewOrder → Memory → Run Csr × Memory)
      → ((a : Auth) → IsText (acme.dns_proof a))
      → IsVersion m d
      → Sim (tables.view db) m
      → ((d' : Domain) (o' : NewOrder) (db' : Db) (m' : Memory)
          → IsVersion m' d'
          → Sim (tables.view db') m'
          → RunAgrees (again d' o' db') (again' d' o' m'))
      → RunAgrees
          (run_round db_acme (postgres_facade pg) auth d o db again)
          (run_round memory_acme (memory_facade order) auth d o m again')
  unfolding postgres_facade memory_facade
  run_round-Agrees (ok auth) d o db m again again' proofs v sim h =
      let d' = with_proof memory_acme (memory_facade order) d auth in
      let v' : IsVersion m d' = record {
        width = (v.width.0, v.width.1, v.width.2, proofs auth);
        there = v.there;
        alone = v.alone;
      } in
      let (same, sim') = update_domain-Agrees pg tables d' db m v' sim in
      let db' = ((postgres_facade pg).update_domain d' db).1 in
      let (updated, m') = update_domain d' m in
      let next = next_order-same auth o db' m' sim' in
      let result =
        ap (λ u. u >> next_order db_acme (postgres_facade pg) auth db' o) same
        ∙ ap (λ n. updated >> n) next in
      subst
        (λ r. RunAgrees (go_on db_acme (postgres_facade pg) (r, db') (again d')) (
          go_on memory_acme (memory_facade order)
            (updated >> next_order memory_acme (memory_facade order) auth m' o, m') (again' d')))
        (sym result)
        (go_on-Agrees (updated >> next_order memory_acme (memory_facade order) auth m' o) db' m'
          (again d') (again' d') sim' (λ o'. h d' o' db' m' (update_domain-IsVersion m d' v') sim'))
  run_round-Agrees (err e) d o db m again again' proofs v sim h = (refl, sim)
  run_round-Agrees panic d o db m again again' proofs v sim h = (refl, sim)

  first_auth-same :
      (o : NewOrder)
      → first_auth db_acme (postgres_facade pg) o ≡ first_auth memory_acme (memory_facade order) o
  unfolding first_auth
  first_auth-same o = refl

  -- The loop does the same on Postgres as in memory.
  pub confirm_loop-Agrees :
      (fuel : ℕ) (d : Domain) (o : NewOrder) (db : Db) (m : Memory)
      → ((a : Auth) → IsText (acme.dns_proof a))
      → IsVersion m d
      → Sim (tables.view db) m
      → RunAgrees
          (confirm_loop db_acme (postgres_facade pg) fuel d o db)
          (confirm_loop memory_acme (memory_facade order) fuel d o m)
  unfolding confirm_loop
  confirm_loop-Agrees zero d o db m proofs v sim = (refl, sim)
  confirm_loop-Agrees (suc fuel) d o db m proofs v sim =
      elim (Option-cases (acme.confirm_validations o)) [
        | inl waiting ↦
            rw (waiting, confirm_loop, first_auth-same o)
              (run_round-Agrees (first_auth memory_acme (memory_facade order) o) d o db m
                (confirm_loop db_acme (postgres_facade pg) fuel)
                (confirm_loop memory_acme (memory_facade order) fuel) proofs v sim
                (λ d' o' db' m'. confirm_loop-Agrees fuel d' o' db' m' proofs))
        | inr (csr, ready) ↦ rw (ready, confirm_loop) (refl, sim)
      ]
