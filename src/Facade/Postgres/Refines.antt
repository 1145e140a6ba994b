-- ===== src/Facade/Postgres/Refines.antt =====
-- Each method of the Postgres facade does on the tables what the in-memory facade does.
use acme_dns_rust.Base.{
  ◌≡◌, refl, sym, ap, ◌∙◌, ◌≢◌, inl, inr, Bool-cases, none, some, List, String,
}
use acme_dns_rust.Base.Map.{Map, string_key}
use acme_dns_rust.Base.Outcome.{Outcome, ok, err, panic}
use acme_dns_rust.Sql.{Postgres, SqlRow, then_with, finish, transaction}
use acme_dns_rust.Facade.{Cert, Domain, Env}
use acme_dns_rust.Facade.Memory.{Memory, Order, is_ok, timed_out}
use acme_dns_rust.Facade.Memory.{start_cert as memory_start_cert}
use acme_dns_rust.Facade.Single.{
  single, unstarted, taken, taken_at, IsConsistent, start_cert-single,
}
use acme_dns_rust.Facade.Postgres.{
  first_cert, update_cert, start_existing, start_with, start_cert, decode_optional, decode_cert,
}
use acme_dns_rust.Facade.Postgres.Columns.{decode_cert-cert_row}
use acme_dns_rust.Facade.Postgres.Tables.{
  CertTexts, execute-update_cert_sql, Tables, SelectsCert, empty, one,
}
use acme_dns_rust.Facade.Postgres.Sim.{
  Sim, get_own, Sim-single, SelectsCert-single, FitsCert-single,
}

-- What a transaction on a database in working order keeps.
abbrev pub kept : {Db B : Type 0} → Db → Outcome B × Db → Outcome B × Db
kept before (ok b, db) = (ok b, db)
kept before (err e, db) = (err e, before)
kept before (panic, db) = (panic, before)

pub kept_ok :
    {Db B : Type 0} (before : Db) (r : Outcome B × Db) (b : B)
    → r.0 ≡ ok b
    → kept before r ≡ (ok b, r.1)
kept_ok before r b e = ap (λ o. kept before (o, r.1)) e

module _ {Db : Type 0} (pg : Postgres Db) (tables : Tables pg) where
  finish_run :
      {B : Type 0} (before db : Db) (result : Outcome B)
      → finish pg before (result, db) ≡ kept before (result, db)
  finish_run before db (ok b) = rw (tables.commits db) refl
  finish_run before db (err e) = refl
  finish_run before db panic = refl

  pub transaction_run :
      {B : Type 0} (body : Db → Outcome B × Db) (db : Db)
      → transaction pg body db ≡ kept db (body db)
  unfolding transaction
  transaction_run body db = rw (tables.begins db) (finish_run db (body db).1 (body db).0)

  -- The same answer, and tables that hold what the memory holds.
  abbrev pub Agrees : {A : Type 0} → Outcome A × Db → Outcome A × Memory → Type 0
  Agrees r r' = (r.0 ≡ r'.0) × Sim (tables.view r.1) r'.1

  select_single :
      (db : Db) (c : Cert) (ds : Map String Domain) (answer : List SqlRow)
      → Sim (tables.view db) (single c ds)
      → SelectsCert (tables.view db) answer
      → decode_optional decode_cert answer ≡ ok (some c)
  select_single db c ds answer sim (empty none_at e) =
      let own = sym (none_at c.id) ∙ sim.certs c.id ∙ get_own c in cc
  select_single db c ds answer sim (one x at_key e) =
      let same = SelectsCert-single (tables.view db) ds c x sim at_key in
      rw (e, same, decode_cert-cert_row c) refl

  pub first_single :
      (db : Db) (c : Cert) (ds : Map String Domain)
      → Sim (tables.view db) (single c ds)
      → first_cert pg db ≡ (ok (some c), db)
  unfolding first_cert
  first_single db c ds sim =
      let (answer, asked, selects) = tables.first_cert_law db in
      rw (asked, select_single db c ds answer sim selects) refl

  select_unstarted :
      (db : Db) (ds : Map String Domain) (answer : List SqlRow)
      → Sim (tables.view db) (unstarted ds)
      → SelectsCert (tables.view db) answer
      → decode_optional decode_cert answer ≡ ok none
  select_unstarted db ds answer sim (empty none_at e) = rw e refl
  select_unstarted db ds answer sim (one x at_key e) = let own = sym at_key ∙ sim.certs x.id in cc

  pub first_unstarted :
      (db : Db) (ds : Map String Domain)
      → Sim (tables.view db) (unstarted ds)
      → first_cert pg db ≡ (ok none, db)
  unfolding first_cert
  first_unstarted db ds sim =
      let (answer, asked, selects) = tables.first_cert_law db in
      rw (asked, select_unstarted db ds answer sim selects) refl

  pub stored_texts :
      (db : Db) (c : Cert) (ds : Map String Domain)
      → Sim (tables.view db) (single c ds)
      → CertTexts c
  stored_texts db c ds sim = (sim.width c.id c (get_own c)).2

  -- An update of the only certificate.
  pub update_single :
      (db : Db) (c c' : Cert) (ds : Map String Domain)
      → IsConsistent (single c ds)
      → Sim (tables.view db) (single c ds)
      → c'.id ≡ c.id
      → c'.domain ≡ c.domain
      → CertTexts c'
      → ((update_cert pg c' db).0 ≡ ok tt)
        × Sim (tables.view (update_cert pg c' db).1) (single c' ds)
  unfolding update_cert
  update_single db c c' ds h sim same bound texts =
      let fits = FitsCert-single (tables.view db) ds c c' h sim same bound texts in
      let there : (tables.view db).cert_at c'.id ≢ none = λ e.
        (let own =
            sym (get_own c) ∙ sym (sim.certs c.id) ∙ ap (tables.view db).cert_at (sym same) ∙ e in
          cc) in
      let (done, set) = execute-update_cert_sql pg tables c' db fits there in
      (done, Sim-single (tables.view db) _ c c' ds same fits.width set sim)

  -- A call that ends in an update of the only certificate.
  pub after_update :
      {A : Type 0} (db : Db) (c c' : Cert) (ds : Map String Domain) (a : A)
      → IsConsistent (single c ds)
      → Sim (tables.view db) (single c ds)
      → c'.id ≡ c.id
      → c'.domain ≡ c.domain
      → CertTexts c'
      → (then_with (update_cert pg c' db) (λ _ db'. (ok a, db')) ≡ (ok a, (update_cert pg c' db).1))
        × Sim (tables.view (update_cert pg c' db).1) (single c' ds)
  after_update db c c' ds a h sim same bound texts =
      let (done, sim') = update_single db c c' ds h sim same bound texts in
      (ap (λ o. then_with (o, (update_cert pg c' db).1) (λ _ db'. (ok a, db'))) done, sim')

  module _ (order : Order) (env : Env) where
    existing_Agrees :
        (db : Db) (c : Cert) (ds : Map String Domain)
        → IsConsistent (single c ds)
        → Sim (tables.view db) (single c ds)
        → Agrees (kept db (start_existing pg env c db)) (memory_start_cert order env (single c ds))
    unfolding start_existing
    existing_Agrees db c ds h sim = elim (Bool-cases (is_ok c.state)) [
      | inl idle ↦
          let (run, sim') =
            after_update db c (taken c) ds (some (taken c)) h sim refl refl
              (stored_texts db c ds sim) in
          rw (start_cert-single order env ds c, idle, run) (refl, sim')
      | inr busy ↦ elim (Bool-cases (timed_out env c)) [
        | inl late ↦
            let (run, sim') =
              after_update db c (taken_at env c) ds (some (taken_at env c)) h sim refl refl
                (stored_texts db c ds sim) in
            rw (start_cert-single order env ds c, busy, late, run) (refl, sim')
        | inr soon ↦ rw (start_cert-single order env ds c, busy, soon) (refl, sim)
      ]
    ]

    pub start_single :
        (db : Db) (c : Cert) (ds : Map String Domain)
        → IsConsistent (single c ds)
        → Sim (tables.view db) (single c ds)
        → Agrees (start_cert pg env db) (memory_start_cert order env (single c ds))
    unfolding start_cert start_with
    start_single db c ds h sim =
        rw
          (
            transaction_run (λ db'. then_with (first_cert pg db') (start_with pg env)) db,
            first_single db c ds sim,
          )
          (existing_Agrees db c ds h sim)
