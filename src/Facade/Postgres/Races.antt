-- ===== src/Facade/Postgres/Races.antt =====
-- Two calls of `start_cert` on Postgres that overlap. A transaction of this database reads what is
-- committed when its statement begins, and the SELECT takes no lock, so both calls may read before
-- either writes.
pub mod Stop
mod Tests
use acme_dns_rust.Sql.Text.{IsChar}
use acme_dns_rust.Base.{
  ◌≡◌, refl, sym, subst, ap, Bool-cases, inl, inr, if◌then◌else◌, ◌∙◌, ◌≢◌, Option, none, some,
  arith, String, eq_iff, eq_refl,
}
use acme_dns_rust.Base.Map.{Map, get, get-insert_self, string_key}
use acme_dns_rust.Base.Outcome.{Outcome, ok, err, panic}
use acme_dns_rust.Sql.{Postgres, then_with, transaction}
use acme_dns_rust.Facade.{Cert, Domain, Env, new_domain, new_cert}
use acme_dns_rust.Facade.Memory.{
  Memory, Order, is_ok, timed_out, create_cert, create_domain, start_cert as memory_start_cert,
}
use acme_dns_rust.Facade.Single.{
  single, unstarted, taken, taken_at, IsConsistent, start_cert-single,
}
use acme_dns_rust.Facade.Postgres.{
  first_cert, start_existing, start_missing, start_with, start_cert,
}
use acme_dns_rust.Facade.Postgres.Tables.{CertTexts, Tables}
use acme_dns_rust.Facade.Postgres.Sim.{Sim, get_single}
use acme_dns_rust.Facade.Postgres.Refines.{
  kept_ok, transaction_run, first_single, first_unstarted, after_update, stored_texts,
}
use acme_dns_rust.Facade.Postgres.Starts.{IsNew, missing_run}

module _ {Db : Type 0} (pg : Postgres Db) where
  -- What follows the SELECT in the transaction, with what it has read.
  abbrev pub write : Env → Outcome (Option Cert) → Db → Outcome (Option Cert) × Db
  write env (ok found) db = transaction pg (start_with pg env found) db
  write env (err e) db = (err e, db)
  write env panic db = (panic, db)

  -- One call whose SELECT comes first, and two calls whose SELECTs come before the rest of both.
  abbrev pub alone : Env → Db → Outcome (Option Cert) × Db
  alone env db = let (found, db') = first_cert pg db in write env found db'

  unfoldable pub overlapping : Env → Env → Db → (Outcome (Option Cert) × Outcome (Option Cert)) × Db
  overlapping env env' db =
      let (found, db1) = first_cert pg db in
      let (found', db2) = first_cert pg db1 in
      let (result, db3) = write env found db2 in
      let (result', db4) = write env' found' db3 in ((result, result'), db4)

-- What a call leaves that has read one certificate, where another version of it is stored by now.
abbrev pub left : Env → Cert → Cert → Cert
left e c stored = if is_ok c.state then taken c else if timed_out e c then taken_at e c else stored

-- A version of a certificate: the id and the domain stay.
abbrev pub IsVersionOf : Cert → Cert → Type 0
IsVersionOf c old = (c.id ≡ old.id) × (c.domain ≡ old.domain)

left-IsVersionOf :
    (e : Env) (c stored old : Cert)
    → IsVersionOf c old
    → IsVersionOf stored old
    → IsVersionOf (left e c stored) old
left-IsVersionOf e c stored old h h' = elim (Bool-cases (is_ok c.state)) [
  | inl idle ↦ rw idle h
  | inr busy ↦ elim (Bool-cases (timed_out e c)) [
    | inl late ↦ rw (busy, late) h
    | inr soon ↦ rw (busy, soon) h'
  ]
]

pub version-IsConsistent :
    (c old : Cert) (ds : Map String Domain)
    → IsVersionOf c old
    → IsConsistent (single old ds)
    → IsConsistent (single c ds)
version-IsConsistent c old ds (same, bound) h = record {
  held = (refl, subst (λ k. get k ds ≢ none) (sym bound) h.held.1);
  named = h.named;
}

module _ {Db : Type 0} (pg : Postgres Db) (tables : Tables pg) (env env' : Env) where
  -- The rest of a call that has read a version of the certificate.
  write_existing :
      (order : Order) (db : Db) (old c : Cert) (ds : Map String Domain) (e : Env)
      → IsConsistent (single old ds)
      → Sim (tables.view db) (single old ds)
      → IsVersionOf c old
      → CertTexts c
      → ((write pg e (ok (some c)) db).0 ≡ (memory_start_cert order e (single c ds)).0)
        × Sim (tables.view (write pg e (ok (some c)) db).1) (single (left e c old) ds)
  unfolding start_with start_existing
  write_existing order db old c ds e h sim (same, bound) texts = elim (Bool-cases (is_ok c.state)) [
    | inl idle ↦
        let (run, sim') =
          after_update pg tables db old (taken c) ds (some (taken c)) h sim same bound texts in
        rw
          (
            start_cert-single order e ds c,
            transaction_run pg tables (start_with pg e (some c)) db,
            idle,
            run,
          )
          (refl, sim')
    | inr busy ↦ elim (Bool-cases (timed_out e c)) [
      | inl late ↦
          let (run, sim') =
            after_update pg tables db old (taken_at e c) ds (some (taken_at e c)) h sim same bound
              texts in
          rw
            (
              start_cert-single order e ds c,
              transaction_run pg tables (start_with pg e (some c)) db,
              busy,
              late,
              run,
            )
            (refl, sim')
      | inr soon ↦
          rw
            (
              start_cert-single order e ds c,
              transaction_run pg tables (start_with pg e (some c)) db,
              busy,
              soon,
            )
            (refl, sim)
    ]
  ]

  -- If two starts on Postgres, in working order and with the rows of a consistent store, both
  -- read its only certificate before either writes, each returns what a start alone would return,
  -- so that neither keeps the other out, and the certificate that is stored then is what the
  -- second made of it, or, if that left it, the first.
  pub overlapping-start_cert :
      (order : Order) (db : Db) (c : Cert) (ds : Map String Domain)
      → IsConsistent (single c ds)
      → Sim (tables.view db) (single c ds)
      → ((overlapping pg env env' db).0 ≡ (
        (memory_start_cert order env (single c ds)).0,
        (memory_start_cert order env' (single c ds)).0,
      ))
        × Sim (tables.view (overlapping pg env env' db).1) (single (left env' c (left env c c)) ds)
  unfolding overlapping
  overlapping-start_cert order db c ds h sim =
      let texts = stored_texts pg tables db c ds sim in
      let read = first_single pg tables db c ds sim in
      let (run, sim') = write_existing order db c c ds env h sim (refl, refl) texts in
      let version = left-IsVersionOf env c c c (refl, refl) (refl, refl) in
      let (run', sim'') =
        write_existing order (write pg env (ok (some c)) db).1 (left env c c) c ds env'
          (version-IsConsistent (left env c c) c ds version h) sim' (sym version.0, sym version.1)
          texts in
      rw (read, read) ((λ i. (run i, run' i)), sim'')

  -- A call alone is its SELECT and what follows it.
  pub alone-start_cert :
      (db : Db) (found : Option Cert)
      → first_cert pg db ≡ (ok found, db)
      → alone pg env db ≡ start_cert pg env db
  unfolding start_cert
  alone-start_cert db found e =
      rw
        (transaction_run pg tables (λ db'. then_with (first_cert pg db') (start_with pg env)) db, e)
        (transaction_run pg tables (start_with pg env found) db)

module _ {Db : Type 0} (pg : Postgres Db) (tables : Tables pg) where
  -- The rest of a call that has found no certificate, on tables that may hold one by now.
  write_new :
      (env : Env) (db : Db) (m : Memory) (d : Domain)
      → new_domain env ≡ ok d
      → IsNew m d
      → IsChar 32 (env.uuid 3)
      → get (env.uuid 3) m.certs ≡ none
      → ((k : String) (x : Cert) → get k m.certs ≡ some x → x.domain ≢ d.id)
      → Sim (tables.view db) m
      → (write pg env (ok none) db ≡ (ok (some (new_cert env d)), (start_missing pg env db).1))
        × Sim
            (tables.view (start_missing pg env db).1)
            (create_cert (new_cert env d) (create_domain d m))
  unfolding start_with
  write_new env db m d made new wide unused apart sim =
      let (done, sim') = missing_run pg tables env db m d made new wide unused apart sim in
      (
        transaction_run pg tables (start_with pg env none) db
            ∙ kept_ok db (start_missing pg env db) (some (new_cert env d)) done,
        sim',
      )

  module _ (env env' : Env) (db : Db) (ds : Map String Domain) (d d' : Domain) where
    first_new : Memory
    first_new = create_cert (new_cert env d) (create_domain d (unstarted ds))

    -- If two starts on Postgres both read that there is no certificate before either writes, and
    -- make different domains and identifiers that are new and as wide as their columns, both
    -- succeed with a job of their own, and both certificates are stored.
    pub overlapping_two_certs :
        Sim (tables.view db) (unstarted ds)
        → new_domain env ≡ ok d
        → new_domain env' ≡ ok d'
        → IsNew (unstarted ds) d
        → IsNew (create_domain d (unstarted ds)) d'
        → IsChar 32 (env.uuid 3)
        → IsChar 32 (env'.uuid 3)
        → env.uuid 3 ≢ env'.uuid 3
        → let ((result, result'), db') = overlapping pg env env' db in
          (result ≡ ok (some (new_cert env d)))
          × (result' ≡ ok (some (new_cert env' d')))
          × ((tables.view db').cert_at (env.uuid 3) ≡ some (new_cert env d))
          × ((tables.view db').cert_at (env'.uuid 3) ≡ some (new_cert env' d'))
    unfolding overlapping first_new new_cert create_cert create_domain
    overlapping_two_certs sim made made' new new' wide wide' apart =
        let c = new_cert env d in
        let (run, sim1) = write_new env db (unstarted ds) d made new wide refl (λ k x e. cc) sim in
        let db1 = (start_missing pg env db).1 in
        let other : get (env'.uuid 3) first_new.certs ≡ none =
          ground (arith, eq_iff (env.uuid 3) (env'.uuid 3)) in
        let used : d.id ≢ d'.id = λ e. cc (new'.unused, get-insert_self d.id d ds) in
        let domains_apart : (k : String) (x : Cert)
            → get k first_new.certs ≡ some x
            → x.domain ≢ d'.id =
          λ k x e b. used (ap (λ y. y.domain) (get_single k c x e).0 ∙ b) in
        let new'' : IsNew first_new d' = record {
          width = new'.width;
          unused = new'.unused;
          alone = new'.alone;
        } in
        let (run', sim2) =
          write_new env' db1 first_new d' made' new'' wide' other domains_apart sim1 in
        rw (first_unstarted pg tables db ds sim, first_unstarted pg tables db ds sim, run, run')
          (
            refl,
            refl,
            sim2.certs (env.uuid 3)
                ∙ ground (
                  arith,
                  eq_iff (env.uuid 3) (env'.uuid 3),
                  eq_iff (env'.uuid 3) (env.uuid 3),
                  eq_refl (env.uuid 3),
                ),
            sim2.certs (env'.uuid 3)
                ∙ get-insert_self (env'.uuid 3) (new_cert env' d') first_new.certs,
          )
