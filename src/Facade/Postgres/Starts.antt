-- ===== src/Facade/Postgres/Starts.antt =====
-- `start_cert` of the Postgres facade does what that of the in-memory facade does.
use acme_dns_rust.Base.{◌≡◌, refl, sym, subst, ◌∙◌, ◌≢◌, inl, inr, none, some, [], String}
use acme_dns_rust.Sql.Text.{IsChar}
use acme_dns_rust.Base.Map.{Map, get, insert, get-insert_self, string_key}
use acme_dns_rust.Base.Outcome.{ok, Outcome-cases}
use acme_dns_rust.Sql.{Postgres, then_with}
use acme_dns_rust.Facade.{Cert, Domain, Env, new_domain, new_cert}
use acme_dns_rust.Facade.Memory.{Memory, Order}
use acme_dns_rust.Facade.Memory.{
  start_cert as memory_start_cert, start_missing as memory_start_missing,
  create_domain as memory_create_domain, create_cert as memory_create_cert,
}
use acme_dns_rust.Facade.Single.{unstarted, IsConsistent, IsConsistent-cases, start_cert-unstarted}
use acme_dns_rust.Facade.Lease.{start_missing-ok}
use acme_dns_rust.Facade.Postgres.{
  first_cert, create_cert, create_domain, start_missing, start_with, start_cert,
}
use acme_dns_rust.Facade.Postgres.Tables.{
  execute-create_cert_sql, execute-create_domain_sql, Tables, FitsCert, FitsDomain, StorableCert,
  StorableDomain,
}
use acme_dns_rust.Facade.Postgres.Sim.{Sim, Sim-cert, Sim-domain}
use acme_dns_rust.Facade.Consistency.{start_missing-err, start_missing-panic}
use acme_dns_rust.Facade.Postgres.Refines.{
  kept, kept_ok, Agrees, transaction_run, first_unstarted, start_single,
}

-- A domain that the unique indices and the widths of the columns allow beside those stored.
pub record IsNew (m : Memory) (d : Domain) : Type 0 where
  pub width : StorableDomain d
  pub unused : get d.id m.domains ≡ none
  pub alone :
      (k : String) (x : Domain)
      → get k m.domains ≡ some x
      → (x.username ≢ d.username) × (x.password ≢ d.password)

module _ {Db : Type 0} (pg : Postgres Db) (tables : Tables pg) where
  pub insert_domain :
      (db : Db) (d : Domain) (m : Memory)
      → IsNew m d
      → Sim (tables.view db) m
      → ((create_domain pg d db).0 ≡ ok tt)
        × Sim (tables.view (create_domain pg d db).1) (memory_create_domain d m)
  unfolding create_domain memory_create_domain
  insert_domain db d m new sim =
      let fits : FitsDomain (tables.view db) d = record {
        width = new.width;
        alone = λ k x e _. new.alone k x (sym (sim.domains k) ∙ e);
      } in
      let (done, set) =
        execute-create_domain_sql pg tables d db fits (sim.domains d.id ∙ new.unused) in
      (done, Sim-domain (tables.view db) _ d m set sim)

  insert_cert :
      (db : Db) (c : Cert) (m : Memory)
      → StorableCert c
      → get c.domain m.domains ≢ none
      → get c.id m.certs ≡ none
      → ((k : String) (x : Cert) → get k m.certs ≡ some x → x.domain ≢ c.domain)
      → Sim (tables.view db) m
      → ((create_cert pg c db).0 ≡ ok tt)
        × Sim (tables.view (create_cert pg c db).1) (memory_create_cert c m)
  unfolding create_cert memory_create_cert
  insert_cert db c m width bound unused apart sim =
      let fits : FitsCert (tables.view db) c = record {
        width = width;
        known = λ e. bound (sym (sim.domains c.domain) ∙ e);
        alone = λ k x e b. absurd (apart k x (sym (sim.certs k) ∙ e) b);
      } in
      let (done, set) = execute-create_cert_sql pg tables c db fits (sim.certs c.id ∙ unused) in
      (done, Sim-cert (tables.view db) _ c m width set sim)

  -- A new domain and its certificate, on tables that may hold others.
  pub missing_run :
      (env : Env) (db : Db) (m : Memory) (d : Domain)
      → new_domain env ≡ ok d
      → IsNew m d
      → IsChar 32 (env.uuid 3)
      → get (env.uuid 3) m.certs ≡ none
      → ((k : String) (x : Cert) → get k m.certs ≡ some x → x.domain ≢ d.id)
      → Sim (tables.view db) m
      → ((start_missing pg env db).0 ≡ ok (some (new_cert env d)))
        × Sim
            (tables.view (start_missing pg env db).1)
            (memory_create_cert (new_cert env d) (memory_create_domain d m))
  unfolding start_missing new_cert memory_create_domain
  missing_run env db m d made new wide unused apart sim =
      let c = new_cert env d in
      let (done, sim') = insert_domain db d m new sim in
      let db' = (create_domain pg d db).1 in
      let bound : get d.id (insert d.id d m.domains) ≢ none =
        λ e. cc (get-insert_self d.id d m.domains) in
      let (done', sim'') =
        insert_cert db' c (memory_create_domain d m) (wide, new.width.0, (tt, tt)) bound unused
          apart sim' in
      rw (made, done, done') (refl, sim'')

  module _ (env : Env) (ds : Map String Domain) where
    missing_ok :
        (db : Db) (d : Domain)
        → IsChar 32 (env.uuid 3)
        → IsNew (unstarted ds) d
        → Sim (tables.view db) (unstarted ds)
        → new_domain env ≡ ok d
        → Agrees pg tables
            (kept db (start_missing pg env db))
            (memory_start_missing env (unstarted ds))
    unfolding memory_create_domain memory_create_cert new_cert
    missing_ok db d wide new sim made =
        let (done, sim') =
          missing_run env db (unstarted ds) d made new wide refl (λ k x e. cc) sim in
        rw
          (
            start_missing-ok env ds d made,
            kept_ok db (start_missing pg env db) (some (new_cert env d)) done,
          )
          (refl, sim')

    missing_Agrees :
        (db : Db)
        → IsChar 32 (env.uuid 3)
        → ((d : Domain) → new_domain env ≡ ok d → IsNew (unstarted ds) d)
        → Sim (tables.view db) (unstarted ds)
        → Agrees pg tables
            (kept db (start_missing pg env db))
            (memory_start_missing env (unstarted ds))
    unfolding start_missing
    missing_Agrees db wide new sim = elim (Outcome-cases (new_domain env)) [
      | inl (d, made) ↦ missing_ok db d wide (new d made) sim made
      | inr (inl (cause, failed)) ↦
          rw (failed, start_missing-err env (unstarted ds) cause failed) (refl, sim)
      | inr (inr failed) ↦ rw (failed, start_missing-panic env (unstarted ds) failed) (refl, sim)
    ]

    start_unstarted :
        (order : Order) (db : Db)
        → IsChar 32 (env.uuid 3)
        → ((d : Domain) → new_domain env ≡ ok d → IsNew (unstarted ds) d)
        → Sim (tables.view db) (unstarted ds)
        → Agrees pg tables (start_cert pg env db) (memory_start_cert order env (unstarted ds))
    unfolding start_cert start_with
    start_unstarted order db wide new sim =
        rw
          (
            transaction_run pg tables (λ db'. then_with (first_cert pg db') (start_with pg env)) db,
            first_unstarted pg tables db ds sim,
            start_cert-unstarted order env ds,
          )
          (missing_Agrees db wide new sim)

-- What a start draws, if no certificate is stored: texts that fit the columns, and a new domain.
pub record CanStart (env : Env) (m : Memory) : Type 0 where
  pub wide : IsChar 32 (env.uuid 3)
  pub new : m.certs ≡ [] → (d : Domain) → new_domain env ≡ ok d → IsNew m d

module _ {Db : Type 0} (pg : Postgres Db) (tables : Tables pg) where
  pub start_cert-Agrees :
      (order : Order) (env : Env) (db : Db) (m : Memory)
      → IsConsistent m
      → CanStart env m
      → Sim (tables.view db) m
      → Agrees pg tables (start_cert pg env db) (memory_start_cert order env m)
  start_cert-Agrees order env db m h can sim = elim (IsConsistent-cases m h) [
    | inl shape ↦
        subst
          (λ m'.
            CanStart env m'
            → Sim (tables.view db) m'
            → Agrees pg tables (start_cert pg env db) (memory_start_cert order env m'))
          (sym shape)
          (λ can' sim'.
            start_unstarted pg tables env m.domains order db can'.wide (can'.new refl) sim')
          can sim
    | inr (c, shape) ↦
        subst
          (λ m'.
            IsConsistent m'
            → Sim (tables.view db) m'
            → Agrees pg tables (start_cert pg env db) (memory_start_cert order env m'))
          (sym shape) (start_single pg tables order env db c m.domains) h sim
  ]
