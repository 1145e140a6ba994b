-- ===== src/Facade/Postgres/Calls.antt =====
-- The other methods of the Postgres facade do what those of the in-memory facade do.
use acme_dns_rust.Base.{
  ◌≡◌, refl, sym, ap, subst, ◌∙◌, ◌≢◌, inl, inr, Bool-cases, Option-cases, none, some, arith,
  String,
}
use acme_dns_rust.Base.Map.{Map, get, string_key}
use acme_dns_rust.Base.Outcome.{ok}
use acme_dns_rust.Sql.Text.{IsText}
use acme_dns_rust.Sql.{Postgres}
use acme_dns_rust.Facade.{Cert, Domain}
use acme_dns_rust.Facade.Memory.{
  Memory, Order, still_running, stop_cert as memory_stop_cert,
  create_domain as memory_create_domain, update_domain as memory_update_domain,
  first_cert as memory_first_cert, find_domain_by_id as memory_find_domain_by_id,
}
use acme_dns_rust.Facade.Single.{
  single, unstarted, finished, IsConsistent, IsConsistent-cases, stop_cert-single,
}
use acme_dns_rust.Facade.Jobs.{first_cert-single}
use acme_dns_rust.Facade.Consistency.{update_domain-found}
use acme_dns_rust.Facade.Postgres.{
  first_cert, create_domain, find_domain_by_id, update_domain, stop_cert,
}
use acme_dns_rust.Facade.Postgres.Columns.{decode_domain-domain_row}
use acme_dns_rust.Facade.Postgres.Tables.{
  execute-update_domain_sql, CertTexts, Tables, FitsDomain, StorableDomain,
}
use acme_dns_rust.Facade.Postgres.Sim.{Sim, Sim-domain}
use acme_dns_rust.Facade.Postgres.Refines.{Agrees, first_single, first_unstarted, after_update}
use acme_dns_rust.Facade.Postgres.Starts.{IsNew, insert_domain}

-- The certificate that a worker hands in is the stored one, by its id and its domain, and its texts
-- are ones that the database can hold.
abbrev pub IsJob : Order → Memory → Cert → Type 0
IsJob order m c =
    ((x : Cert) → memory_first_cert order m ≡ some x → (c.id ≡ x.id) × (c.domain ≡ x.domain))
    × CertTexts c

-- A version of a stored domain that the unique indices allow.
pub record IsVersion (m : Memory) (d : Domain) : Type 0 where
  pub width : StorableDomain d
  pub there : get d.id m.domains ≢ none
  pub alone :
      (k : String) (x : Domain)
      → get k m.domains ≡ some x
      → k ≢ d.id
      → (x.username ≢ d.username) × (x.password ≢ d.password)

pub first_cert-unstarted :
    (order : Order) (ds : Map String Domain) → memory_first_cert order (unstarted ds) ≡ none
unfolding memory_first_cert
first_cert-unstarted order ds = order.next_nil

pub memory_unstarted :
    (order : Order) (c : Cert) (ds : Map String Domain)
    → memory_stop_cert order c (unstarted ds) ≡ (ok c, unstarted ds)
unfolding memory_stop_cert memory_first_cert
memory_unstarted order c ds = ground (arith, order.next_nil)

module _ {Db : Type 0} (pg : Postgres Db) (tables : Tables pg) where
  stop_unstarted :
      (order : Order) (db : Db) (c : Cert) (ds : Map String Domain)
      → Sim (tables.view db) (unstarted ds)
      → Agrees pg tables (stop_cert pg c db) (memory_stop_cert order c (unstarted ds))
  unfolding stop_cert
  stop_unstarted order db c ds sim =
      rw
        (
          tables.begins db,
          first_unstarted pg tables db ds sim,
          tables.commits db,
          memory_unstarted order c ds,
        )
        (refl, sim)

  stop_single :
      (order : Order) (db : Db) (m c : Cert) (ds : Map String Domain)
      → IsConsistent (single c ds)
      → Sim (tables.view db) (single c ds)
      → m.id ≡ c.id
      → m.domain ≡ c.domain
      → CertTexts m
      → Agrees pg tables (stop_cert pg m db) (memory_stop_cert order m (single c ds))
  unfolding stop_cert
  stop_single order db m c ds h sim same bound texts = elim (Bool-cases (still_running c m)) [
    | inl runs ↦
        let (run, sim') =
          after_update pg tables db c (finished m) ds (finished m) h sim same bound texts in
        rw
          (
            tables.begins db,
            first_single pg tables db c ds sim,
            tables.commits db,
            runs,
            run,
            stop_cert-single order ds c m same,
            runs,
          )
          (refl, sim')
    | inr over ↦
        rw
          (
            tables.begins db,
            first_single pg tables db c ds sim,
            tables.commits db,
            over,
            stop_cert-single order ds c m same,
            over,
          )
          (refl, sim)
  ]

  pub stop_cert-Agrees :
      (order : Order) (c : Cert) (db : Db) (m : Memory)
      → IsConsistent m
      → IsJob order m c
      → Sim (tables.view db) m
      → Agrees pg tables (stop_cert pg c db) (memory_stop_cert order c m)
  stop_cert-Agrees order c db m h job sim = elim (IsConsistent-cases m h) [
    | inl shape ↦
        subst
          (λ m'.
            Sim (tables.view db) m'
            → Agrees pg tables (stop_cert pg c db) (memory_stop_cert order c m'))
          (sym shape) (stop_unstarted order db c m.domains) sim
    | inr (x, shape) ↦
        let (same, bound) =
          job.0 x (ap (memory_first_cert order) shape ∙ first_cert-single order x m.domains) in
        subst
          (λ m'.
            IsConsistent m'
            → Sim (tables.view db) m'
            → Agrees pg tables (stop_cert pg c db) (memory_stop_cert order c m'))
          (sym shape) (λ h' sim'. stop_single order db c x m.domains h' sim' same bound job.1) h sim
  ]

  pub first_cert-Agrees :
      (order : Order) (db : Db) (m : Memory)
      → IsConsistent m
      → Sim (tables.view db) m
      → Agrees pg tables (first_cert pg db) (ok (memory_first_cert order m), m)
  first_cert-Agrees order db m h sim = elim (IsConsistent-cases m h) [
    | inl shape ↦
        subst
          (λ m'.
            Sim (tables.view db) m'
            → Agrees pg tables (first_cert pg db) (ok (memory_first_cert order m'), m'))
          (sym shape)
          (λ sim'.
            rw (first_unstarted pg tables db m.domains sim')
              (ap ok (sym (first_cert-unstarted order m.domains)), sim'))
          sim
    | inr (x, shape) ↦
        subst
          (λ m'.
            Sim (tables.view db) m'
            → Agrees pg tables (first_cert pg db) (ok (memory_first_cert order m'), m'))
          (sym shape)
          (λ sim'.
            rw (first_single pg tables db x m.domains sim')
              (ap ok (sym (first_cert-single order x m.domains)), sim'))
          sim
  ]

  pub create_domain-Agrees :
      (d : Domain) (db : Db) (m : Memory)
      → IsNew m d
      → Sim (tables.view db) m
      → Agrees pg tables (create_domain pg d db) (ok tt, memory_create_domain d m)
  create_domain-Agrees d db m new sim = insert_domain pg tables db d m new sim

  pub find_domain_by_id-Agrees :
      (k : String) (db : Db) (m : Memory)
      → IsText k
      → Sim (tables.view db) m
      → Agrees pg tables (find_domain_by_id pg k db) (memory_find_domain_by_id k m)
  unfolding find_domain_by_id memory_find_domain_by_id
  find_domain_by_id-Agrees k db m wide sim = elim (Option-cases (get k m.domains)) [
    | inl missing ↦ rw (tables.find_domain_law k db wide, sim.domains k, missing) (refl, sim)
    | inr (d, found) ↦
        rw (tables.find_domain_law k db wide, sim.domains k, found, decode_domain-domain_row d)
          (refl, sim)
  ]

  pub update_domain-Agrees :
      (d : Domain) (db : Db) (m : Memory)
      → IsVersion m d
      → Sim (tables.view db) m
      → Agrees pg tables (update_domain pg d db) (memory_update_domain d m)
  unfolding update_domain memory_create_domain
  update_domain-Agrees d db m version sim = elim (Option-cases (get d.id m.domains)) [
    | inl missing ↦ absurd (version.there missing)
    | inr (old, found) ↦
        let fits : FitsDomain (tables.view db) d = record {
          width = version.width;
          alone = λ k x e ne. version.alone k x (sym (sim.domains k) ∙ e) ne;
        } in
        let (done, set) =
          execute-update_domain_sql pg tables d db fits
            (λ e. version.there (sym (sim.domains d.id) ∙ e)) in
        rw (update_domain-found d old m found) (done, Sim-domain (tables.view db) _ d m set sim)
  ]
