-- ===== src/Dns/Authority/Postgres.antt =====
-- The name server of src/dns/authority.rs on Postgres and in memory, next to each other.
use acme_dns_rust.Base.{
  ◌≡◌, refl, sym, ap, subst, ◌∙◌, Bool-cases, Option-cases, inl, inr, Option, none, some, String,
}
use acme_dns_rust.Base.Map.{get, string_key}
use acme_dns_rust.Base.Outcome.{Outcome, ok, err, panic}
use acme_dns_rust.Util.Errors.{map_err, as_anyhow}
use acme_dns_rust.Sql.Text.{IsText}
use acme_dns_rust.Sql.{Postgres}
use acme_dns_rust.Facade.{Cert}
use acme_dns_rust.Facade.Memory.{Memory, Order, memory_facade, first_cert, find_domain_by_id}
use acme_dns_rust.Facade.Single.{IsConsistent, IsConsistent-cases}
use acme_dns_rust.Facade.Jobs.{first_cert-single}
use acme_dns_rust.Facade.Postgres.{
  postgres_facade, first_cert as first_in_db, find_domain_by_id as find_in_db,
}
use acme_dns_rust.Facade.Postgres.Tables.{View, Tables}
use acme_dns_rust.Facade.Postgres.Sim.{Sim, get_own}
use acme_dns_rust.Facade.Postgres.Refines.{Agrees}
use acme_dns_rust.Facade.Postgres.Calls.{
  first_cert-Agrees, find_domain_by_id-Agrees, first_cert-unstarted,
}
use acme_dns_rust.Api.Metrics.{Bytes, bytes_eq}
use acme_dns_rust.Dns.Records.{Name, RecordType, type_eq, TrustDns}
use acme_dns_rust.Dns.Authority.{
  Lookup, Query, Authority, first, acme_challenge_label, acme_challenge, lookup_domain,
  lookup_database, lookup_pre, lookup_name, search_records,
}

-- The name of a stored certificate's domain is a text.
first-IsText :
    (order : Order) (view : View) (m : Memory) (c : Cert)
    → IsConsistent m
    → Sim view m
    → first_cert order m ≡ some c
    → IsText c.domain
first-IsText order view m c h sim e = elim (IsConsistent-cases m h) [
  | inl shape ↦
      let gone =
        sym (first_cert-unstarted order m.domains) ∙ ap (first_cert order) (sym shape) ∙ e in
      absurd (let clash = gone in cc)
  | inr (x, shape) ↦
      let own = sym (first_cert-single order x m.domains) ∙ ap (first_cert order) (sym shape) ∙ e in
      let same : x ≡ c = cc in
      subst (λ y. IsText y.domain) same ((subst (Sim view) shape sim).width x.id x (get_own x)).1.1
]

pair_eq : {A S : Type 0} (r : A × S) (a : A) → r.0 ≡ a → r ≡ (a, r.1)
pair_eq r a e = λ i. (e i, r.1)

module _ {Db RecordSet : Type 0} (pg : Postgres Db) (tables : Tables pg) (order : Order)
    (dns : TrustDns RecordSet) (authority : Authority RecordSet) where
  acme_challenge-none :
      (name : Name) (db db' : Db) (m : Memory)
      → first_in_db pg db ≡ (ok none, db')
      → first_cert order m ≡ none
      → Sim (tables.view db') m
      → Agrees pg tables
          (acme_challenge dns authority (postgres_facade pg) name db)
          (acme_challenge dns authority (memory_facade order) name m)
  unfolding acme_challenge postgres_facade memory_facade
  acme_challenge-none name db db' m asked none_there sim = rw (asked, none_there) (refl, sim)

  acme_challenge-some :
      (name : Name) (c : Cert) (db db' db'' : Db) (m : Memory)
      → first_in_db pg db ≡ (ok (some c), db')
      → find_in_db pg c.domain db' ≡ (ok (get c.domain m.domains), db'')
      → first_cert order m ≡ some c
      → Sim (tables.view db'') m
      → Agrees pg tables
          (acme_challenge dns authority (postgres_facade pg) name db)
          (acme_challenge dns authority (memory_facade order) name m)
  unfolding acme_challenge postgres_facade memory_facade find_domain_by_id
  acme_challenge-some name c db db' db'' m asked looked there sim =
      rw (asked, there)
        (elim (Option-cases (get c.domain m.domains)) [
          | inl missing ↦ rw (looked, missing) (refl, sim)
          | inr (d, found) ↦ rw (looked, found) (refl, sim)
        ])

  acme_challenge-Agrees :
      (name : Name) (db : Db) (m : Memory)
      → IsConsistent m
      → Sim (tables.view db) m
      → Agrees pg tables
          (acme_challenge dns authority (postgres_facade pg) name db)
          (acme_challenge dns authority (memory_facade order) name m)
  unfolding find_domain_by_id
  acme_challenge-Agrees name db m h sim =
      let (same, sim') = first_cert-Agrees pg tables order db m h sim in
      let db' = (first_in_db pg db).1 in
      elim (Option-cases (first_cert order m)) [
        | inl none_there ↦
            acme_challenge-none name db db' m
              (pair_eq (first_in_db pg db) (ok none) (same ∙ ap ok none_there)) none_there sim'
        | inr (c, there) ↦
            let text = first-IsText order (tables.view db') m c h sim' there in
            let (same', sim'') = find_domain_by_id-Agrees pg tables c.domain db' m text sim' in
            acme_challenge-some name c db db' (find_in_db pg c.domain db').1 m
              (pair_eq (first_in_db pg db) (ok (some c)) (same ∙ ap ok there))
              (pair_eq (find_in_db pg c.domain db') (ok (get c.domain m.domains)) same') there sim''
      ]

  -- The label is no text, or one that the database can hold.
  abbrev pub HasText : Bytes → Type 0
  HasText label = (id : String) → authority.from_utf8 label ≡ some id → IsText id

  lookup_domain-Agrees :
      (name : Name) (label : Bytes) (db : Db) (m : Memory)
      → HasText label
      → Sim (tables.view db) m
      → Agrees pg tables
          (lookup_domain dns authority (postgres_facade pg) name label db)
          (lookup_domain dns authority (memory_facade order) name label m)
  unfolding lookup_domain postgres_facade memory_facade find_domain_by_id
  lookup_domain-Agrees name label db m texts sim = elim (Option-cases (authority.from_utf8 label)) [
    | inl no_text ↦ rw (no_text, lookup_domain) (refl, sim)
    | inr (id, text) ↦
        let (same, sim') = find_domain_by_id-Agrees pg tables id db m (texts id text) sim in
        rw (text, lookup_domain, pair_eq (find_in_db pg id db) (ok (get id m.domains)) same)
          (refl, sim')
  ]

  lookup_database-Agrees :
      (name : Name) (label : Bytes) (db : Db) (m : Memory)
      → IsConsistent m
      → HasText label
      → Sim (tables.view db) m
      → Agrees pg tables
          (lookup_database dns authority (postgres_facade pg) name label db)
          (lookup_database dns authority (memory_facade order) name label m)
  unfolding lookup_database
  lookup_database-Agrees name label db m h texts sim =
      elim (Bool-cases (bytes_eq label acme_challenge_label)) [
        | inl challenge ↦
            let (same, sim') = acme_challenge-Agrees name db m h sim in
            rw challenge (ap (map_err as_anyhow) same, sim')
        | inr other ↦ rw other (lookup_domain-Agrees name label db m texts sim)
      ]

  lookup_name-Agrees :
      (name : Name) (type : RecordType) (label : Bytes) (db : Db) (m : Memory)
      → IsConsistent m
      → HasText label
      → Sim (tables.view db) m
      → Agrees pg tables
          (lookup_name dns authority (postgres_facade pg) name type label db)
          (lookup_name dns authority (memory_facade order) name type label m)
  unfolding lookup_name
  lookup_name-Agrees name type label db m h texts sim =
      by_answer (lookup_pre dns authority name type) refl
    where
      by_answer :
          (pre : Outcome (Option (Lookup RecordSet)))
          → lookup_pre dns authority name type ≡ pre
          → Agrees pg tables
              (lookup_name dns authority (postgres_facade pg) name type label db)
              (lookup_name dns authority (memory_facade order) name type label m)
      by_answer (ok (some pre)) e = rw (e, lookup_name) (refl, sim)
      by_answer (ok none) e =
          rw (e, lookup_name) (lookup_database-Agrees name label db m h texts sim)
      by_answer (err cause) e =
          rw (e, lookup_name) (lookup_database-Agrees name label db m h texts sim)
      by_answer panic e = rw (e, lookup_name) (refl, sim)

  -- A query to the name server has on Postgres the same answer as in memory, and leaves the same rows,
  -- if the store is consistent and the first label, if it is text, is one that the database can hold.
  pub search_records-Agrees :
      (query : Query) (db : Db) (m : Memory)
      → IsConsistent m
      → ((label : Bytes) → first query.name.labels ≡ some label → HasText label)
      → Sim (tables.view db) m
      → Agrees pg tables
          (search_records dns authority (postgres_facade pg) query db)
          (search_records dns authority (memory_facade order) query m)
  unfolding search_records
  search_records-Agrees query db m h texts sim =
      elim (Bool-cases (type_eq query.query_type RecordType.soa)) [
        | inl asks_soa ↦ rw asks_soa (refl, sim)
        | inr other ↦ elim (Option-cases (first query.name.labels)) [
          | inl unlabelled ↦ rw (other, unlabelled) (refl, sim)
          | inr (label, labelled) ↦ elim (Bool-cases (dns.name_is_empty query.name)) [
            | inl is_empty ↦ rw (other, labelled, is_empty) (refl, sim)
            | inr named ↦
                rw (other, labelled, named)
                  (lookup_name-Agrees query.name query.query_type label db m h
                    (texts label labelled) sim)
          ]
        ]
      ]
