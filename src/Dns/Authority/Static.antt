-- ===== src/Dns/Authority/Static.antt =====
-- The configured records: what `lookup_pre` answers, and that it goes before the database.
use acme_dns_rust.Base.{
  ◌≡◌, refl, ap, ◌∙◌, ◌≢◌, inl, inr, true, false, Option, none, some, arith, ==_iff, Bool-cases,
  Option-cases,
}
use acme_dns_rust.Base.Map.{Map}
use acme_dns_rust.Base.Outcome.{ok, ◌>>=◌, bind_inversion}
use acme_dns_rust.Facade.{Facade}
use acme_dns_rust.Api.Metrics.{Bytes}
use acme_dns_rust.Dns.Records.{Name, RecordType, type_eq, TrustDns, get_by}
use acme_dns_rust.Dns.Authority.{
  Lookup, records, Query, Authority, first, found, choose, lookup_cname, lookup_pre, lookup_name,
  search_records,
}

pub type_eq_sound : (s t : RecordType) → type_eq s t ≡ true → s ≡ t
type_eq_sound RecordType.a RecordType.a h = refl
type_eq_sound RecordType.txt RecordType.txt h = refl
type_eq_sound RecordType.cname RecordType.cname h = refl
type_eq_sound RecordType.soa RecordType.soa h = refl
type_eq_sound (RecordType.unnamed n) (RecordType.unnamed m) h =
    ap RecordType.unnamed ((==_iff n m).0 h)
type_eq_sound _ _ h = cc

module _ {RecordSet : Type 0} (dns : TrustDns RecordSet) (authority : Authority RecordSet) where
  -- Where an answer of `lookup_pre` comes from: the set that is configured for the name and the
  -- type, or, for a query of type A that has none, the addresses of the configured alias.
  pub data Configured (name : Name) (query_type : RecordType) (answer : Lookup RecordSet)
      : Type 0 where
    exact :
        (sets : Map RecordType RecordSet) (set : RecordSet)
        → get_by dns.name_eq name authority.records ≡ some sets
        → get_by type_eq query_type sets ≡ some set
        → answer ≡ records set
        → Configured name query_type answer
    alias :
        (sets : Map RecordType RecordSet) (set addresses : RecordSet)
        → get_by dns.name_eq name authority.records ≡ some sets
        → query_type ≡ RecordType.a
        → get_by type_eq query_type sets ≡ none
        → get_by type_eq RecordType.cname sets ≡ some set
        → lookup_cname dns authority set ≡ ok (some addresses)
        → answer ≡ records addresses
        → Configured name query_type answer

  found_inversion :
      (r : Option RecordSet) (answer : Lookup RecordSet)
      → ok (found dns authority r) ≡ ok (some answer)
      → (addresses : RecordSet) × (r ≡ some addresses) × (answer ≡ records addresses)
  found_inversion none answer e = cc
  found_inversion (some set) answer e = (set, refl, cc)

  alias_answer :
      (set : RecordSet) (answer : Lookup RecordSet)
      → (lookup_cname dns authority set >>= λ r. ok (found dns authority r)) ≡ ok (some answer)
      → (addresses : RecordSet) × (lookup_cname dns authority set ≡ ok (some addresses))
        × (answer ≡ records addresses)
  alias_answer set answer e =
      let (r, looked_up, e') = bind_inversion (lookup_cname dns authority set) _ e in
      let (addresses, same, is) = found_inversion r answer e' in
      (addresses, looked_up ∙ ap ok same, is)

  choose_sound :
      (name : Name) (query_type : RecordType) (answer : Lookup RecordSet)
      (sets : Map RecordType RecordSet) (mine aliases : Option RecordSet)
      → get_by dns.name_eq name authority.records ≡ some sets
      → get_by type_eq query_type sets ≡ mine
      → get_by type_eq RecordType.cname sets ≡ aliases
      → choose dns authority query_type mine aliases ≡ ok (some answer)
      → Configured name query_type answer
  choose_sound name t answer sets (some set) aliases h m c e = exact sets set h m cc
  choose_sound name t answer sets none none h m c e = cc
  choose_sound name t answer sets none (some set) h m c e =
      elim (Bool-cases (type_eq t RecordType.a)) [
        | inl address ↦
            let (addresses, looked_up, is) = alias_answer set answer (rw address at e) in
            alias sets set addresses h (type_eq_sound t RecordType.a address) m c looked_up is
        | inr other ↦ let e' = rw other at e in cc
      ]

  -- Every answer from the configured records is the set that is configured for the queried name
  -- and type, or, for a query of type A without one, the addresses that the name's alias resolves
  -- to.
  pub lookup_pre-Configured :
      (name : Name) (query_type : RecordType) (answer : Lookup RecordSet)
      → lookup_pre dns authority name query_type ≡ ok (some answer)
      → Configured name query_type answer
  unfolding lookup_pre
  lookup_pre-Configured name t answer e =
      elim (Option-cases (get_by dns.name_eq name authority.records)) [
        | inl missing ↦ let e' = rw (missing, lookup_pre) at e in cc
        | inr (sets, h) ↦ choose_sound name t answer sets _ _ h refl refl (rw (h, lookup_pre) at e)
      ]

  module _ {S : Type 0} (facade : Facade S) where
    -- A query of a type other than SOA, for a name that is not empty, that the configured records
    -- answer gets that answer, and the database is not asked.
    pub search_records-static :
        (query : Query) (label : Bytes) (answer : Lookup RecordSet) (s : S)
        → query.query_type ≢ RecordType.soa
        → first query.name.labels ≡ some label
        → dns.name_is_empty query.name ≡ false
        → lookup_pre dns authority query.name query.query_type ≡ ok (some answer)
        → search_records dns authority facade query s ≡ (ok answer, s)
    unfolding search_records lookup_name
    search_records-static query label answer s t l n pre =
        ground (arith, type_eq_sound query.query_type RecordType.soa)
