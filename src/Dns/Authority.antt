-- ===== src/Dns/Authority.antt =====
-- src/dns/authority.rs: the answer to a query, from the configured records and the database.
pub mod Static
pub mod Answers
pub mod Object
pub mod Postgres
mod Tests
use Prim.Native.String.{◌++◌ as append_text}
use acme_dns_rust.Base.{
  ℕ, Bool, true, false, ◌&&◌, Option, none, some, List, [], ◌∷◌, if◌then◌else◌, String,
}
use acme_dns_rust.Base.Outcome.{Outcome, ok, err, panic, Error, ErrorKind, ◌>>=◌}
use acme_dns_rust.Util.Errors.{map_err, as_boxed, Input, error, boxed, io_error, as_anyhow}
use acme_dns_rust.Facade.{Cert, Domain, Facade}
use acme_dns_rust.Api.Metrics.{Bytes, bytes_eq}
use acme_dns_rust.Dns.Records.{
  Name, RecordType, type_eq, IpAddr, v4, v6, RecordData, Record, TrustDns, Preconfigured, get_by,
}

-- `LookupRecords`
pub data Lookup (RecordSet : Type 0) : Type 0 where
  empty : Lookup RecordSet
  records : RecordSet → Lookup RecordSet

pub record Query : Type 0 where
  pub name : Name
  pub query_type : RecordType

-- b"_acme-challenge"
abbrev pub acme_challenge_label : Bytes
acme_challenge_label =
    95 ∷ 97 ∷ 99 ∷ 109 ∷ 101 ∷ 45 ∷ 99 ∷ 104 ∷ 97 ∷ 108 ∷ 108 ∷ 101 ∷ 110 ∷ 103 ∷ 101 ∷ []

abbrev pub first : {A : Type 0} → List A → Option A
first [] = none
first (x ∷ l) = some x

-- What the authority holds, and what it uses from outside: the system's resolver and the test for
-- UTF-8.
pub record Authority (RecordSet : Type 0) : Type 0 where
  pub origin : Name
  pub records : Preconfigured RecordSet
  pub lookup_host : String → Outcome (List IpAddr)
  pub from_utf8 : Bytes → Option String

-- Go on after a call of the facade, or stop with its error.
abbrev pub after : {S A B : Type 0} → Outcome A × S → (A → S → Outcome B × S) → Outcome B × S
after (ok a, s) k = k a s
after (err e, s) k = (err e, s)
after (panic, s) k = (panic, s)

module _ {RecordSet : Type 0} (dns : TrustDns RecordSet) (authority : Authority RecordSet) where
  -- The loop over the hosts of `lookup_cname`: addresses that are no IPv4 are passed over.
  unfoldable pub add_hosts : List IpAddr → RecordSet → RecordSet
  add_hosts [] set = set
  add_hosts (v4 ip ∷ hosts) set = add_hosts hosts (dns.add_rdata (RecordData.a ip) set).0
  add_hosts (v6 ip ∷ hosts) set = add_hosts hosts set

  abbrev pub resolved : RecordSet → Option RecordSet
  resolved set = if dns.is_empty set then none else some set

  abbrev pub resolve : Name → Option RecordData → Outcome (Option RecordSet)
  resolve name (some (RecordData.cname target)) = do
    hosts ← authority.lookup_host (append_text (dns.show_name target) ":80")
    ok (resolved (add_hosts hosts (dns.with_ttl name RecordType.a 0)))
  resolve name _ = ok none

  abbrev pub rdata_of : Option Record → Option RecordData
  rdata_of none = none
  rdata_of (some r) = some r.rdata

  unfoldable pub lookup_cname : RecordSet → Outcome (Option RecordSet)
  unfolding add_hosts
  lookup_cname set = resolve (dns.set_name set) (rdata_of (first (dns.records set)))

  abbrev pub found : Option RecordSet → Option (Lookup RecordSet)
  found none = none
  found (some set) = some (records set)

  -- The match of `lookup_pre` on the records of the queried type and on those of type CNAME.
  abbrev pub choose :
      RecordType → Option RecordSet → Option RecordSet → Outcome (Option (Lookup RecordSet))
  choose query_type (some set) _ = ok (some (records set))
  choose query_type none (some set) =
      if type_eq query_type RecordType.a
      then (lookup_cname set >>= λ answer. ok (found answer))
      else ok none
  choose query_type none none = ok none

  unfoldable pub lookup_pre : Name → RecordType → Outcome (Option (Lookup RecordSet))
  lookup_pre name query_type = elim (get_by dns.name_eq name authority.records) [
    | none ↦ ok none
    | some sets ↦
        choose query_type (get_by type_eq query_type sets) (get_by type_eq RecordType.cname sets)
  ]

  abbrev pub txt_record : Name → String → Lookup RecordSet
  txt_record name txt =
      records
        (dns.from_record (record { name = name; ttl = 100; rdata = RecordData.txt (txt ∷ []) }))

  -- `domain.txt.unwrap()`
  abbrev pub challenge_record : Name → Option String → Outcome (Lookup RecordSet)
  challenge_record name none = panic
  challenge_record name (some txt) = ok (txt_record name txt)

  unfoldable pub soa : Outcome (Lookup RecordSet)
  soa =
      let data' = RecordData.soa authority.origin authority.origin 1 28800 7200 604800 86400 in
      ok (records (dns.from_record (record { name = authority.origin; ttl = 100; rdata = data' })))

  module _ {S : Type 0} (facade : Facade S) where
    unfoldable pub acme_challenge : Name → S → Outcome (Lookup RecordSet) × S
    acme_challenge name s = after (facade.first_cert s) λ cert s'. elim cert [
      | none ↦ (err (Error.message "First cert not found"), s')
      | some c ↦ after (facade.find_domain_by_id c.domain s') λ domain s''. elim domain [
        | none ↦ (err (Error.message "Domain not found"), s'')
        | some d ↦ (challenge_record name d.txt, s'')
      ]
    ]

    -- The answer from the text of the domain that the first label names.
    abbrev pub domain_record : Name → Option Domain → Outcome (Lookup RecordSet)
    domain_record name none = err (error Error.io (io_error ErrorKind.not_found "entity not found"))
    domain_record name (some d) = elim d.txt [
      | none ↦ ok empty
      | some txt ↦ ok (txt_record name txt)
    ]

    unfoldable pub lookup_domain : Name → Bytes → S → Outcome (Lookup RecordSet) × S
    lookup_domain name label s = elim (authority.from_utf8 label) [
      | none ↦ (err (error Error.io (boxed "invalid utf-8")), s)
      | some id ↦
          let (answer, s') = facade.find_domain_by_id id s in
          elim answer [
            | ok domain ↦ (domain_record name domain, s')
            | err e ↦ (err (error Error.io (as_boxed e)), s')
            | panic ↦ (panic, s')
          ]
    ]

    -- The database is asked when the configured records have no answer, or fail.
    unfoldable pub lookup_database : Name → Bytes → S → Outcome (Lookup RecordSet) × S
    lookup_database name label s =
        if bytes_eq label acme_challenge_label
        then (let (answer, s') = acme_challenge name s in (map_err as_anyhow answer, s'))
        else lookup_domain name label s

    unfoldable pub lookup_name : Name → RecordType → Bytes → S → Outcome (Lookup RecordSet) × S
    lookup_name name query_type label s = elim (lookup_pre name query_type) [
      | ok (some pre) ↦ (ok pre, s)
      | ok none ↦ lookup_database name label s
      | err e ↦ lookup_database name label s
      | panic ↦ (panic, s)
    ]

    -- `AuthorityObject::search`
    unfoldable pub search_records : Query → S → Outcome (Lookup RecordSet) × S
    search_records query s =
        if type_eq query.query_type RecordType.soa
        then (soa, s)
        else (elim (first query.name.labels) [
          | none ↦ (ok empty, s)
          | some label ↦
              if dns.name_is_empty query.name
              then (ok empty, s)
              else lookup_name query.name query.query_type label s
        ])
