-- ===== src/Dns/Authority/Object.antt =====
-- The authority as the catalogue of trust-dns sees it.
use acme_dns_rust.Base.{Bool, false, Option, List, String}
use acme_dns_rust.Base.Outcome.{Outcome, ok, panic}
use acme_dns_rust.Facade.{Facade}
use acme_dns_rust.Api.Metrics.{Bytes}
use acme_dns_rust.Dns.Records.{Name, RecordType, TrustDns, Preconfigured, IpAddr}
use acme_dns_rust.Dns.Authority.{Lookup, empty, Query, Authority, soa, search_records}

pub data ZoneType : Type 0 where
  primary : ZoneType

-- The trait `AuthorityObject`, over the store of the facade. The flag for secure answers and the
-- algorithms, which the source does not look at, are left out.
pub record AuthorityObject (RecordSet S : Type 0) : Type 0 where
  pub zone_type : ZoneType
  pub is_axfr_allowed : Bool
  pub update : S → Outcome Bool × S
  pub origin : Name
  pub lookup : Name → RecordType → S → Outcome (Lookup RecordSet) × S
  pub search : Query → S → Outcome (Lookup RecordSet) × S
  pub get_nsec_records : Name → S → Outcome (Lookup RecordSet) × S
  pub soa : S → Outcome (Lookup RecordSet) × S
  pub soa_secure : S → Outcome (Lookup RecordSet) × S

module _ {RecordSet : Type 0} (dns : TrustDns RecordSet) where
  unfoldable pub database_authority :
      {S : Type 0} → Authority RecordSet → Facade S → AuthorityObject RecordSet S
  database_authority authority facade = record {
    zone_type = primary;
    is_axfr_allowed = false;
    update = λ s. (ok false, s);
    origin = authority.origin;
    lookup = λ name type s. (ok empty, s);
    search = search_records dns authority facade;
    get_nsec_records = λ name s. (ok empty, s);
    soa = λ s. (soa dns authority, s);
    soa_secure = λ s. (soa dns authority, s);
  }

-- `DatabaseAuthority::new`, with the parser of names, `LowerName::from`, the system's resolver and the test for
-- UTF-8.
unfoldable pub new :
    {RecordSet : Type 0}
    → (String → Outcome Name)
    → (Name → Name)
    → (String → Outcome (List IpAddr))
    → (Bytes → Option String)
    → String
    → Preconfigured RecordSet
    → Outcome (Authority RecordSet)
new parse_name lower_name lookup_host from_utf8 name records = elim (parse_name name) [
  | ok parsed ↦ ok (record {
    origin = lower_name parsed;
    records = records;
    lookup_host = lookup_host;
    from_utf8 = from_utf8;
  })
  | _ ↦ panic
]
