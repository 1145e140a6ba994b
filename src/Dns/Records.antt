-- ===== src/Dns/Records.antt =====
-- What the name server uses of the crate trust-dns: names, record types, record data and sets of
-- records. A set of records and the operations on it are a parameter.
use acme_dns_rust.Base.{
  ℕ, Bool, true, false, Option, none, some, List, [], ◌∷◌, ◌==◌, if◌then◌else◌, String,
}
use acme_dns_rust.Base.Map.{Map}
use acme_dns_rust.Api.Metrics.{Bytes}

-- A name is its labels; `fqdn` is the mark of a fully qualified one.
pub record Name : Type 0 where
  pub labels : List Bytes
  pub fqdn : Bool

-- The record types that the source names, and all others by their number.
pub data RecordType : Type 0 where
  a txt cname soa : RecordType
  unnamed : ℕ → RecordType

abbrev pub type_eq : RecordType → RecordType → Bool
type_eq a a = true
type_eq txt txt = true
type_eq cname cname = true
type_eq soa soa = true
type_eq (unnamed n) (unnamed m) = n == m
type_eq _ _ = false

pub data IpAddr : Type 0 where
  v4 v6 : Bytes → IpAddr

pub data RecordData : Type 0 where
  a : Bytes → RecordData
  txt : List String → RecordData
  cname : Name → RecordData
  soa : (mname rname : Name) (serial refresh retry expire minimum : ℕ) → RecordData
  other : RecordType → RecordData

pub record Record : Type 0 where
  pub name : Name
  pub ttl : ℕ
  pub rdata : RecordData

-- The crate's names and record sets: `is_empty` and `==` of a name, its text, and of a set
-- `with_ttl`, `add_rdata` with its answer, `is_empty`, `name`, `records_without_rrsigs` and
-- `From<Record>`.
pub record TrustDns (RecordSet : Type 0) : Type 0 where
  pub name_is_empty : Name → Bool
  pub name_eq : Name → Name → Bool
  pub show_name : Name → String
  pub with_ttl : Name → RecordType → ℕ → RecordSet
  pub add_rdata : RecordData → RecordSet → RecordSet × Bool
  pub is_empty : RecordSet → Bool
  pub set_name : RecordSet → Name
  pub records : RecordSet → List Record
  pub from_record : Record → RecordSet

-- `PreconfiguredRecords`
abbrev pub Preconfigured : Type 0 → Type 0
Preconfigured RecordSet = Map Name (Map RecordType RecordSet)

-- A lookup by a test that need not be equality, as that of names is not.
abbrev pub get_by : {K V : Type 0} → (K → K → Bool) → K → Map K V → Option V
get_by eq k [] = none
get_by eq k ((j, v) ∷ m) = if eq j k then some v else get_by eq k m
