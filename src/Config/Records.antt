-- ===== src/Config/Records.antt =====
-- src/config/records.rs: the configured records of the name server.
pub mod Built
pub mod Last
mod Tests
use acme_dns_rust.Base.{
  ℕ, ◌^◌, ltb, Bool, true, false, List, [], ◌∷◌, if◌then◌else◌, String, str_eq,
}
use acme_dns_rust.Base.Int.{pos}
use acme_dns_rust.Base.Map.{Map}
use acme_dns_rust.Base.Outcome.{Outcome, ok, err, Error, ◌>>=◌}
use acme_dns_rust.Api.Metrics.{Bytes}
use acme_dns_rust.Dns.Records.{Name, RecordType, type_eq, RecordData, TrustDns, Preconfigured}
use acme_dns_rust.Config.Value.{
  Value, string, integer, seq, table, Values, nil, cons, Entries, end, entry,
}
use acme_dns_rust.Config.Listener.{deserialize_string}

-- The parsers of names and of IPv4 addresses.
pub record Parsers : Type 0 where
  pub parse_name : String → Outcome Name
  pub parse_ip : String → Outcome Bytes

-- `res.insert(k, v)`, by a test that need not be equality.
unfoldable pub insert_by : {K V : Type 0} → (K → K → Bool) → K → V → Map K V → Map K V
insert_by eq k v [] = (k, v) ∷ []
insert_by eq k v ((j, w) ∷ m) = if eq j k then (j, v) ∷ m else (j, w) ∷ insert_by eq k v m

-- `u32::deserialize`
unfoldable pub deserialize_u32 : Value → Outcome ℕ
deserialize_u32 (integer (pos n)) =
    if ltb n (2 ^ 32) then ok n else err (Error.message "invalid value")
deserialize_u32 _ = err (Error.message "invalid type")

unfoldable pub record_type : String → Outcome RecordType
record_type s =
    if str_eq s "TXT"
    then ok RecordType.txt
    else if str_eq s "A"
    then ok RecordType.a
    else if str_eq s "CNAME"
    then ok RecordType.cname
    else err (Error.message "Could not find RecordType")

module _ {RecordSet : Type 0} (dns : TrustDns RecordSet) (parsers : Parsers) where
  unfoldable pub record_data : RecordType → String → Outcome RecordData
  record_data RecordType.a text = do ip ← parsers.parse_ip text; ok (RecordData.a ip)
  record_data RecordType.txt text = ok (RecordData.txt (text ∷ []))
  record_data RecordType.cname text = do name ← parsers.parse_name text; ok (RecordData.cname name)
  record_data _ text = err (Error.message "Invalid key")

  -- `match record_set.add_rdata(rdata)`
  abbrev pub added : RecordSet × Bool → Outcome RecordSet
  added (set, true) = ok set
  added (set, false) = err (Error.message "Could not insert data")

  -- The loop of `RecordVisitor::visit_seq`.
  unfoldable pub add_all : RecordType → RecordSet → Values → Outcome RecordSet
  unfolding record_data
  add_all type set nil = ok set
  add_all type set (cons v rest) = do
    text ← deserialize_string v
    rdata ← record_data type text
    more ← added (dns.add_rdata rdata set)
    add_all type more rest

  -- `RecordVisitor::visit_seq`
  unfoldable pub visit_seq : Name → RecordType → Values → Outcome RecordSet
  unfolding deserialize_u32 add_all
  visit_seq name type nil = err (Error.message "Could not find TTL")
  visit_seq name type (cons v rest) = do
    ttl ← deserialize_u32 v
    add_all type (dns.with_ttl name type ttl) rest

  -- `RecordSeed::deserialize`
  unfoldable pub deserialize_set : Name → RecordType → Value → Outcome RecordSet
  unfolding visit_seq
  deserialize_set name type (seq vs) = visit_seq name type vs
  deserialize_set name type _ = err (Error.message "invalid type")

  -- The loop of `RecordDataVisitor::visit_map`.
  unfoldable pub visit_types :
      Name → Map RecordType RecordSet → Entries → Outcome (Map RecordType RecordSet)
  unfolding record_type deserialize_set insert_by
  visit_types name res end = ok res
  visit_types name res (entry key v rest) = do
    type ← record_type key
    set ← deserialize_set name type v
    visit_types name (insert_by type_eq type set res) rest

  -- `RecordDataSeed::deserialize`
  unfoldable pub deserialize_sets : Name → Value → Outcome (Map RecordType RecordSet)
  unfolding visit_types
  deserialize_sets name (table entries) = visit_types name [] entries
  deserialize_sets name _ = err (Error.message "invalid type")

  -- The loop of `PreconfiguredRecordsVisitor::visit_map`.
  unfoldable pub visit_names : Preconfigured RecordSet → Entries → Outcome (Preconfigured RecordSet)
  unfolding deserialize_sets insert_by
  visit_names res end = ok res
  visit_names res (entry key v rest) = do
    parsed ← parsers.parse_name key
    sets ← deserialize_sets (record parsed { fqdn = true }) v
    visit_names (insert_by dns.name_eq (record parsed { fqdn = true }) sets res) rest

  -- `records::deserialize`
  unfoldable pub deserialize : Value → Outcome (Preconfigured RecordSet)
  unfolding visit_names
  deserialize (table entries) = visit_names [] entries
  deserialize _ = err (Error.message "invalid type")
