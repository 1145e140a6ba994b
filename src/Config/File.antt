-- ===== src/Config/File.antt =====
-- src/config/mod.rs: the configuration as a whole. The derived deserializers look the fields of a
-- table up, and give one of the errors if there are several; here it is that of the first field.
pub mod Loaded
mod Tests
use acme_dns_rust.Base.{Option, none, some, List, [], if◌then◌else◌, String, str_eq}
use acme_dns_rust.Base.Outcome.{Outcome, ok, err, panic, Error, ◌>>=◌}
use acme_dns_rust.Api.Metrics.{Bytes}
use acme_dns_rust.Dns.Records.{TrustDns, IpAddr, Preconfigured}
use acme_dns_rust.Config.Value.{Value, table, Values, Entries, end, entry}
use acme_dns_rust.Config.Listener.{Listener, default_proxy, deserialize_string}
use acme_dns_rust.Config.Listener.{deserialize as deserialize_listener}
use acme_dns_rust.Config.Records.{Parsers, deserialize as deserialize_records}
use acme_dns_rust.Config.Resolver.{NameServers, deserialize as deserialize_resolver}

pub record Api : Type 0 where
  pub http : Listener
  pub https : Listener
  pub prom : Listener

pub record General : Type 0 where
  pub test : Option NameServers
  pub dns : String
  pub db : String
  pub acme : String
  pub name : String

pub record Config (RecordSet : Type 0) : Type 0 where
  pub general : General
  pub api : Api
  pub records : Preconfigured RecordSet

abbrev pub default_acme : String
default_acme = "https://acme-v02.api.letsencrypt.org/directory"

abbrev pub default_config_path : String
default_config_path = "config.toml"

-- The value of a field. The names in a table are distinct.
unfoldable pub field : String → Entries → Option Value
field name end = none
field name (entry key v rest) = if str_eq key name then some v else field name rest

abbrev pub required : {A : Type 0} → (Value → Outcome A) → Option Value → Outcome A
required deserialize none = err (Error.message "missing field")
required deserialize (some v) = deserialize v

-- `#[serde(default)]`
abbrev pub defaulted : {A : Type 0} → A → (Value → Outcome A) → Option Value → Outcome A
defaulted a deserialize none = ok a
defaulted a deserialize (some v) = deserialize v

abbrev pub with_table : {A : Type 0} → (Entries → Outcome A) → Value → Outcome A
with_table deserialize (table entries) = deserialize entries
with_table deserialize _ = err (Error.message "invalid type")

-- What is outside: how serde ends a sequence, and the parsers.
pub record Serde : Type 0 where
  pub end_of_seq : Values → Outcome (Unit {0})
  pub parse_ip_addr : String → Option IpAddr
  pub parsers : Parsers

module _ {RecordSet : Type 0} (dns : TrustDns RecordSet) (serde : Serde) where
  abbrev pub listener_field : String → Entries → Outcome Listener
  listener_field name entries =
      defaulted (none, default_proxy) (deserialize_listener serde.end_of_seq) (field name entries)

  unfoldable pub deserialize_api : Entries → Outcome Api
  unfolding field
  deserialize_api entries = do
    http ← listener_field "http" entries
    https ← listener_field "https" entries
    prom ← listener_field "prom" entries
    ok (record { http = http; https = https; prom = prom })

  unfoldable pub deserialize_general : Entries → Outcome General
  unfolding field
  deserialize_general entries = do
    test ← deserialize_resolver serde.parse_ip_addr (field "test" entries)
    dns_addr ← required deserialize_string (field "dns" entries)
    db ← required deserialize_string (field "db" entries)
    acme ← defaulted default_acme deserialize_string (field "acme" entries)
    name ← required deserialize_string (field "name" entries)
    ok (record { test = test; dns = dns_addr; db = db; acme = acme; name = name })

  unfoldable pub deserialize_config : Entries → Outcome (Config RecordSet)
  unfolding field deserialize_general deserialize_api
  deserialize_config entries = do
    general ← required (with_table deserialize_general) (field "general" entries)
    api ← required (with_table deserialize_api) (field "api" entries)
    records ← defaulted [] (deserialize_records dns serde.parsers) (field "records" entries)
    ok (record { general = general; api = api; records = records })

  abbrev pub path_or_default : Option String → String
  path_or_default none = default_config_path
  path_or_default (some path) = path

  -- `load_config`, with the file system and the parser of TOML.
  unfoldable pub load_config :
      (String → Outcome Bytes)
      → (Bytes → Outcome Value)
      → Option String
      → Outcome (Config RecordSet)
  unfolding deserialize_config
  load_config read parse config_path = do
    file ← read (path_or_default config_path)
    value ← parse file
    with_table deserialize_config value
