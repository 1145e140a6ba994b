-- ===== src/Config/File/Tests.antt =====
-- A file with one listener, and nothing else that may be left out.
use acme_dns_rust.Base.{◌≡◌, refl, true, none, some, List, [], ◌∷◌, String}
use acme_dns_rust.Base.Outcome.{Outcome, ok}
use acme_dns_rust.Api.Metrics.{Bytes}
use acme_dns_rust.Dns.Records.{Name, Record, TrustDns}
use acme_dns_rust.Config.Value.{Value, string, boolean, seq, table, nil, cons, end, entry}
use acme_dns_rust.Config.Listener.{
  enabled, disabled, visit_seq, next_proxy, deserialize_proxy, visit_str,
}
use acme_dns_rust.Config.Listener.{deserialize as deserialize_listener}
use acme_dns_rust.Config.Resolver.{deserialize as deserialize_resolver}
use acme_dns_rust.Config.File.{
  Config, Serde, default_acme, field, deserialize_api, deserialize_general, deserialize_config,
  load_config,
}
use acme_dns_rust.Config.File.Loaded.{IsLoaded, load_config-IsLoaded}

abbrev name : Name
name = record { labels = []; fqdn = true }

abbrev lists : TrustDns (List Record)
lists = record {
  name_is_empty = λ name. true;
  name_eq = λ m n. true;
  show_name = λ name. "host";
  with_ttl = λ name type ttl. [];
  add_rdata = λ r set. (set, true);
  is_empty = λ set. true;
  set_name = λ set. name;
  records = λ set. set;
  from_record = λ r. r ∷ [];
}

abbrev serde : Serde
serde = record {
  end_of_seq = λ vs. ok tt;
  parse_ip_addr = λ s. none;
  parsers = record { parse_name = λ s. ok name; parse_ip = λ s. ok [] };
}

abbrev file : Value
file = table (
    entry "general"
      (table (
        entry "dns" (string "0.0.0.0:53")
          (entry "db" (string "postgres://") (entry "name" (string "acme.example.com") end))))
      (entry "api"
        (table (entry "https" (seq (cons (string "0.0.0.0:443") (cons (boolean true) nil))) end))
        end))

abbrev config : Config (List Record)
config = record {
  general = record {
    test = none;
    dns = "0.0.0.0:53";
    db = "postgres://";
    acme = default_acme;
    name = "acme.example.com";
  };
  api = record {
    http = (none, disabled);
    https = (some "0.0.0.0:443", enabled);
    prom = (none, disabled);
  };
  records = [];
}

abbrev read : String → Outcome Bytes
read path = ok []

abbrev parse : Bytes → Outcome Value
parse bytes = ok file

loaded : load_config lists serde read parse none ≡ ok config
unfolding load_config deserialize_config deserialize_general deserialize_api field
    deserialize_listener visit_seq next_proxy deserialize_proxy visit_str deserialize_resolver
loaded = refl

load_config-IsLoaded_example : IsLoaded lists serde config
load_config-IsLoaded_example = load_config-IsLoaded lists serde read parse none config loaded
