-- ===== src/Api/Tls/Concurrent/Tests.antt =====
-- Two connections, of which the first is overtaken by the second while it builds.
use acme_dns_rust.Base.{◌≡◌, refl, some, List, [], ◌∷◌, String}
use acme_dns_rust.Base.Int.{pos}
use acme_dns_rust.Base.Outcome.{ok}
use acme_dns_rust.Facade.{State, Cert}
use acme_dns_rust.Api.Tls.{Rustls, create_server_config, build_config}
use acme_dns_rust.Api.Tls.Concurrent.{served, advance, System, ask, go_on, Reachable, initial, next}
use acme_dns_rust.Api.Tls.Concurrent.Served.{Allowed, Reachable-Allowed}

abbrev rustls : Rustls String String (List String)
rustls = record {
  rsa_private_keys = λ text. some (text ∷ []);
  certs = λ text. some text;
  new = [];
  set_single_cert = λ chain key config. ok (chain ∷ key ∷ config);
  set_protocols = λ protocols config. config;
}

abbrev stored : String → Cert
stored key = record {
  id = "1";
  update = pos 0;
  state = State.ok;
  cert = some "chain";
  private = some key;
  domain = "d";
}

abbrev Any : Cert → Type 0
Any c = Unit

abbrev raced :
    (s : System (List String)) × Reachable rustls Any s
    × (s.places 0 ≡ served (ok (some (stored "old"))) (ok ("chain" ∷ "old" ∷ [])))
unfolding advance create_server_config build_config
raced = (
  _,
  next
      (next
        (next
          (next
            (next
              (next (next (next initial (ask 0 (ok (some (stored "old"))) refl tt)) (go_on 0))
                (ask 1 (ok (some (stored "new"))) refl tt))
              (go_on 1))
            (go_on 1))
          (go_on 1))
        (go_on 0))
      (go_on 0),
  refl,
)

Reachable-Allowed_example :
    Allowed rustls Any (ok (some (stored "old"))) (ok ("chain" ∷ "old" ∷ []))
Reachable-Allowed_example =
    Reachable-Allowed rustls Any raced.0 0 (ok (some (stored "old"))) (ok ("chain" ∷ "old" ∷ []))
      raced.1 raced.2
