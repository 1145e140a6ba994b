-- ===== src/Api/Tls/Tests.antt =====
-- The TLS cache over a small stand-in for rustls, and its theorems there.
use acme_dns_rust.Base.{Option, none, some, List, [], ◌∷◌, if◌then◌else◌, String, str_eq}
use acme_dns_rust.Base.Int.{pos}
use acme_dns_rust.Base.Outcome.{Outcome, ok, err, Error}
use acme_dns_rust.Facade.{State, Cert}
use acme_dns_rust.Api.Tls.{Rustls}

-- A configuration is the list of what was put into it; a key is accepted unless its text is "bad".
abbrev rustls : Rustls String String (List String)
rustls = record {
  rsa_private_keys = λ text. if str_eq text "bad" then some [] else some (text ∷ []);
  certs = λ text. some text;
  new = [];
  set_single_cert = λ chain key config. ok (chain ∷ key ∷ config);
  set_protocols = λ protocols config. config;
}

abbrev stored : String → Cert
stored key = record {
  id = "1";
  update = pos 0;
  state = State.ok;
  cert = some "chain";
  private = some key;
  domain = "d";
}

abbrev answers : List (Outcome (Option Cert))
answers =
    ok none ∷ ok (some (stored "key")) ∷ ok (some (stored "bad")) ∷ err (Error.sqlx "down") ∷ []
