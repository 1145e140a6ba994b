-- ===== src/Api/Tls.antt =====
-- src/api/tls.rs: the TLS configuration that is made from the stored certificate and kept for as
-- long as the certificate stays the same. The crate rustls is a parameter.
pub mod Cache
pub mod Concurrent
mod Tests
use acme_dns_rust.Base.{
  Bool, true, false, not, Option, none, some, List, [], ◌∷◌, if◌then◌else◌, String,
}
use acme_dns_rust.Base.Outcome.{Outcome, ok, err, panic, Error, ◌>>=◌}
use acme_dns_rust.Facade.{Cert, cert_eq, Facade}

-- What the source calls of rustls: the parsers of PEM files, and the configuration of a server.
pub record Rustls (Key Chain Config : Type 0) : Type 0 where
  pub rsa_private_keys : String → Option (List Key)
  pub certs : String → Option Chain
  pub new : Config
  pub set_single_cert : Chain → Key → Config → Outcome Config
  pub set_protocols : List String → Config → Config

-- `v.pop()`: the last element.
abbrev pub pop : {A : Type 0} → List A → Option A
pop [] = none
pop (x ∷ []) = some x
pop (x ∷ y ∷ l) = pop (y ∷ l)

-- `o.ok_or_else(…)`
abbrev pub ok_or : {A : Type 0} → Option A → String → Outcome A
ok_or none text = err (Error.message text)
ok_or (some a) text = ok a

-- `RwLock<(Option<Cert>, Arc<ServerConfig>)>`
pub record Cached (Config : Type 0) : Type 0 where
  pub cert : Option Cert
  pub config : Config

-- `Some(&new_cert) != cert.as_ref()`
abbrev pub is_new : Cert → Option Cert → Bool
is_new new_cert none = true
is_new new_cert (some cert) = not (cert_eq new_cert cert)

module _ {Key Chain Config : Type 0} (rustls : Rustls Key Chain Config) where
  unfoldable pub build_config : String → String → Outcome Config
  build_config private cert = do
    privates ← ok_or (rustls.rsa_private_keys private) "Private is invalid"
    key ← ok_or (pop privates) "Private Vec is empty"
    chain ← ok_or (rustls.certs cert) "Cert is invalid"
    config ← rustls.set_single_cert chain key rustls.new
    ok (rustls.set_protocols ("h2" ∷ "http/1.1" ∷ []) config)

  abbrev build_parts : Option String → Option String → Outcome Config
  build_parts (some private) (some cert) = build_config private cert
  build_parts _ _ = err (Error.message "has no Cert or Private")

  -- `create_server_config`. The text of the first error shows the certificate too.
  unfoldable pub create_server_config : Cert → Outcome Config
  create_server_config db_cert = build_parts db_cert.private db_cert.cert

  -- The cache that `acceptor` begins with.
  abbrev pub empty_cache : Cached Config
  empty_cache = record { cert = none; config = rustls.new }

  abbrev pub store_config : Cert → Cached Config → Outcome Config → Outcome Config × Cached Config
  store_config db_cert cache (ok config) =
      (ok config, record { cert = some db_cert; config = config })
  store_config db_cert cache (err e) = (ok cache.config, cache)
  store_config db_cert cache panic = (panic, cache)

  -- `load_cert`, on what the facade answers.
  unfoldable pub load_cert : Outcome (Option Cert) → Cached Config → Outcome Config × Cached Config
  load_cert (ok (some new_cert)) cache =
      if is_new new_cert cache.cert
      then store_config new_cert cache (create_server_config new_cert)
      else (ok cache.config, cache)
  load_cert (ok none) cache = (ok cache.config, cache)
  load_cert (err e) cache = (ok cache.config, cache)
  load_cert panic cache = (panic, cache)

  -- The closure that `acceptor` returns, over any facade.
  unfoldable pub accept_config :
      {S : Type 0} → Facade S → S → Cached Config → Outcome Config × Cached Config
  unfolding load_cert
  accept_config facade s cache = load_cert (facade.first_cert s).0 cache

  -- One connection after the other, each with what the facade answers then.
  unfoldable pub accept_all : List (Outcome (Option Cert)) → Cached Config → List (Outcome Config)
  accept_all [] cache = []
  accept_all (answer ∷ answers) cache =
      (load_cert answer cache).0 ∷ accept_all answers (load_cert answer cache).1
