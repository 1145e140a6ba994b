-- ===== src/Api/Tls/Concurrent.antt =====
-- `load_cert` of src/api/tls.rs in many connections at once. Each connection is at a place in the
-- function; between two places others may run. The places are where it awaits the facade and
-- where it takes the lock of the cache.
pub mod Served
mod Tests
use acme_dns_rust.Base.{
  ℕ, ◌==◌, ◌≡◌, Bool, true, false, Option, none, some, List, [], ◌∷◌, if◌then◌else◌,
}
use acme_dns_rust.Base.Outcome.{Outcome, ok, err, panic}
use acme_dns_rust.Facade.{Cert}
use acme_dns_rust.Api.Tls.{Rustls, Cached, is_new, create_server_config}

-- Where a connection is, with the variables that are live there, and what the facade has answered.
pub data Place (Config : Type 0) : Type 0 where
  -- Before the call of `first_cert`, and before the read that compares.
  idle : Place Config
  asked : Outcome (Option Cert) → Place Config
  -- Without the lock: before `create_server_config`, before the write, and before the second read.
  building : Cert → Place Config
  storing : Cert → Config → Place Config
  falling_back : Cert → Place Config
  served : Outcome (Option Cert) → Outcome Config → Place Config

module _ {Key Chain Config : Type 0} (rustls : Rustls Key Chain Config) where
  -- The first read: the cached configuration, unless the answer is another certificate.
  abbrev pub compare : Outcome (Option Cert) → Cached Config → Place Config
  compare (ok (some c)) cache =
      if is_new c cache.cert then building c else served (ok (some c)) (ok cache.config)
  compare (ok none) cache = served (ok none) (ok cache.config)
  compare (err e) cache = served (err e) (ok cache.config)
  compare panic cache = served panic panic

  abbrev pub built : Cert → Outcome Config → Place Config
  built c (ok config) = storing c config
  built c (err e) = falling_back c
  built c panic = served (ok (some c)) panic

  -- What a connection does next, once the facade has answered.
  unfoldable pub advance : Place Config → Cached Config → Place Config × Cached Config
  advance idle cache = (idle, cache)
  advance (asked answer) cache = (compare answer cache, cache)
  advance (building c) cache = (built c (create_server_config rustls c), cache)
  advance (storing c config) cache =
      (served (ok (some c)) (ok config), record { cert = some c; config = config })
  advance (falling_back c) cache = (served (ok (some c)) (ok cache.config), cache)
  advance (served answer result) cache = (served answer result, cache)

abbrev pub set_place : {A : Type 0} → (ℕ → A) → ℕ → A → ℕ → A
set_place f i a j = if i == j then a else f j

-- The cache and the connections; those that have not come yet are `idle`.
pub record System (Config : Type 0) : Type 0 where
  pub cache : Cached Config
  pub places : ℕ → Place Config

-- What the facade may answer, for certificates that have been stored.
abbrev pub Answers : (Cert → Type 0) → Outcome (Option Cert) → Type 0
Answers Stored (ok (some c)) = Stored c
Answers Stored _ = Unit {0}

module _ {Key Chain Config : Type 0} (rustls : Rustls Key Chain Config)
    (Stored : Cert → Type 0) where
  -- A connection asks the facade, or goes on.
  pub data Step (s : System Config) : System Config → Type 0 where
    ask :
        (i : ℕ) (answer : Outcome (Option Cert))
        → s.places i ≡ idle
        → Answers Stored answer
        → Step s (record { cache = s.cache; places = set_place s.places i (asked answer) })
    go_on :
        (i : ℕ)
        → Step s (record {
          cache = (advance rustls (s.places i) s.cache).1;
          places = set_place s.places i (advance rustls (s.places i) s.cache).0;
        })

  pub data Reachable : System Config → Type 0 where
    initial :
        Reachable
          (record { cache = record { cert = none; config = rustls.new }; places = λ i. idle })
    next : {s t : System Config} → Reachable s → Step s t → Reachable t
