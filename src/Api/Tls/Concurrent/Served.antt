-- ===== src/Api/Tls/Concurrent/Served.antt =====
-- What connections get that load the configuration at the same time.
use acme_dns_rust.Base.{
  ℕ, ◌==◌, ◌≡◌, refl, subst, ◌⊎◌, inl, inr, Bool-cases, false, Option, none, some,
}
use acme_dns_rust.Base.Outcome.{Outcome, ok, err, panic, Error, Outcome-cases}
use acme_dns_rust.Facade.{Cert}
use acme_dns_rust.Api.Tls.{Rustls, Cached, is_new, create_server_config, load_cert, store_config}
use acme_dns_rust.Api.Tls.Cache.{is_new-cached}
use acme_dns_rust.Api.Tls.Concurrent.{
  Place, idle, asked, building, storing, falling_back, served, compare, built, advance, set_place,
  System, Answers, Step, ask, go_on, Reachable, initial, next,
}

module _ {Key Chain Config : Type 0} (rustls : Rustls Key Chain Config)
    (Stored : Cert → Type 0) where
  -- A configuration that a stored certificate makes, or the empty one of the start.
  abbrev pub FromStored : Config → Type 0
  FromStored config =
      (config ≡ rustls.new) ⊎ ((c : Cert) × Stored c × (create_server_config rustls c ≡ ok config))

  abbrev pub Earlier : Outcome Config → Type 0
  Earlier result = (config : Config) × (result ≡ ok config) × FromStored config

  abbrev pub AllowedCert : Outcome Config → Outcome Config → Type 0
  AllowedCert (ok config) result = result ≡ ok config
  AllowedCert (err e) result = Earlier result
  AllowedCert panic result = result ≡ panic

  -- What a connection may get that the facade has answered so: the configuration of the
  -- certificate, or one from earlier if there is none or it makes none.
  abbrev pub Allowed : Outcome (Option Cert) → Outcome Config → Type 0
  Allowed (ok (some c)) result = AllowedCert (create_server_config rustls c) result
  Allowed panic result = result ≡ panic
  Allowed _ result = Earlier result

  abbrev pub CacheIsValid : Option Cert → Config → Type 0
  CacheIsValid none config = config ≡ rustls.new
  CacheIsValid (some c) config = Stored c × (create_server_config rustls c ≡ ok config)

  abbrev pub PlaceIsValid : Place Config → Type 0
  PlaceIsValid idle = Unit {0}
  PlaceIsValid (asked answer) = Answers Stored answer
  PlaceIsValid (building c) = Stored c
  PlaceIsValid (storing c config) = Stored c × (create_server_config rustls c ≡ ok config)
  PlaceIsValid (falling_back c) = (e : Error) × (create_server_config rustls c ≡ err e)
  PlaceIsValid (served answer result) = Allowed answer result

  pub record IsValid (s : System Config) : Type 0 where
    pub cache : CacheIsValid s.cache.cert s.cache.config
    pub places : (i : ℕ) → PlaceIsValid (s.places i)

  cached_FromStored :
      (cert : Option Cert) (config : Config) → CacheIsValid cert config → FromStored config
  cached_FromStored none config v = inl v
  cached_FromStored (some c) config (stored, made) = inr (c, stored, made)

  is_new_made :
      (c : Cert) (cached : Option Cert) (config : Config)
      → CacheIsValid cached config
      → is_new c cached ≡ false
      → create_server_config rustls c ≡ ok config
  is_new_made c none config v h = cc
  is_new_made c (some old) config (stored, made) h = is_new-cached rustls c (some old) config made h

  compare-PlaceIsValid :
      (answer : Outcome (Option Cert)) (cache : Cached Config)
      → Answers Stored answer
      → CacheIsValid cache.cert cache.config
      → PlaceIsValid (compare rustls answer cache)
  compare-PlaceIsValid (ok (some c)) cache stored v = elim (Bool-cases (is_new c cache.cert)) [
    | inl fresh ↦ rw fresh stored
    | inr old ↦ rw (old, is_new_made c cache.cert cache.config v old) refl
  ]
  compare-PlaceIsValid (ok none) cache stored v =
      (cache.config, refl, cached_FromStored cache.cert cache.config v)
  compare-PlaceIsValid (err e) cache stored v =
      (cache.config, refl, cached_FromStored cache.cert cache.config v)
  compare-PlaceIsValid panic cache stored v = refl

  built-PlaceIsValid :
      (c : Cert) → Stored c → PlaceIsValid (built rustls c (create_server_config rustls c))
  built-PlaceIsValid c stored = elim (Outcome-cases (create_server_config rustls c)) [
    | inl (config, made) ↦ rw made (stored, made)
    | inr (inl (e, failed)) ↦ rw failed (e, failed)
    | inr (inr failed) ↦ rw (failed, failed) refl
  ]

  advance-IsValid :
      (p : Place Config) (cache : Cached Config)
      → PlaceIsValid p
      → CacheIsValid cache.cert cache.config
      → PlaceIsValid (advance rustls p cache).0
        × CacheIsValid (advance rustls p cache).1.cert (advance rustls p cache).1.config
  unfolding advance
  advance-IsValid idle cache p v = (tt, v)
  advance-IsValid (asked answer) cache p v = (compare-PlaceIsValid answer cache p v, v)
  advance-IsValid (building c) cache p v = (built-PlaceIsValid c p, v)
  advance-IsValid (storing c config) cache (stored, made) v = (rw made refl, (stored, made))
  advance-IsValid (falling_back c) cache (e, failed) v =
      (rw failed (cache.config, refl, cached_FromStored cache.cert cache.config v), v)
  advance-IsValid (served answer result) cache p v = (p, v)

  set_place-PlaceIsValid :
      (places : ℕ → Place Config) (i : ℕ) (p : Place Config)
      → ((j : ℕ) → PlaceIsValid (places j))
      → PlaceIsValid p
      → (j : ℕ) → PlaceIsValid (set_place places i p j)
  set_place-PlaceIsValid places i p h v j = elim (Bool-cases (i == j)) [
    | inl here ↦ rw here v
    | inr other ↦ rw other (h j)
  ]

  Step-IsValid : {s t : System Config} → Step rustls Stored s t → IsValid s → IsValid t
  Step-IsValid {s} (ask i answer free stored) v = record {
    cache = v.cache;
    places = set_place-PlaceIsValid s.places i (asked answer) v.places stored;
  }
  Step-IsValid {s} (go_on i) v =
      let (p, c) = advance-IsValid (s.places i) s.cache (v.places i) v.cache in
      record { cache = c; places = set_place-PlaceIsValid s.places i _ v.places p }

  Reachable-IsValid : {s : System Config} → Reachable rustls Stored s → IsValid s
  Reachable-IsValid initial = record { cache = refl; places = λ i. tt }
  Reachable-IsValid (next r step) = Step-IsValid step (Reachable-IsValid r)

  -- However the steps of connections that load the TLS configuration are interleaved, what a
  -- connection is served fits the answer that the facade gave it: the configuration that its
  -- certificate makes; if there is none, it makes none or the facade fails, one that some stored
  -- certificate makes, or the empty one of the start; a panic if the facade or the making of the
  -- configuration panics.
  pub Reachable-Allowed :
      (s : System Config) (i : ℕ) (answer : Outcome (Option Cert)) (result : Outcome Config)
      → Reachable rustls Stored s
      → s.places i ≡ served answer result
      → Allowed answer result
  Reachable-Allowed s i answer result r here =
      subst PlaceIsValid here ((Reachable-IsValid r).places i)

  -- A connection that nobody interrupts, from the answer of the facade to its end.
  abbrev pub alone : Outcome (Option Cert) → Cached Config → Place Config × Cached Config
  alone answer cache =
      let (p, cache1) = advance rustls (asked answer) cache in
      let (p', cache2) = advance rustls p cache1 in advance rustls p' cache2

  stored_alone :
      (c : Cert) (cache : Cached Config) (made : Outcome Config)
      → advance rustls (built rustls c made) cache ≡ (
        served (ok (some c)) (store_config rustls c cache made).0,
        (store_config rustls c cache made).1,
      )
  unfolding advance
  stored_alone c cache (ok config) = refl
  stored_alone c cache (err e) = refl
  stored_alone c cache panic = refl

  -- Nobody interrupts it: then it is `load_cert`.
  pub alone-load_cert :
      (answer : Outcome (Option Cert)) (cache : Cached Config)
      → alone answer cache
        ≡ (served answer (load_cert rustls answer cache).0, (load_cert rustls answer cache).1)
  unfolding advance load_cert
  alone-load_cert (ok (some c)) cache = elim (Bool-cases (is_new c cache.cert)) [
    | inl fresh ↦ rw fresh (stored_alone c cache (create_server_config rustls c))
    | inr old ↦ rw old refl
  ]
  alone-load_cert (ok none) cache = refl
  alone-load_cert (err e) cache = refl
  alone-load_cert panic cache = refl
