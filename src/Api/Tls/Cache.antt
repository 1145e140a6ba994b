-- ===== src/Api/Tls/Cache.antt =====
-- The cache of the TLS configuration against a description without one.
use acme_dns_rust.Base.{
  ◌≡◌, refl, ap, ◌∙◌, inl, inr, true, false, Option, none, some, List, [], ◌∷◌, arith, String,
  eq_iff, Bool-cases,
}
use acme_dns_rust.Base.Outcome.{Outcome, ok, err, panic, Outcome-cases}
use acme_dns_rust.Facade.{Cert, cert_eq, option_eq}
use acme_dns_rust.Api.Tls.{
  Rustls, Cached, is_new, create_server_config, store_config, load_cert, accept_all,
}

option_eq_sound : (a b : Option String) → option_eq a b ≡ true → a ≡ b
option_eq_sound none none h = refl
option_eq_sound (some a) (some b) h = ap some ((eq_iff a b).0 h)
option_eq_sound none (some b) h = cc
option_eq_sound (some a) none h = cc

-- Certificates that count as equal have the same key and chain.
cert_eq_sound : (a b : Cert) → cert_eq a b ≡ true → (a.private ≡ b.private) × (a.cert ≡ b.cert)
unfolding cert_eq
cert_eq_sound a b h =
    ground (arith, option_eq_sound a.private b.private, option_eq_sound a.cert b.cert)

module _ {Key Chain Config : Type 0} (rustls : Rustls Key Chain Config) where
  create_server_config-cert_eq :
      (a b : Cert)
      → cert_eq a b ≡ true
      → create_server_config rustls a ≡ create_server_config rustls b
  unfolding create_server_config
  create_server_config-cert_eq a b h = let (p, c) = cert_eq_sound a b h in rw (p, c)

  -- The cached configuration is the one that the cached certificate gives.
  abbrev pub CertValid : Option Cert → Config → Type 0
  CertValid none config = Unit {0}
  CertValid (some c) config = create_server_config rustls c ≡ ok config

  abbrev pub IsValid : Cached Config → Type 0
  IsValid cache = CertValid cache.cert cache.config

  -- What a connection is to get, given what the one before got: the configuration of the stored
  -- certificate if it makes one, and otherwise what there was.
  abbrev pub or_previous : Config → Outcome Config → Outcome Config
  or_previous previous (ok config) = ok config
  or_previous previous (err e) = ok previous
  or_previous previous panic = panic

  abbrev pub current : Config → Outcome (Option Cert) → Outcome Config
  current previous (ok (some c)) = or_previous previous (create_server_config rustls c)
  current previous (ok none) = ok previous
  current previous (err e) = ok previous
  current previous panic = panic

  load_cert-new :
      (c : Cert) (cache : Cached Config)
      → is_new c cache.cert ≡ true
      → load_cert rustls (ok (some c)) cache
        ≡ store_config rustls c cache (create_server_config rustls c)
  unfolding load_cert
  load_cert-new c cache h = rw h

  load_cert-old :
      (c : Cert) (cache : Cached Config)
      → is_new c cache.cert ≡ false
      → load_cert rustls (ok (some c)) cache ≡ (ok cache.config, cache)
  unfolding load_cert
  load_cert-old c cache h = rw h

  pub is_new-cached :
      (c : Cert) (cached : Option Cert) (config : Config)
      → CertValid cached config
      → is_new c cached ≡ false
      → create_server_config rustls c ≡ ok config
  is_new-cached c none config v h = cc
  is_new-cached c (some old) config v h = create_server_config-cert_eq c old (ground arith) ∙ v

  abbrev pub config_after : Config → Outcome Config → Config
  config_after previous (ok config) = config
  config_after previous _ = previous

  -- One connection: what it gets, and that the cache stays valid and keeps what it got.
  abbrev pub LoadsCurrent :
      Outcome (Option Cert) → Cached Config → Outcome Config × Cached Config → Type 0
  LoadsCurrent answer cache r =
      (r.0 ≡ current cache.config answer)
      × IsValid r.1
      × (r.1.config ≡ config_after cache.config (current cache.config answer))

  store_config-LoadsCurrent :
      (c : Cert) (cache : Cached Config)
      → IsValid cache
      → LoadsCurrent
          (ok (some c))
          cache
          (store_config rustls c cache (create_server_config rustls c))
  store_config-LoadsCurrent c cache v = elim (Outcome-cases (create_server_config rustls c)) [
    | inl (config, e) ↦ rw e (refl, e, refl)
    | inr (inl (x, e)) ↦ rw e (refl, v, refl)
    | inr (inr e) ↦ rw e (refl, v, refl)
  ]

  load_cert-some :
      (c : Cert) (cache : Cached Config)
      → IsValid cache
      → LoadsCurrent (ok (some c)) cache (load_cert rustls (ok (some c)) cache)
  load_cert-some c cache v = elim (Bool-cases (is_new c cache.cert)) [
    | inl fresh ↦ rw (load_cert-new c cache fresh) (store_config-LoadsCurrent c cache v)
    | inr old ↦
        rw (load_cert-old c cache old, is_new-cached c cache.cert cache.config v old)
          (refl, v, refl)
  ]

  -- From a valid cache a connection gets the configuration that the stored certificate makes, or
  -- else the cached one, and the cache is valid again and holds what the connection got.
  pub load_cert-current :
      (answer : Outcome (Option Cert)) (cache : Cached Config)
      → IsValid cache
      → LoadsCurrent answer cache (load_cert rustls answer cache)
  unfolding load_cert
  load_cert-current (ok (some c)) cache v = load_cert-some c cache v
  load_cert-current (ok none) cache v = (refl, v, refl)
  load_cert-current (err e) cache v = (refl, v, refl)
  load_cert-current panic cache v = (refl, v, refl)

  abbrev pub served : Config → List (Outcome (Option Cert)) → List (Outcome Config)
  served previous [] = []
  served previous (answer ∷ answers) =
      current previous answer ∷ served (config_after previous (current previous answer)) answers

  -- Over any run of connections that begins with a valid cache, each connection gets the
  -- configuration that the certificate stored at that time makes, or the one before if there is
  -- none, it makes none or the database fails: the cache cannot be told from making the
  -- configuration anew.
  pub accept_all-served :
      (answers : List (Outcome (Option Cert))) (cache : Cached Config)
      → IsValid cache
      → accept_all rustls answers cache ≡ served cache.config answers
  unfolding accept_all
  accept_all-served [] cache v = refl
  accept_all-served (answer ∷ answers) cache v =
      let (now, valid, next) = load_cert-current answer cache v in
      cc (accept_all-served answers (load_cert rustls answer cache).1 valid)
