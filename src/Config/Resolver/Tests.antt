-- ===== src/Config/Resolver/Tests.antt =====
-- A resolver over TLS.
use acme_dns_rust.Base.{◌≡◌, ◌↔◌, true, ◌||◌, none, some, starts_with}
use acme_dns_rust.Base.Outcome.{panic}
use acme_dns_rust.Config.Value.{string}
use acme_dns_rust.Config.Resolver.{deserialize, deserialize-panic_iff}

deserialize-panic_iff_example :
    (deserialize (λ s. none) (some (string "tls://1.1.1.1")) ≡ panic)
    ↔ ((starts_with "tls://1.1.1.1" "tls://" || starts_with "tls://1.1.1.1" "https://") ≡ true)
deserialize-panic_iff_example = deserialize-panic_iff (λ s. none) "tls://1.1.1.1"
