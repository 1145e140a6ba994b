-- ===== src/Api/Listeners/Tests.antt =====
-- Two listeners, of which one has ended with a panic.
use acme_dns_rust.Base.{◌≡◌, refl, none, some, String}
use acme_dns_rust.Base.Outcome.{Outcome, ok}
use acme_dns_rust.Config.Listener.{disabled}
use acme_dns_rust.Config.File.{Api}
use acme_dns_rust.Api.Listeners.{running, panicked, try_join, Tasks, listen}
use acme_dns_rust.Api.Listeners.Joined.{configured, listen-try_join}

abbrev api : Api
api = record {
  http = (some "0.0.0.0:80", disabled);
  https = (some "0.0.0.0:443", disabled);
  prom = (none, disabled);
}

abbrev tasks : Tasks
tasks = record { http = panicked; https = running; prom = running }

abbrev bind : String → Outcome String
bind addr = ok addr

listen-try_join_example : listen bind api tasks ≡ try_join (configured api tasks)
listen-try_join_example =
    listen-try_join bind api tasks ("0.0.0.0:80", refl) ("0.0.0.0:443", refl) tt
