-- ===== src/Api/Endpoint/Tests.antt =====
-- A request for the metrics.
use acme_dns_rust.Base.{ℕ, none, [], ◌∷◌, String}
use acme_dns_rust.Base.Outcome.{Error}
use acme_dns_rust.Api.Metrics.{Bytes}
use acme_dns_rust.Api.Http.{Method, HttpRequest, Counters}

-- "a 0\nb 4"
abbrev sample : Bytes
sample = 97 ∷ 32 ∷ 48 ∷ 10 ∷ 98 ∷ 32 ∷ 52 ∷ []

abbrev request : HttpRequest
request = record {
  method = Method.get;
  segments = "metrics" ∷ [];
  full_path = "/metrics";
  header = λ name. none;
}

abbrev show_error : Error → String
show_error e = "error"

abbrev show_status : ℕ → String
show_status n = "200"

abbrev no_counts : Counters
no_counts labels = 0
