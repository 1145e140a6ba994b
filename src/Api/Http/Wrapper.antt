-- ===== src/Api/Http/Wrapper.antt =====
-- `metrics_wrapper` of src/api/metrics.rs: the counter of the statuses and the histogram of the
-- durations. The buckets of the histogram are those of the crate prometheus; here it is what has
-- been observed.
pub mod Balanced
mod Tests
use acme_dns_rust.Base.{ℕ, List, [], ◌∷◌, if◌then◌else◌, String}
use acme_dns_rust.Base.Outcome.{Outcome, ok, err, panic}
use acme_dns_rust.Api.Http.{
  Method, method_str, Response, MetricsConfig, as_str, Counters, labels_eq, count,
}

abbrev pub Histograms : Type 0
Histograms = List String → List ℕ

-- The last duration first.
abbrev pub observe : List String → ℕ → Histograms → Histograms
observe labels time histograms k = if labels_eq k labels then time ∷ histograms k else histograms k

-- `HTTP_STATUS_COUNTER` and `HTTP_REQ_HISTOGRAM`
pub record Registry : Type 0 where
  pub http_status_counter : Counters
  pub http_req_histogram : Histograms

-- What the wrapped filter answers to a request, and what the timer shows by then.
pub record Answered : Type 0 where
  pub method : Method
  pub result : Outcome Response
  pub config : MetricsConfig
  pub elapsed : ℕ

-- The closure at the end is not run if the filter panics or rejects the request.
unfoldable pub metrics_wrapper : (ℕ → String) → Answered → Registry → Registry
metrics_wrapper show_status a registry = elim a.result [
  | ok response ↦ record {
    http_status_counter =
        count show_status a.method (ok response, a.config) registry.http_status_counter;
    http_req_histogram =
        observe (as_str a.config ∷ method_str a.method ∷ []) a.elapsed registry.http_req_histogram;
  }
  | err e ↦ registry
  | panic ↦ registry
]

abbrev pub wrap_all : (ℕ → String) → List Answered → Registry → Registry
wrap_all show_status [] registry = registry
wrap_all show_status (a ∷ answers) registry =
    wrap_all show_status answers (metrics_wrapper show_status a registry)
