-- ===== src/Api/Endpoint.antt =====
-- src/api/metrics.rs: the endpoint that gives the metrics as text. The registry and the encoder of
-- the crate prometheus are a parameter.
mod Tests
use acme_dns_rust.Base.{
  ℕ, ◌≡◌, refl, sym, ap, ◌∙◌, Bool, true, false, ◌&&◌, Bool-cases, inl, inr, Option, none, some,
  List, [], ◌∷◌, if◌then◌else◌, arith, String,
}
use acme_dns_rust.Base.Outcome.{Outcome, ok, err, panic, Error}
use acme_dns_rust.Api.Metrics.{Bytes, remove_zero_metrics}
use acme_dns_rust.Api.Metrics.Lines.{lines, kept, remove_zero_metrics-lines}
use acme_dns_rust.Api.Http.{
  Method, get, method_str, HttpRequest, Body, text, bytes, Response, internal_server_error,
  MetricsConfig, owned, starts, Counters, inc, count,
}

abbrev pub is_get : Method → Bool
is_get get = true
is_get _ = false

module _ (show_error : Error → String) (show_status : ℕ → String) where
  unfoldable pub internal_server_error_and_trace : Error → Response
  internal_server_error_and_trace error = record {
    status = internal_server_error;
    body = text (show_error error);
  }

  -- `remove_zero_metrics` cannot fail; out of fuel it has no answer.
  abbrev pub without_zeros : Option Bytes → Outcome Response
  without_zeros none = panic
  without_zeros (some res) = ok (record { status = 200; body = bytes res })

  -- `metrics_handler`, on what the encoder writes for the registry.
  unfoldable pub metrics_handler : Outcome Bytes → Outcome Response
  unfolding internal_server_error_and_trace
  metrics_handler (ok res) = without_zeros (remove_zero_metrics res)
  metrics_handler (err e) = ok (internal_server_error_and_trace e)
  metrics_handler panic = panic

  -- `metrics`: `none` means that the filter rejects the request, which warp answers.
  unfoldable pub metrics :
      Outcome Bytes → HttpRequest → Counters → Option (Outcome Response) × Counters
  unfolding metrics_handler
  metrics encoded request counters =
      if starts "metrics" request.segments && is_get request.method
      then (let answer = metrics_handler encoded in
          (
            some answer,
            count show_status request.method (answer, owned request.full_path) counters,
          ))
      else (none, counters)

  -- A GET for the metrics, whose registry can be encoded, is answered with the status 200 and the
  -- lines of the encoded text that do not end in " 0", in order, and is counted under its path,
  -- GET and 200.
  pub metrics-lines :
      (res : Bytes) (request : HttpRequest) (counters : Counters)
      → starts "metrics" request.segments && is_get request.method ≡ true
      → metrics (ok res) request counters ≡ (
        some (ok (record { status = 200; body = bytes (kept (lines res)) })),
        inc (request.full_path ∷ method_str request.method ∷ show_status 200 ∷ []) counters,
      )
  unfolding metrics metrics_handler
  metrics-lines res request counters served = rw (served, (remove_zero_metrics-lines res).0) refl
