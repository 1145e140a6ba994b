-- ===== src/Api/Metrics/Tests.antt =====
-- The test of src/api/metrics.rs on shorter texts, and the theorem about lines at one of them.
use acme_dns_rust.Base.{◌≡◌, refl, some, [], ◌∷◌}
use acme_dns_rust.Api.Metrics.{
  Bytes, ends_with, read_until, drop_zero_metric, remove_loop, remove_zero_metrics,
}
use acme_dns_rust.Api.Metrics.Lines.{lines, kept, join, remove_zero_metrics-lines}

-- "a 0\nb 4\nc 0"
abbrev sample : Bytes
sample = 97 ∷ 32 ∷ 48 ∷ 10 ∷ 98 ∷ 32 ∷ 52 ∷ 10 ∷ 99 ∷ 32 ∷ 48 ∷ []

-- "b 4\n"
remove_zero_metrics-sample : remove_zero_metrics sample ≡ some (98 ∷ 32 ∷ 52 ∷ 10 ∷ [])
unfolding remove_zero_metrics remove_loop drop_zero_metric read_until ends_with
remove_zero_metrics-sample = refl

remove_zero_metrics-lines_example :
    (remove_zero_metrics sample ≡ some (kept (lines sample))) × (join (lines sample) ≡ sample)
remove_zero_metrics-lines_example = remove_zero_metrics-lines sample
