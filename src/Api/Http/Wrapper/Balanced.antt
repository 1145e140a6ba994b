-- ===== src/Api/Http/Wrapper/Balanced.antt =====
-- What the counter of the statuses and the histogram of the durations have in common.
use acme_dns_rust.Base.{
  ℕ, ◌+◌, ◌≡◌, refl, sym, ap, ◌∙◌, ◌&&◌, Bool-cases, inl, inr, List, [], ◌∷◌, length, arith,
  if◌then◌else◌, String, str_eq,
}
use acme_dns_rust.Base.Outcome.{Outcome, ok, err, panic}
use acme_dns_rust.Api.Http.{method_str, Response, as_str, Counters, inc}
use acme_dns_rust.Api.Http.Wrapper.{
  Histograms, observe, Registry, Answered, metrics_wrapper, wrap_all,
}

-- How often a status is listed.
abbrev pub listed : String → List String → ℕ
listed status [] = 0
listed status (s ∷ statuses) = (if str_eq s status then 1 else 0) + listed status statuses

-- What the counter has for a path and a method, over the statuses.
abbrev pub total : Counters → String → String → List String → ℕ
total counters path method [] = 0
total counters path method (s ∷ statuses) =
    counters (path ∷ method ∷ s ∷ []) + total counters path method statuses

-- As many durations as responses.
abbrev pub IsBalanced : String → String → List String → Registry → Type 0
IsBalanced path method statuses registry =
    length (registry.http_req_histogram (path ∷ method ∷ []))
    ≡ total registry.http_status_counter path method statuses

-- The status of the answer, if there is one, is listed once.
abbrev pub IsListed : (ℕ → String) → List String → Outcome Response → Type 0
IsListed show_status statuses (ok response) = listed (show_status response.status) statuses ≡ 1
IsListed show_status statuses _ = Unit {0}

abbrev pub AreListed : (ℕ → String) → List String → List Answered → Type 0
AreListed show_status statuses [] = Unit {0}
AreListed show_status statuses (a ∷ answers) =
    IsListed show_status statuses a.result × AreListed show_status statuses answers

total-inc :
    (counters : Counters) (path method path' method' status : String) (statuses : List String)
    → total (inc (path' ∷ method' ∷ status ∷ []) counters) path method statuses
      ≡ total counters path method statuses
        + (if str_eq path path' && str_eq method method' then listed status statuses else 0)
total-inc counters path method path' method' status [] =
    elim (Bool-cases (str_eq path path' && str_eq method method')) [
      | inl same ↦ rw same refl
      | inr other ↦ rw other refl
    ]
total-inc counters path method path' method' status (s ∷ statuses) =
    let rest = total-inc counters path method path' method' status statuses in ground arith

length-observe :
    (histograms : Histograms) (path method path' method' : String) (time : ℕ)
    → length (observe (path' ∷ method' ∷ []) time histograms (path ∷ method ∷ []))
      ≡ length (histograms (path ∷ method ∷ []))
        + (if str_eq path path' && str_eq method method' then 1 else 0)
length-observe histograms path method path' method' time = ground arith

metrics_wrapper-IsBalanced :
    (show_status : ℕ → String) (path method : String) (statuses : List String) (a : Answered)
    (registry : Registry)
    → IsListed show_status statuses a.result
    → IsBalanced path method statuses registry
    → IsBalanced path method statuses (metrics_wrapper show_status a registry)
unfolding metrics_wrapper
metrics_wrapper-IsBalanced show_status path method statuses a registry known h =
    by_result a.result refl known
  where
    by_result :
        (result : Outcome Response)
        → a.result ≡ result
        → IsListed show_status statuses result
        → IsBalanced path method statuses (metrics_wrapper show_status a registry)
    by_result (ok response) e once =
        let seen =
          length-observe registry.http_req_histogram path method (as_str a.config)
            (method_str a.method) a.elapsed in
        let counted =
          total-inc registry.http_status_counter path method (as_str a.config) (method_str a.method)
            (show_status response.status) statuses in
        let same = str_eq path (as_str a.config) && str_eq method (method_str a.method) in
        let before = total registry.http_status_counter path method statuses in
        rw (e, metrics_wrapper)
          (seen
            ∙ ap (λ n. n + (if same then 1 else 0)) h
            ∙ ap (λ n. before + (if same then n else 0)) (sym once)
            ∙ sym counted)
    by_result (err cause) e _ = rw (e, metrics_wrapper) h
    by_result panic e _ = rw (e, metrics_wrapper) h

-- For a path and a method, if the histogram has as many durations as the status counter has
-- answers, over a list of statuses, it still has after any sequence of answers, errors and panics
-- of the wrapped filter, each of whose statuses occurs once in the list.
pub wrap_all-IsBalanced :
    (show_status : ℕ → String) (path method : String) (statuses : List String)
    (answers : List Answered) (registry : Registry)
    → AreListed show_status statuses answers
    → IsBalanced path method statuses registry
    → IsBalanced path method statuses (wrap_all show_status answers registry)
wrap_all-IsBalanced show_status path method statuses [] registry known h = h
wrap_all-IsBalanced show_status path method statuses (a ∷ answers) registry (own, known) h =
    wrap_all-IsBalanced show_status path method statuses answers
      (metrics_wrapper show_status a registry) known
      (metrics_wrapper-IsBalanced show_status path method statuses a registry own h)
