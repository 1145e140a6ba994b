-- ===== src/Api/Http/Wrapper/Tests.antt =====
-- Two requests for one path, with different answers.
use acme_dns_rust.Base.{ℕ, zero, suc, refl, List, [], ◌∷◌, String}
use acme_dns_rust.Base.Outcome.{ok}
use acme_dns_rust.Api.Http.{Method, borrowed, Body}
use acme_dns_rust.Api.Http.Wrapper.{Registry, Answered, wrap_all}
use acme_dns_rust.Api.Http.Wrapper.Balanced.{IsBalanced, wrap_all-IsBalanced}

abbrev show_status : ℕ → String
show_status zero = "0"
show_status (suc n) = "500"

abbrev reply : ℕ → ℕ → Answered
reply status elapsed = record {
  method = Method.get;
  result = ok (record { status = status; body = Body.empty });
  config = borrowed "404";
  elapsed = elapsed;
}

abbrev answers : List Answered
answers = reply 0 5 ∷ reply 1 7 ∷ reply 0 2 ∷ []

abbrev statuses : List String
statuses = "500" ∷ "0" ∷ []

abbrev at_start : Registry
at_start = record { http_status_counter = λ labels. 0; http_req_histogram = λ labels. [] }

wrap_all-IsBalanced_example :
    IsBalanced "404" "GET" statuses (wrap_all show_status answers at_start)
wrap_all-IsBalanced_example =
    wrap_all-IsBalanced show_status "404" "GET" statuses answers at_start (refl, (refl, (refl, tt)))
      refl
