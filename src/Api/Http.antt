-- ===== src/Api/Http.antt =====
-- What the HTTP side uses of warp and of prometheus: requests, answers, and the counter of answers
-- of src/api/metrics.rs.
pub mod Wrapper
use acme_dns_rust.Base.{
  ℕ, ◌+◌, Bool, true, false, ◌&&◌, Option, none, some, List, [], ◌∷◌, if◌then◌else◌, String, str_eq,
}
use acme_dns_rust.Base.Outcome.{Outcome, ok}
use acme_dns_rust.Api.Metrics.{Bytes}

pub data Method : Type 0 where
  get post : Method
  other : String → Method

abbrev pub method_str : Method → String
method_str get = "GET"
method_str post = "POST"
method_str (other s) = s

-- A request as the filters of warp see it: the segments of the path and its text, and the headers.
pub record HttpRequest : Type 0 where
  pub method : Method
  pub segments : List String
  pub full_path : String
  pub header : String → Option String

pub data Body : Type 0 where
  empty : Body
  text : String → Body
  bytes : Bytes → Body

pub record Response : Type 0 where
  pub status : ℕ
  pub body : Body

abbrev pub internal_server_error : ℕ
internal_server_error = 500

-- `MetricsConfig`
pub data MetricsConfig : Type 0 where
  borrowed owned : String → MetricsConfig

abbrev pub as_str : MetricsConfig → String
as_str (borrowed config) = config
as_str (owned path) = path

abbrev pub is_post : Method → Bool
is_post post = true
is_post _ = false

-- `warp::path(p)`: the first segment is `p`. What follows it does not matter.
abbrev pub starts : String → List String → Bool
starts p [] = false
starts p (segment ∷ segments) = str_eq segment p

-- `warp::reply::json`, whose answer is an error if serialisation fails.
abbrev pub json_reply : Option String → Response
json_reply (some json) = record { status = 200; body = text json }
json_reply none = record { status = internal_server_error; body = empty }

-- `HTTP_STATUS_COUNTER`: a count for each list of labels.
abbrev pub Counters : Type 0
Counters = List String → ℕ

abbrev pub labels_eq : List String → List String → Bool
labels_eq [] [] = true
labels_eq (a ∷ as') (b ∷ bs) = str_eq a b && labels_eq as' bs
labels_eq _ _ = false

abbrev pub inc : List String → Counters → Counters
inc labels counters k = if labels_eq k labels then counters k + 1 else counters k

-- `metrics_wrapper`: a response is counted under its path, method and status.
abbrev pub count : (ℕ → String) → Method → Outcome Response × MetricsConfig → Counters → Counters
count show_status method (ok response, config) counters =
    inc (as_str config ∷ method_str method ∷ show_status response.status ∷ []) counters
count show_status method (_, config) counters = counters
