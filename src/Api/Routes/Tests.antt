-- ===== src/Api/Routes/Tests.antt =====
-- Requests over the in-memory facade.
use acme_dns_rust.Base.{
  ℕ, zero, suc, ◌≡◌, refl, ◌≢◌, Option, none, some, List, [], ◌∷◌, arith, String, str_eq,
  if◌then◌else◌,
}
use acme_dns_rust.Base.Map.{get, string_key}
use acme_dns_rust.Base.Outcome.{ok}
use acme_dns_rust.Facade.{DomainDto, Cert, Env, default_dto}
use acme_dns_rust.Facade.Memory.{Memory, Order, memory_facade}
use acme_dns_rust.Facade.Single.{unstarted, IsConsistent}
use acme_dns_rust.Api.Routes.{Method, HttpRequest, Response, Body, text, routes}
use acme_dns_rust.Api.Routes.Answers.{registered, routes-register}

abbrev first : List Cert → Option Cert
first [] = none
first (c ∷ cs) = some c

abbrev order : Order
order = record { next = first; next_nil = refl; next_single = λ c. refl }

abbrev uuids : ℕ → String
uuids zero = "u0"
uuids (suc zero) = "u1"
uuids (suc (suc n)) = "u2"

abbrev env : Env
env = record { now = 1000; uuid = uuids; hash = λ password. ok "hashed" }

abbrev to_json : DomainDto → Option String
to_json res = some "json"

abbrev show_status : ℕ → String
show_status n = "status"

abbrev headers : String → Option String
headers name = if str_eq name "X-Api-User" then some "user" else none

abbrev register : HttpRequest
register = record {
  method = Method.post;
  segments = "register" ∷ "more" ∷ [];
  full_path = "/register/more";
  header = headers;
}

abbrev update : HttpRequest
update = record {
  method = Method.post;
  segments = "update" ∷ [];
  full_path = "/update";
  header = headers;
}

abbrev empty_store : Memory
empty_store = unstarted []

empty-IsConsistent : IsConsistent empty_store
empty-IsConsistent = record { held = tt; named = λ k d e. ground arith }

abbrev missing : Response
missing = record { status = 404; body = Body.empty }

update_missing :
    (routes (memory_facade order) to_json show_status env update empty_store).0.0 ≡ ok missing
unfolding routes
update_missing = refl

routes-register_example :
    let (answer, s') = routes (memory_facade order) to_json show_status env register empty_store in
    (answer.0 ≡ ok (record { status = 201; body = text "json" }))
    × IsConsistent s'
    × (get "u0" s'.domains ≡ some (registered order to_json show_status env "hashed"))
    × ((id : String) → "u0" ≢ id → get id s'.domains ≡ get id empty_store.domains)
unfolding default_dto
routes-register_example =
    routes-register order to_json show_status env register empty_store "hashed" "json" refl
      empty-IsConsistent refl refl
