-- ===== src/Api/Routes.antt =====
-- src/api/routes.rs and the wrapper of src/api/metrics.rs: which handler answers a request, what it
-- answers, and what is counted.
pub mod Answers
pub mod Postgres
mod Tests
use acme_dns_rust.Base.{
  ℕ, ◌+◌, Bool, true, false, ◌&&◌, Option, none, some, List, [], ◌∷◌, ◌==◌, if◌then◌else◌, not,
  String, str_eq, text_append,
}
use acme_dns_rust.Base.Outcome.{Outcome, ok, err, panic}
pub use acme_dns_rust.Api.Http.{
  Method, get, post, other, method_str, HttpRequest, Body, empty, text, bytes, Response,
  internal_server_error, MetricsConfig, borrowed, owned, as_str, is_post, starts, json_reply,
  Counters, labels_eq, inc, count,
}
use acme_dns_rust.Facade.{DomainDto, Domain, Env, Facade, default_dto, try_from}

module _ {S : Type 0} (facade : Facade S) (to_json : DomainDto → Option String)
    (show_status : ℕ → String) where
  -- The block of `register_handler` that may fail.
  abbrev pub create : Env → DomainDto → Outcome Domain → S → Outcome DomainDto × S
  create env res (ok domain) s =
      let (created, s') = facade.create_domain domain s in
      (elim created [ ok _ ↦ ok res | err e ↦ err e | panic ↦ panic ], s')
  create env res (err e) s = (err e, s)
  create env res panic s = (panic, s)

  -- `warp::json` also answers with the status 500 if serialisation failed.
  abbrev pub respond : Outcome DomainDto → Outcome Response
  respond (ok res) =
      let reply = json_reply (to_json res) in
      ok (if reply.status == internal_server_error then reply else record reply { status = 201 })
  respond (err e) = ok (record { status = internal_server_error; body = text "test" })
  respond panic = panic

  unfoldable pub register_handler : Env → S → Outcome Response × S
  register_handler env s =
      let res = default_dto env in
      let (result, s') = create env res (try_from env res) s in (respond result, s')

  unfoldable pub update_handler : String → String → Response
  update_handler user key = record {
    status = 200;
    body = text (text_append user (text_append " " key));
  }

  abbrev pub is_register : HttpRequest → Bool
  is_register request = starts "register" request.segments && is_post request.method

  abbrev pub is_update : HttpRequest → Bool
  is_update request = starts "update" request.segments && is_post request.method

  abbrev pub not_found : Response
  not_found = record { status = 404; body = empty }

  -- `update`, and `not_found` if a header is missing.
  abbrev pub update_or_not_found :
      Bool → HttpRequest → Option String → Option String → Response × MetricsConfig
  update_or_not_found true request (some user) (some key) =
      (update_handler user key, owned request.full_path)
  update_or_not_found _ request _ _ = (not_found, borrowed "404")

  -- `register.or(update).or(not_found)`
  unfoldable pub routes : Env → HttpRequest → S → (Outcome Response × MetricsConfig) × S
  routes env request s =
      if is_register request
      then (let (response, s') = register_handler env s in
          ((response, owned request.full_path), s'))
      else (let (response, config) =
            update_or_not_found (is_update request) request (request.header "X-Api-User")
              (request.header "X-Api-Key") in
          ((ok response, config), s))

  unfoldable pub handle : Env → HttpRequest → S × Counters → Outcome Response × (S × Counters)
  handle env request (s, counters) =
      let (answer, s') = routes env request s in
      (answer.0, (s', count show_status request.method answer counters))
