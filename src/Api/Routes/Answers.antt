-- ===== src/Api/Routes/Answers.antt =====
-- What a request gets: its status, what it changes, and the domain that a registration stores.
use acme_dns_rust.Base.{
  ℕ, ◌≡◌, refl, subst, ◌∙◌, ◌≢◌, ◌↔◌, Bool, true, false, ◌&&◌, ◌||◌, Option, none, some, arith,
  Bool-cases, Option-cases, inl, inr, String, str_eq, eq_iff, eq_refl, if◌then◌else◌,
}
use acme_dns_rust.Base.Map.{get, get-insert, string_key}
use acme_dns_rust.Base.Outcome.{Outcome, ok, err, panic, Error, ok_injective}
use acme_dns_rust.Facade.{DomainDto, Domain, Env, Facade, default_dto, try_from}
use acme_dns_rust.Facade.Memory.{Memory, Order, memory_facade, create_domain}
use acme_dns_rust.Facade.Single.{IsConsistent}
use acme_dns_rust.Facade.Consistency.{create_domain-IsConsistent}
use acme_dns_rust.Api.Routes.{
  HttpRequest, Response, text, owned, respond, register_handler, is_register, is_update,
  update_handler, update_or_not_found, routes,
}

abbrev pub present : Option String → Bool
present none = false
present (some value) = true

module _ {S : Type 0} (facade : Facade S) (to_json : DomainDto → Option String)
    (show_status : ℕ → String) where
  -- A request that has a handler: a POST whose path begins with `register`, or one whose path
  -- begins with `update` and that has both headers.
  abbrev pub is_served : HttpRequest → Bool
  is_served request =
      is_register facade to_json show_status request
      || is_update facade to_json show_status request
        && present (request.header "X-Api-User")
        && present (request.header "X-Api-Key")

  respond_status :
      (result : Outcome DomainDto) (response : Response)
      → respond facade to_json show_status result ≡ ok response
      → response.status ≢ 404
  respond_status (ok res) response e = ground (arith, Option-cases (to_json res))
  respond_status (err cause) response e = ground arith
  respond_status panic response e = cc

  register_status :
      (env : Env) (s : S) (response : Response)
      → (register_handler facade to_json show_status env s).0 ≡ ok response
      → response.status ≢ 404
  unfolding register_handler
  register_status env s response e = respond_status _ response e

  update_status :
      (to_update : Bool) (request : HttpRequest) (user key : Option String)
      → ((update_or_not_found facade to_json show_status to_update request user key).0.status ≡ 404)
        ↔ ((to_update && present user && present key) ≡ false)
  unfolding update_handler
  update_status true request (some user) (some key) = ground arith
  update_status true request (some user) none = (λ _. refl, λ _. refl)
  update_status true request none key = (λ _. refl, λ _. refl)
  update_status false request user key = (λ _. refl, λ _. refl)

  -- A request that is answered gets the status 404 exactly if it is neither a POST for register
  -- nor a POST for update with both headers.
  pub routes-not_found :
      (env : Env) (request : HttpRequest) (s : S) (response : Response)
      → (routes facade to_json show_status env request s).0.0 ≡ ok response
      → (response.status ≡ 404) ↔ (is_served request ≡ false)
  unfolding routes
  routes-not_found env request s response e =
      elim (Bool-cases (is_register facade to_json show_status request)) [
        | inl yes_register ↦
            let answer = register_status env s response (rw yes_register at e) in
            rw yes_register ((λ f. absurd (answer f)), (λ f. cc))
        | inr no_register ↦
            let known =
              update_status (is_update facade to_json show_status request) request
                (request.header "X-Api-User") (request.header "X-Api-Key") in
            let same = rw no_register at e in
            rw no_register (
              subst
                (λ answer. (answer.status ≡ 404) ↔ (
                  is_update facade to_json show_status request
                    && present (request.header "X-Api-User")
                    && present (request.header "X-Api-Key")
                  ≡ false))
                (ok_injective same) known)
      ]

  -- A request other than a registration changes nothing, and is answered.
  pub routes-pure :
      (env : Env) (request : HttpRequest) (s : S)
      → is_register facade to_json show_status request ≡ false
      → (routes facade to_json show_status env request s).1 ≡ s
  unfolding routes
  routes-pure env request s h = ground arith

module _ (order : Order) (to_json : DomainDto → Option String) (show_status : ℕ → String) where
  abbrev pub registered : Env → String → Domain
  registered env hashed = record {
    id = env.uuid 0;
    username = env.uuid 1;
    password = hashed;
    txt = none;
  }

  -- A registration whose password can be hashed and whose answer can be written is answered with
  -- the status 201 and the new credentials, and stores the domain with the hash in their place.
  register_stores :
      (env : Env) (s : Memory) (hashed json : String)
      → env.hash (env.uuid 2) ≡ ok hashed
      → to_json (default_dto env) ≡ some json
      → register_handler (memory_facade order) to_json show_status env s
        ≡ (ok (record { status = 201; body = text json }), create_domain (registered env hashed) s)
  unfolding register_handler memory_facade try_from default_dto
  register_stores env s hashed json h j = rw (h, j) refl

  find_created :
      (d : Domain) (s : Memory) (id : String)
      → get id (create_domain d s).domains ≡ (if str_eq d.id id then some d else get id s.domains)
  unfolding create_domain
  find_created d s id = get-insert d.id id d s.domains

  -- On a consistent store, a POST for register whose password can be hashed and whose answer can
  -- be written as JSON gets the status 201 and the new credentials; the store is consistent
  -- again, the new id has the domain with the hash and no text, and all other ids have the
  -- domains of before.
  pub routes-register :
      (env : Env) (request : HttpRequest) (s : Memory) (hashed json : String)
      → is_register (memory_facade order) to_json show_status request ≡ true
      → IsConsistent s
      → env.hash (env.uuid 2) ≡ ok hashed
      → to_json (default_dto env) ≡ some json
      → let (answer, s') = routes (memory_facade order) to_json show_status env request s in
        (answer.0 ≡ ok (record { status = 201; body = text json }))
        × IsConsistent s'
        × (get (env.uuid 0) s'.domains ≡ some (registered env hashed))
        × ((id : String) → env.uuid 0 ≢ id → get id s'.domains ≡ get id s.domains)
  unfolding routes
  routes-register env request s hashed json r c h j =
      rw (r, register_stores env s hashed json h j)
        (
          refl,
          create_domain-IsConsistent (registered env hashed) s c,
          find_created (registered env hashed) s (env.uuid 0) ∙ rw (eq_refl (env.uuid 0)) refl,
          λ id ne.
              find_created (registered env hashed) s id ∙ ground (arith, eq_iff (env.uuid 0) id),
        )

  -- A POST for `register` whose password cannot be hashed gets the status 500 and changes nothing.
  pub routes-register_error :
      (env : Env) (request : HttpRequest) (s : Memory) (cause : Error)
      → is_register (memory_facade order) to_json show_status request ≡ true
      → env.hash (env.uuid 2) ≡ err cause
      → routes (memory_facade order) to_json show_status env request s
        ≡ ((ok (record { status = 500; body = text "test" }), owned request.full_path), s)
  unfolding routes register_handler try_from default_dto
  routes-register_error env request s cause r h = rw (r, h) refl
