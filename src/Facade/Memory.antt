-- ===== src/Facade/Memory.antt =====
-- `InMemoryFacade` of src/facade/cert.rs and src/facade/domain.rs. Each method holds the lock from
-- its first line to its last, so it is one step on the state.
use acme_dns_rust.Base.{
  ◌≡◌, Bool, true, false, ◌&&◌, Option, none, some, List, [], ◌∷◌, if◌then◌else◌, String,
}
use acme_dns_rust.Base.Int.{ℤ, ltb_ℤ}
use acme_dns_rust.Base.Map.{Map, get, insert, values, string_key}
use acme_dns_rust.Base.Outcome.{Outcome, ok, err, panic}
use acme_dns_rust.Util.{to_i64, sub_i64, hour_in_seconds}
use acme_dns_rust.Facade.{State, Cert, Domain, Env, new_domain, new_cert, Facade}

-- `InMemoryFacadeInner`
pub record Memory : Type 0 where
  pub certs : Map String Cert
  pub domains : Map String Domain

-- The first value that iteration over the certificates gives. The order of a `HashMap` is not
-- specified: any choice among the values is allowed.
pub record Order : Type 0 where
  pub next : List Cert → Option Cert
  pub next_nil : next [] ≡ none
  pub next_single : (c : Cert) → next (c ∷ []) ≡ some c

abbrev pub is_ok : State → Bool
is_ok State.ok = true
is_ok State.updating = false

abbrev pub eq_ℤ : ℤ → ℤ → Bool
eq_ℤ a b = if ltb_ℤ a b then false else if ltb_ℤ b a then false else true

-- `*m.get_mut(k).unwrap() = v`
abbrev pub assign : {V : Type 0} → String → V → Map String V → Outcome (Map String V)
assign k v m = elim (get k m) [ none ↦ panic | some _ ↦ ok (insert k v m) ]

unfoldable pub find_domain_by_id : String → Memory → Outcome (Option Domain) × Memory
find_domain_by_id id s = (ok (get id s.domains), s)

unfoldable pub create_domain : Domain → Memory → Memory
create_domain domain s = record s { domains = insert domain.id domain s.domains }

abbrev put_domains : Outcome (Map String Domain) → Memory → Outcome (Unit {0}) × Memory
put_domains (ok domains) s = (ok tt, record s { domains = domains })
put_domains (err e) s = (err e, s)
put_domains panic s = (panic, s)

unfoldable pub update_domain : Domain → Memory → Outcome (Unit {0}) × Memory
update_domain domain s = put_domains (assign domain.id domain s.domains) s

-- `CertFacadeMemory::first_cert`
unfoldable pub first_cert : Order → Memory → Option Cert
first_cert order s = order.next (values s.certs)

abbrev put_certs : Outcome (Map String Cert) → Memory → Outcome (Unit {0}) × Memory
put_certs (ok certs) s = (ok tt, record s { certs = certs })
put_certs (err e) s = (err e, s)
put_certs panic s = (panic, s)

-- `CertFacadeMemory::update_cert`
unfoldable pub update_cert : Cert → Memory → Outcome (Unit {0}) × Memory
update_cert cert s = put_certs (assign cert.id cert s.certs) s

-- `CertFacadeMemory::create_cert`
unfoldable pub create_cert : Cert → Memory → Memory
create_cert cert s = record s { certs = insert cert.id cert s.certs }

-- Go on after a step, or stop with its error.
abbrev pub after :
    {A B : Type 0} → Outcome A × Memory → (A → Memory → Outcome B × Memory) → Outcome B × Memory
after (ok a, s) k = k a s
after (err e, s) k = (err e, s)
after (panic, s) k = (panic, s)

-- A certificate in the state `Updating` is taken over if it was touched over an hour ago.
unfoldable pub timed_out : Env → Cert → Bool
timed_out env cert = ltb_ℤ cert.update (sub_i64 (to_i64 env.now) (to_i64 hour_in_seconds))

unfoldable pub start_existing : Env → Cert → Memory → Outcome (Option Cert) × Memory
unfolding timed_out update_cert
start_existing env cert s =
    if is_ok cert.state
    then (let cert' = record cert { state = State.updating } in
        after (update_cert cert' s) (λ _ s'. (ok (some cert'), s')))
    else if timed_out env cert
    then (let cert' = record cert { update = to_i64 env.now; state = State.updating } in
        after (update_cert cert' s) (λ _ s'. (ok (some cert'), s')))
    else (ok none, s)

unfoldable pub start_missing : Env → Memory → Outcome (Option Cert) × Memory
unfolding new_cert create_domain create_cert
start_missing env s =
    after (new_domain env, s)
      λ domain s'.
        let cert = new_cert env domain in
        (ok (some cert), create_cert cert (create_domain domain s'))

unfoldable pub start_cert : Order → Env → Memory → Outcome (Option Cert) × Memory
unfolding first_cert start_existing start_missing
start_cert order env s = elim (first_cert order s) [
  | none ↦ start_missing env s
  | some cert ↦ start_existing env cert s
]

-- Is the stored certificate the job of `memory_cert`?
unfoldable pub still_running : Cert → Cert → Bool
still_running stored memory_cert =
    (if is_ok stored.state then false else true) && eq_ℤ stored.update memory_cert.update

unfoldable pub stop_cert : Order → Cert → Memory → Outcome Cert × Memory
unfolding first_cert still_running update_cert
stop_cert order memory_cert s = elim (first_cert order s) [
  | none ↦ (ok memory_cert, s)
  | some stored ↦
      if still_running stored memory_cert
      then (let cert' = record memory_cert { state = State.ok } in
          after (update_cert cert' s) (λ _ s'. (ok cert', s')))
      else (ok memory_cert, s)
]

-- The implementation of the interface.
unfoldable pub memory_facade : Order → Facade Memory
memory_facade order = record {
  find_domain_by_id = find_domain_by_id;
  create_domain = λ domain s. (ok tt, create_domain domain s);
  update_domain = update_domain;
  first_cert = λ s. (ok (first_cert order s), s);
  update_cert = update_cert;
  create_cert = λ cert s. (ok tt, create_cert cert s);
  start_cert = start_cert order;
  stop_cert = stop_cert order;
}
