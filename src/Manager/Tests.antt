-- ===== src/Manager/Tests.antt =====
-- A renewal with an authority that asks for one proof, over the in-memory facade.
use acme_dns_rust.Base.{
  sym, ap, Bool, if◌then◌else◌, ℕ, zero, suc, ◌≡◌, refl, ◌≢◌, true, false, Option, none, some, List,
  [], ◌∷◌, arith, String, eq_iff,
}
use acme_dns_rust.Base.Int.{pos}
use acme_dns_rust.Base.Map.{string_key}
use acme_dns_rust.Base.Outcome.{Outcome, ok_injective}
use acme_dns_rust.Util.{to_i64, to_u64, sub_i64}
use acme_dns_rust.Facade.{State, Cert, Domain, Env, new_domain}
use acme_dns_rust.Facade.Memory.{
  Memory, Order, memory_facade, start_cert, update_domain, first_cert,
}
use acme_dns_rust.Facade.Single.{single, unstarted, IsConsistent}
use acme_dns_rust.Dns.Records.{RecordType, Record, TrustDns}
use acme_dns_rust.Dns.Authority.{
  Query, Authority, acme_challenge_label, txt_record, search_records, lookup_pre,
}
use acme_dns_rust.Dns.Authority.Answers.{IsOpen}
use acme_dns_rust.Manager.{
  Acme, done, out_of_fuel, confirm_loop, with_proof, manage, next_order, first_auth,
}
use acme_dns_rust.Manager.Loop.{Orders, confirm_loop-ends}
use acme_dns_rust.Manager.Renewal.{renewed, manage-renews, search_records-proof}

abbrev first : List Cert → Option Cert
first [] = none
first (c ∷ cs) = some c

abbrev store_order : Order
store_order = record { next = first; next_nil = refl; next_single = λ c. refl }

-- An order is the number of proofs that are still asked for.
abbrev confirmed : ℕ → Option String
confirmed zero = some "csr"
confirmed (suc n) = none

abbrev fewer : ℕ → ℕ
fewer zero = zero
fewer (suc n) = n

abbrev acme : Acme Memory ℕ String String
acme = record {
  new_order = Outcome.ok 1;
  confirm_validations = confirmed;
  authorizations = λ order. Outcome.ok ("token" ∷ []);
  dns_proof = λ auth. auth;
  validate = λ auth s order. Outcome.ok (fewer order);
  refresh = λ order. Outcome.ok order;
  finalize = λ csr. Outcome.ok ("key", "chain");
}

abbrev uuids : ℕ → String
uuids zero = "u0"
uuids (suc zero) = "u1"
uuids (suc (suc zero)) = "u2"
uuids (suc (suc (suc n))) = "u3"

abbrev env : Env
env = record { now = 1000; uuid = uuids; hash = λ password. Outcome.ok "hashed" }

abbrev domain : Domain
domain = record { id = "u1"; username = "u2"; password = "hashed"; txt = none }

abbrev proved : Domain
proved = record domain { txt = some "token" }

abbrev cert : Cert
cert = record {
  id = "u3";
  update = pos 1000;
  state = State.updating;
  cert = none;
  private = none;
  domain = "u1";
}

nothing-IsConsistent : IsConsistent (unstarted [])
nothing-IsConsistent = record { held = tt; named = λ k d e. ground arith }

started :
    start_cert store_order env (unstarted [])
    ≡ (Outcome.ok (some cert), single cert (("u1", domain) ∷ []))
unfolding start_cert new_domain to_i64 to_u64 sub_i64
started = refl

looped :
    confirm_loop acme (memory_facade store_order) 2 domain 1 (single cert (("u1", domain) ∷ []))
    ≡ (done (Outcome.ok "csr"), single cert (("u1", proved) ∷ []))
unfolding confirm_loop first_auth next_order memory_facade update_domain
looped = refl

manage-renews_example :
    (manage acme (memory_facade store_order) 2 env (unstarted []) ≡ (
      done (Outcome.ok tt),
      single (renewed acme store_order cert "key" "chain") (("u1", proved) ∷ []),
    ))
    × (first_cert store_order
          (single (renewed acme store_order cert "key" "chain") (("u1", proved) ∷ []))
        ≡ some (renewed acme store_order cert "key" "chain"))
manage-renews_example =
    manage-renews acme store_order env 2 (unstarted []) (single cert (("u1", domain) ∷ []))
      (single cert (("u1", proved) ∷ [])) cert domain 1 "csr" "key" "chain" nothing-IsConsistent
      started refl refl looped refl

-- An order with a copy: whether the server has found the proof valid, and whether the copy says so.
abbrev copy_confirmed : Bool × Bool → Option String
copy_confirmed (server, copy) = if copy then some "csr" else none

abbrev copied : Acme Memory (Bool × Bool) String String
copied = record {
  new_order = Outcome.ok (false, false);
  confirm_validations = copy_confirmed;
  authorizations = λ order. Outcome.ok ("token" ∷ []);
  dns_proof = λ auth. auth;
  validate = λ auth s order. Outcome.ok (true, order.1);
  refresh = λ order. Outcome.ok (order.0, order.0);
  finalize = λ csr. Outcome.ok ("key", "chain");
}

copy_is_confirmed : (order : Bool × Bool) → order.1 ≡ true → copy_confirmed order ≢ none
copy_is_confirmed (server, copy) e = ground arith

copied-Orders : Orders copied
copied-Orders = record {
  at_server = λ order. order.0;
  in_copy = λ order. order.1;
  confirmed = copy_is_confirmed;
  validated = λ auth s order order' e. ap (λ o. o.0) (sym (ok_injective e));
  refreshed = λ order order' e. ap (λ o. o.1) (sym (ok_injective e));
}

confirm_loop-ends_example :
    (confirm_loop copied
      (memory_facade store_order)
      2
      domain
      (false, false)
      (single cert (("u1", domain) ∷ []))).0
    ≢ out_of_fuel
confirm_loop-ends_example =
    confirm_loop-ends copied (memory_facade store_order) copied-Orders 0 domain (false, false)
      (single cert (("u1", domain) ∷ []))

-- Sets of records as lists, and names that are told apart by nothing.
abbrev lists : TrustDns (List Record)
lists = record {
  name_is_empty = λ name. false;
  name_eq = λ m n. false;
  show_name = λ name. "host";
  with_ttl = λ name type ttl. [];
  add_rdata = λ r set. (set, true);
  is_empty = λ set. true;
  set_name = λ set. record { labels = []; fqdn = true };
  records = λ set. set;
  from_record = λ r. r ∷ [];
}

abbrev authority : Authority (List Record)
authority = record {
  origin = record { labels = []; fqdn = true };
  records = [];
  lookup_host = λ host. Outcome.ok [];
  from_utf8 = λ label. none;
}

abbrev query : Query
query = record {
  name = record { labels = acme_challenge_label ∷ []; fqdn = true };
  query_type = RecordType.txt;
}

query-IsOpen : IsOpen lists authority query acme_challenge_label
unfolding lookup_pre
query-IsOpen = record { type = refl; labelled = refl; named = refl; unanswered = refl }

cert-IsConsistent : IsConsistent (single cert (("u1", domain) ∷ []))
cert-IsConsistent = record {
  held = (refl, λ e. ground arith);
  named = λ k d e. ground (arith, eq_iff "u1" k);
}

search_records-proof_example :
    (search_records lists authority
      (memory_facade store_order)
      query
      (update_domain
        (with_proof acme (memory_facade store_order) domain "token")
        (single cert (("u1", domain) ∷ []))).1).0
    ≡ Outcome.ok (txt_record lists authority query.name "token")
search_records-proof_example =
    search_records-proof acme lists authority store_order "token" cert domain (("u1", domain) ∷ [])
      query cert-IsConsistent refl query-IsOpen
