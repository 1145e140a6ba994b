-- ===== src/Facade/Workers/Tests.antt =====
-- Two workers: the second takes the job over after the first has been silent for over an hour.
use acme_dns_rust.Base.{
  ℕ, zero, suc, ◌≡◌, refl, ◌⊎◌, inl, Option, none, some, List, [], ◌∷◌, arith, String,
}
use acme_dns_rust.Base.Int.{pos}
use acme_dns_rust.Base.Map.{Map, string_key}
use acme_dns_rust.Base.Outcome.{ok}
use acme_dns_rust.Util.{to_i64, to_u64, sub_i64}
use acme_dns_rust.Facade.{State, Cert, Domain, Env, new_domain}
use acme_dns_rust.Facade.Memory.{Memory, Order, start_cert, stop_cert}
use acme_dns_rust.Facade.Single.{single, unstarted}
use acme_dns_rust.Facade.Workers.{Reachable, initial, next, start}
use acme_dns_rust.Facade.Workers.Exclusive.{stop_cert-one_of_two}

abbrev first : List Cert → Option Cert
first [] = none
first (c ∷ cs) = some c

abbrev order : Order
order = record { next = first; next_nil = refl; next_single = λ c. refl }

abbrev uuids : ℕ → String
uuids zero = "u0"
uuids (suc zero) = "u1"
uuids (suc (suc zero)) = "u2"
uuids (suc (suc (suc n))) = "u3"

abbrev at : ℕ → Env
at t = record { now = t; uuid = uuids; hash = λ password. ok "hashed" }

abbrev domains : Map String Domain
domains = ("u1", record { id = "u1"; username = "u2"; password = "hashed"; txt = none }) ∷ []

abbrev slow : Cert
slow = record {
  id = "u3";
  update = pos 1000;
  state = State.updating;
  cert = none;
  private = none;
  domain = "u1";
}

abbrev quick : Cert
quick = record slow { update = pos 9000 }

abbrev store : Memory
store = single quick domains

first_start : start_cert order (at 1000) (unstarted []) ≡ (ok (some slow), single slow domains)
unfolding start_cert new_domain to_i64 to_u64 sub_i64
first_start = refl

second_start : start_cert order (at 9000) (single slow domains) ≡ (ok (some quick), store)
unfolding start_cert new_domain to_i64 to_u64 sub_i64
second_start = refl

two_held : Reachable order store (quick ∷ slow ∷ [])
two_held =
    next (single slow domains) store (slow ∷ []) (quick ∷ slow ∷ [])
      (next (unstarted []) (single slow domains) [] (slow ∷ []) (initial [])
        (start (at 1000) slow (unstarted []) (single slow domains) [] (omega arith) first_start))
      (start (at 9000) quick (single slow domains) store (slow ∷ []) (omega arith) second_start)

stop_cert-one_of_two_example :
    (stop_cert order quick store ≡ (ok quick, store))
    ⊎ (stop_cert order slow store ≡ (ok slow, store))
stop_cert-one_of_two_example =
    stop_cert-one_of_two order store (quick ∷ slow ∷ []) (slow ∷ []) [] quick slow quick slow
      two_held (inl (refl, refl)) (inl (refl, refl)) (refl, refl) (refl, refl)
