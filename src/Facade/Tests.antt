-- ===== src/Facade/Tests.antt =====
-- Runs of the in-memory facade, and its theorems at concrete stores.
use acme_dns_rust.Base.{
  ℕ, zero, suc, ◌≡◌, refl, ◌↔◌, Option, none, some, List, [], ◌∷◌, arith, String, eq_iff,
}
use acme_dns_rust.Base.Int.{pos}
use acme_dns_rust.Base.Map.{Map, string_key}
use acme_dns_rust.Base.Outcome.{Outcome}
use acme_dns_rust.Util.{to_i64, to_u64, sub_i64}
use acme_dns_rust.Facade.{State, Cert, Domain, Env, new_domain}
use acme_dns_rust.Facade.Memory.{Order, start_cert, stop_cert, first_cert}
use acme_dns_rust.Facade.Single.{single, unstarted, IsConsistent, taken, taken_at, finished}
use acme_dns_rust.Facade.Lease.{HourPast}
use acme_dns_rust.Facade.Jobs.{
  Starts, StoredIs, start_cert-again, stop_cert-finishes, start_cert-overlap,
}

program : Unit {0}
unfolding start_cert stop_cert new_domain to_i64 to_u64 sub_i64
program = tt

abbrev first : List Cert → Option Cert
first [] = none
first (c ∷ cs) = some c

abbrev order : Order
order = record { next = first; next_nil = refl; next_single = λ c. refl }

abbrev uuids : ℕ → String
uuids zero = "u0"
uuids (suc zero) = "u1"
uuids (suc (suc zero)) = "u2"
uuids (suc (suc (suc n))) = "u3"

abbrev at : ℕ → Env
at t = record { now = t; uuid = uuids; hash = λ password. Outcome.ok "hashed" }

abbrev domain : Domain
domain = record { id = "u1"; username = "u2"; password = "hashed"; txt = none }

abbrev domains : Map String Domain
domains = ("u1", domain) ∷ []

abbrev created : Cert
created = record {
  id = "u3";
  update = pos 1000;
  state = State.updating;
  cert = none;
  private = none;
  domain = "u1";
}

abbrev renewed : Cert
renewed = record created { update = pos 9000 }

abbrev filled : Cert
filled = record created { cert = some "chain"; private = some "key" }

first_start : Starts order (at 1000) (unstarted []) created (single created domains)
unfolding program
first_start = refl

second_start : Starts order (at 9000) (single created domains) renewed (single renewed domains)
unfolding program
second_start = refl

stop :
    stop_cert order filled (single created domains)
    ≡ (Outcome.ok (finished filled), single (finished filled) domains)
unfolding program
stop = refl

nothing-IsConsistent : IsConsistent (unstarted [])
nothing-IsConsistent = record { held = tt; named = λ k d e. ground arith }

created-IsConsistent : IsConsistent (single created domains)
created-IsConsistent = record {
  held = (refl, λ e. ground arith);
  named = λ k d e. ground (arith, eq_iff "u1" k);
}

nothing-StoredIs : StoredIs order (unstarted []) State.updating
unfolding first_cert
nothing-StoredIs x e = cc

start_cert-again_example :
    (start_cert order (at 4600) (single created domains)
      ≡ (Outcome.ok none, single created domains))
    ↔ (¬ HourPast (pos 1000) 4600)
start_cert-again_example =
    start_cert-again order (at 1000) (unstarted []) nothing-IsConsistent created
      (single created domains) first_start (at 4600) (omega arith)

stop_cert-finishes_example :
    (stop_cert order filled (single created domains)
      ≡ (Outcome.ok (finished filled), single (finished filled) domains))
    × (first_cert order (single (finished filled) domains) ≡ some (finished filled))
stop_cert-finishes_example =
    stop_cert-finishes order (at 1000) (unstarted []) nothing-IsConsistent created
      (single created domains) first_start filled refl refl

abbrev idle : Cert
idle = record created { state = State.ok }

start_cert-overlap_example :
    Starts order (at 9000) (single idle domains) (taken idle) (single (taken idle) domains)
    × Starts order
        (at 9000)
        (single (taken idle) domains)
        (taken_at (at 9000) idle)
        (single (taken_at (at 9000) idle) domains)
start_cert-overlap_example =
    start_cert-overlap order (at 9000) domains idle refl (omega arith) (omega arith)
