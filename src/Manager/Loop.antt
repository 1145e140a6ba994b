-- ===== src/Manager/Loop.antt =====
-- The loop of `validate`: it ends, and what it does to the store is updates of domains.
use acme_dns_rust.Base.{Bool, true, ◌∙◌, ℕ, zero, suc, ◌≡◌, refl, ◌≢◌, none, Option-cases, inl, inr}
use acme_dns_rust.Base.Outcome.{Outcome, ok, err, panic, ◌>>◌, then_inversion, bind_inversion}
use acme_dns_rust.Facade.{Domain, Facade}
use acme_dns_rust.Manager.{
  Acme, Run, out_of_fuel, first_auth, with_proof, next_order, go_on, run_round, confirm_loop,
}

module _ {S NewOrder Auth Csr : Type 0} (acme : Acme S NewOrder Auth Csr) (facade : Facade S)
    (P : S → Type 0) (keep : (d : Domain) (s : S) → P s → P (facade.update_domain d s).1) where
  abbrev Keeps : (NewOrder → S → Run Csr × S) → Type 0
  Keeps again = (order : NewOrder) (s : S) → P s → P (again order s).1

  go_on-Keeps :
      (r : Outcome NewOrder) (s : S) (again : NewOrder → S → Run Csr × S)
      → P s
      → Keeps again
      → P (go_on acme facade (r, s) again).1
  go_on-Keeps (ok order) s again p k = k order s p
  go_on-Keeps (err e) s again p k = p
  go_on-Keeps panic s again p k = p

  run_round-Keeps :
      (auth : Outcome Auth) (d : Domain) (order : NewOrder) (s : S)
      (again : Domain → NewOrder → S → Run Csr × S)
      → P s
      → ((d' : Domain) → Keeps (again d'))
      → P (run_round acme facade auth d order s again).1
  run_round-Keeps (ok auth) d order s again p k =
      go_on-Keeps _ _ (again (with_proof acme facade d auth)) (keep _ s p) (k _)
  run_round-Keeps (err e) d order s again p k = p
  run_round-Keeps panic d order s again p k = p

  -- What every update of a domain keeps, the loop keeps.
  pub confirm_loop-Keeps : (fuel : ℕ) (d : Domain) → Keeps (confirm_loop acme facade fuel d)
  unfolding confirm_loop
  confirm_loop-Keeps zero d order s p = p
  confirm_loop-Keeps (suc fuel) d order s p = elim (Option-cases (acme.confirm_validations order)) [
    | inl waiting ↦
        rw (waiting, confirm_loop)
          (run_round-Keeps (first_auth acme facade order) d order s (confirm_loop acme facade fuel)
            p (confirm_loop-Keeps fuel))
    | inr (csr, ready) ↦ rw (ready, confirm_loop) p
  ]

-- An order of acme-lib is a copy of what the server said last, and an order of one name has one
-- authorization. `validate` waits until the server has found it valid and leaves the copy as it is,
-- `refresh` makes the copy anew, and `confirm_validations` reads the copy alone.
pub record Orders {S NewOrder Auth Csr : Type 0} (acme : Acme S NewOrder Auth Csr) : Type 0 where
  pub at_server : NewOrder → Bool
  pub in_copy : NewOrder → Bool
  pub confirmed : (order : NewOrder) → in_copy order ≡ true → acme.confirm_validations order ≢ none
  pub validated :
      (auth : Auth) (s : S) (order order' : NewOrder)
      → acme.validate auth s order ≡ ok order'
      → at_server order' ≡ true
  pub refreshed :
      (order order' : NewOrder) → acme.refresh order ≡ ok order' → in_copy order' ≡ at_server order

module _ {S NewOrder Auth Csr : Type 0} (acme : Acme S NewOrder Auth Csr) (facade : Facade S) where
  go_on-ends :
      (r : Outcome NewOrder) (s : S) (again : NewOrder → S → Run Csr × S)
      → ((order : NewOrder) → r ≡ ok order → (again order s).0 ≢ out_of_fuel)
      → (go_on acme facade (r, s) again).0 ≢ out_of_fuel
  go_on-ends (ok order) s again h = h order refl
  go_on-ends (err e) s again h = λ p. cc
  go_on-ends panic s again h = λ p. cc

module _ {S NewOrder Auth Csr : Type 0} (acme : Acme S NewOrder Auth Csr) (facade : Facade S)
    (orders : Orders acme) where
  -- A round that leads to a new order leaves a copy that is confirmed.
  next_order-in_copy :
      (auth : Auth) (s : S) (order order' : NewOrder)
      → next_order acme facade auth s order ≡ ok order'
      → orders.in_copy order' ≡ true
  unfolding next_order
  next_order-in_copy auth s order order' e =
      let (middle, first, second) = bind_inversion (acme.validate auth s order) acme.refresh e in
      orders.refreshed middle order' second ∙ orders.validated auth s order middle first

  run_round-ends :
      (auth : Outcome Auth) (d : Domain) (order : NewOrder) (s : S)
      (again : Domain → NewOrder → S → Run Csr × S)
      → ((d' : Domain) (order' : NewOrder) (s' : S)
          → orders.in_copy order' ≡ true
          → (again d' order' s').0 ≢ out_of_fuel)
      → (run_round acme facade auth d order s again).0 ≢ out_of_fuel
  run_round-ends (ok auth) d order s again h =
      let d' = with_proof acme facade d auth in
      let (updated, s') = facade.update_domain d' s in
      go_on-ends acme facade (updated >> next_order acme facade auth s' order) s' (again d')
        λ order' e.
          h d' order' s' (next_order-in_copy auth s' order order' (then_inversion updated _ e))
  run_round-ends (err e) d order s again h = λ p. cc
  run_round-ends panic d order s again h = λ p. cc

  -- An order that is confirmed in the copy needs no round.
  confirm_loop-ends_confirmed :
      (fuel : ℕ) (d : Domain) (order : NewOrder) (s : S)
      → orders.in_copy order ≡ true
      → (confirm_loop acme facade (suc fuel) d order s).0 ≢ out_of_fuel
  unfolding confirm_loop
  confirm_loop-ends_confirmed fuel d order s h =
      elim (Option-cases (acme.confirm_validations order)) [
        | inl waiting ↦ absurd (orders.confirmed order h waiting)
        | inr (csr, ready) ↦ rw (ready, confirm_loop) (λ p. cc)
      ]

  -- If a validation that succeeds leaves the order valid at the server, a refresh brings the copy
  -- of the order up to what the server says, and an order that is valid in its copy is confirmed,
  -- then fuel for two looks at the order is enough, from any order and over any facade: the loop
  -- ends with a result after at most one round.
  pub confirm_loop-ends :
      (fuel : ℕ) (d : Domain) (order : NewOrder) (s : S)
      → (confirm_loop acme facade (suc (suc fuel)) d order s).0 ≢ out_of_fuel
  unfolding confirm_loop
  confirm_loop-ends fuel d order s = elim (Option-cases (acme.confirm_validations order)) [
    | inl waiting ↦
        rw (waiting, confirm_loop)
          (run_round-ends (first_auth acme facade order) d order s
            (confirm_loop acme facade (suc fuel)) (confirm_loop-ends_confirmed fuel))
    | inr (csr, ready) ↦ rw (ready, confirm_loop) (λ p. cc)
  ]
