-- ===== src/Facade/Postgres/Rows/Lists.antt =====
-- Rows with a key, in a list.
use acme_dns_rust.Base.{
  ◌≡◌, refl, sym, ap, ◌∙◌, ◌≢◌, inl, inr, Bool-cases, Option, none, some, List, [], ◌∷◌, ◌++◌,
  if◌then◌else◌, arith, String, str_eq, eq_iff, eq_refl,
}

module _ {A : Type 0} (id : A → String) where
  abbrev pub find_by : String → List A → Option A
  find_by k [] = none
  find_by k (x ∷ xs) = if str_eq (id x) k then some x else find_by k xs

  abbrev pub update_by : A → List A → List A
  update_by a [] = []
  update_by a (x ∷ xs) = (if str_eq (id x) (id a) then a else x) ∷ update_by a xs

  pub find_by_head : (x : A) (xs : List A) → find_by (id x) (x ∷ xs) ≡ some x
  find_by_head x xs = rw (eq_refl (id x)) refl

  update_by_ne :
      (a : A) (k : String) (xs : List A) → id a ≢ k → find_by k (update_by a xs) ≡ find_by k xs
  update_by_ne a k [] ne = refl
  update_by_ne a k (x ∷ xs) ne =
      ground (arith, update_by_ne a k xs ne, eq_iff (id x) (id a), eq_iff (id a) k, eq_iff (id x) k)

  update_by_own :
      (a : A) (xs : List A) → find_by (id a) xs ≢ none → find_by (id a) (update_by a xs) ≡ some a
  update_by_own a [] there = absurd (there refl)
  update_by_own a (x ∷ xs) there = elim (Bool-cases (str_eq (id x) (id a))) [
    | inl hit ↦ rw (hit, eq_refl (id a)) refl
    | inr miss ↦ rw (miss, miss) (update_by_own a xs (rw miss at there))
  ]

  pub find_by-update_by :
      (a : A) (k : String) (xs : List A)
      → find_by (id a) xs ≢ none
      → find_by k (update_by a xs) ≡ (if str_eq (id a) k then some a else find_by k xs)
  find_by-update_by a k xs there = elim (Bool-cases (str_eq (id a) k)) [
    | inl hit ↦ rw hit (
        ap (λ j. find_by j (update_by a xs)) (sym ((eq_iff (id a) k).0 hit))
        ∙ update_by_own a xs there)
    | inr miss ↦ rw miss (update_by_ne a k xs (λ e. (let e' = (eq_iff (id a) k).1 e in cc)))
  ]

  pub find_by-append :
      (a : A) (k : String) (xs : List A)
      → find_by (id a) xs ≡ none
      → find_by k (xs ++ a ∷ []) ≡ (if str_eq (id a) k then some a else find_by k xs)
  find_by-append a k [] new = refl
  find_by-append a k (x ∷ xs) new =
      ground (arith, find_by-append a k xs, eq_iff (id x) (id a), eq_iff (id a) k, eq_iff (id x) k)
