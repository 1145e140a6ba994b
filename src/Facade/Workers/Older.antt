-- ===== src/Facade/Workers/Older.antt =====
-- Jobs by their time: at most one has the time of the stored certificate, the others are older.
use acme_dns_rust.Base.{ℕ, ◌<◌, ◌≡◌, sym, subst, ◌⊎◌, inl, inr, List, [], ◌∷◌, arith, String}
use acme_dns_rust.Base.Int.{pos}
use acme_dns_rust.Facade.{Cert}
use acme_dns_rust.Facade.Workers.{Removes}

abbrev pub Older : String → ℕ → Cert → Type 0
Older id u j = (j.id ≡ id) × ((v : ℕ) × (j.update ≡ pos v) × (v < u))

abbrev pub Current : String → ℕ → Cert → Type 0
Current id u j = (j.id ≡ id) × (j.update ≡ pos u)

abbrev pub AllOlder : String → ℕ → List Cert → Type 0
AllOlder id u [] = Unit
AllOlder id u (j ∷ jobs) = Older id u j × AllOlder id u jobs

abbrev pub AtMostOne : String → ℕ → List Cert → Type 0
AtMostOne id u [] = Unit
AtMostOne id u (j ∷ jobs) =
    (Older id u j × AtMostOne id u jobs) ⊎ (Current id u j × AllOlder id u jobs)

module _ (id : String) where
  pub AllOlder-AtMostOne : (u : ℕ) (jobs : List Cert) → AllOlder id u jobs → AtMostOne id u jobs
  AllOlder-AtMostOne u [] h = tt
  AllOlder-AtMostOne u (j ∷ jobs) (old, h) = inl (old, AllOlder-AtMostOne u jobs h)

  pub AllOlder-later :
      (u t : ℕ) (jobs : List Cert) → u < t → AllOlder id u jobs → AllOlder id t jobs
  AllOlder-later u t [] late h = tt
  AllOlder-later u t (j ∷ jobs) late ((same, (v, time, before)), h) =
      ((same, (v, time, omega arith)), AllOlder-later u t jobs late h)

  pub AtMostOne-later :
      (u t : ℕ) (jobs : List Cert) → u < t → AtMostOne id u jobs → AllOlder id t jobs
  AtMostOne-later u t [] late h = tt
  AtMostOne-later u t (j ∷ jobs) late (inl ((same, (v, time, before)), h)) =
      ((same, (v, time, omega arith)), AtMostOne-later u t jobs late h)
  AtMostOne-later u t (j ∷ jobs) late (inr ((same, time), h)) =
      ((same, (u, time, late)), AllOlder-later u t jobs late h)

  pub AllOlder-Removes :
      (u : ℕ) (j : Cert) (jobs rest : List Cert)
      → Removes j jobs rest
      → AllOlder id u jobs
      → Older id u j × AllOlder id u rest
  AllOlder-Removes u j [] rest r h = absurd r
  AllOlder-Removes u j (x ∷ jobs) rest (inl (is, tail)) (old, h) =
      (subst (Older id u) is old, subst (AllOlder id u) tail h)
  AllOlder-Removes u j (x ∷ jobs) rest (inr (rest', split, r)) (old, h) =
      let (old', h') = AllOlder-Removes u j jobs rest' r h in
      (old', subst (AllOlder id u) (sym split) (old, h'))

  -- A job taken out of the jobs is the current one, and the others are older, or is older itself.
  pub AtMostOne-Removes :
      (u : ℕ) (j : Cert) (jobs rest : List Cert)
      → Removes j jobs rest
      → AtMostOne id u jobs
      → (Current id u j × AllOlder id u rest) ⊎ (Older id u j × AtMostOne id u rest)
  AtMostOne-Removes u j [] rest r h = absurd r
  AtMostOne-Removes u j (x ∷ jobs) rest (inl (is, tail)) (inl (old, h)) =
      inr (subst (Older id u) is old, subst (AtMostOne id u) tail h)
  AtMostOne-Removes u j (x ∷ jobs) rest (inl (is, tail)) (inr (now, h)) =
      inl (subst (Current id u) is now, subst (AllOlder id u) tail h)
  AtMostOne-Removes u j (x ∷ jobs) rest (inr (rest', split, r)) (inl (old, h)) =
      elim (AtMostOne-Removes u j jobs rest' r h) [
        | inl (now, h') ↦ inl (now, subst (AllOlder id u) (sym split) (old, h'))
        | inr (old', h') ↦ inr (old', subst (AtMostOne id u) (sym split) (inl (old, h')))
      ]
  AtMostOne-Removes u j (x ∷ jobs) rest (inr (rest', split, r)) (inr (now, h)) =
      let (old, h') = AllOlder-Removes u j jobs rest' r h in
      inr (old, subst (AtMostOne id u) (sym split) (inr (now, h')))
