-- ===== src/Base/Outcome.antt =====
-- What fallible code returns: `Ok`, `Err`, or a panic (`unwrap` on `None`, an index out of range).
use acme_dns_rust.Base.{◌≡◌, refl, ◌⊎◌, inl, inr, String}

-- The kinds of `std::io::Error` that the sources construct.
pub data ErrorKind : Type 0 where
  not_found invalid_data unexpected_eof other : ErrorKind

-- The error types that reach the sources, by where they come from.
pub data Error : Type 0 where
  io : ErrorKind → String → Error
  sqlx : String → Error
  message : String → Error

pub data Outcome {ℓ} (A : Type ℓ) : Type ℓ where
  ok : A → Outcome A
  err : Error → Outcome A
  panic : Outcome A

-- The `?` operator: the first error or panic ends the chain.
infixl 10 ◌>>=◌ ◌>>◌
abbrev pub ◌>>=◌ {ℓ κ} :
    {A : Type ℓ} {B : Type κ} (step : Outcome A) (rest : A → Outcome B) → Outcome B
panic >>= rest = panic
err cause >>= rest = err cause
ok value >>= rest = rest value

abbrev pub ◌>>◌ {ℓ κ} : {A : Type ℓ} {B : Type κ} (step : Outcome A) (rest : Outcome B) → Outcome B
panic >> rest = panic
err cause >> rest = err cause
ok value >> rest = rest

module _ {ℓ} {A : Type ℓ} where
  pub Outcome-cases :
      (result : Outcome A)
      → ((value : A) × (result ≡ ok value))
        ⊎ (((cause : Error) × (result ≡ err cause)) ⊎ (result ≡ panic))
  Outcome-cases panic = inr (inr refl)
  Outcome-cases (err cause) = inr (inl (cause, refl))
  Outcome-cases (ok value) = inl (value, refl)

  -- A chain that succeeds has succeeded at its first step.
  pub bind_inversion {κ} :
      {B : Type κ} {last : B} (step : Outcome A) (rest : A → Outcome B)
      → (step >>= rest) ≡ ok last
      → (value : A) × (step ≡ ok value) × (rest value ≡ ok last)
  bind_inversion panic rest done = cc
  bind_inversion (err cause) rest done = cc
  bind_inversion (ok value) rest done = (value, refl, done)

pub then_inversion :
    {A B : Type 0} (step : Outcome A) (rest : Outcome B) {value : B}
    → (step >> rest) ≡ ok value
    → rest ≡ ok value
then_inversion panic rest e = cc
then_inversion (err cause) rest e = cc
then_inversion (ok value) rest e = e

pub ok_injective {ℓ} : {A : Type ℓ} {a b : A} → ok a ≡ ok b → a ≡ b
ok_injective e = cc
