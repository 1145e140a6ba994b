-- ===== src/Util/Words.antt =====
-- The casts are inverse to one another, and a clock reading keeps its order as an i64.
use acme_dns_rust.Base.{ℕ, ◌+◌, ◌*◌, ◌/◌, ◌^◌, ◌<◌, ◌≤◌, ◌≡◌, arith}
use acme_dns_rust.Base.Outcome.{ok, ok_injective}
use acme_dns_rust.Base.Int.{ℤ, pos, negsuc, pos_part, neg_part}
use acme_dns_rust.Util.{to_i64, to_u64, sub_i64, hour_in_seconds, now}

-- The values of an i64.
abbrev pub IsI64 : ℤ → Type 0
IsI64 (pos n) = n < 2 ^ 63
IsI64 (negsuc n) = n < 2 ^ 63

pub to_u64-to_i64 : (v : ℕ) → v < 2 ^ 64 → to_u64 (to_i64 v) ≡ v
unfolding to_i64 to_u64
to_u64-to_i64 v h = ground arith

pub to_i64-to_u64 : (z : ℤ) → IsI64 z → to_i64 (to_u64 z) ≡ z
unfolding to_i64 to_u64
to_i64-to_u64 (pos n) h = ground arith
to_i64-to_u64 (negsuc n) h = ground arith

pub to_i64-IsI64 : (v : ℕ) → v < 2 ^ 64 → IsI64 (to_i64 v)
unfolding to_i64
to_i64-IsI64 v h = ground arith

to_u64-lt : (z : ℤ) → IsI64 z → to_u64 z < 2 ^ 64
unfolding to_u64
to_u64-lt (pos n) h = omega arith
to_u64-lt (negsuc n) h = omega arith

-- A u64 goes through an i64 unharmed, and an i64 through a u64, and both casts stay within the
-- range of their type.
pub casts_inverse :
    (v : ℕ) (z : ℤ)
    → v < 2 ^ 64
    → IsI64 z
    → (to_u64 (to_i64 v) ≡ v) × IsI64 (to_i64 v) × (to_i64 (to_u64 z) ≡ z) × (to_u64 z < 2 ^ 64)
casts_inverse v z hv hz =
    (to_u64-to_i64 v hv, to_i64-IsI64 v hv, to_i64-to_u64 z hz, to_u64-lt z hz)

pub to_i64_small : (v : ℕ) → v < 2 ^ 63 → to_i64 v ≡ pos v
unfolding to_i64
to_i64_small v h = ground arith

-- One hour before a clock reading, as the signed number it is.
abbrev pub HourBefore : ℕ → ℤ → Type 0
HourBefore now z = pos_part z + hour_in_seconds ≡ now + neg_part z

pub sub_i64_hour :
    (now : ℕ) → now < 2 ^ 63 → HourBefore now (sub_i64 (to_i64 now) (to_i64 hour_in_seconds))
unfolding sub_i64
sub_i64_hour now h = ground arith

-- The difference of two signed numbers, without bounds.
abbrev pub IsDifference : ℤ → ℤ → ℤ → Type 0
IsDifference a b z = pos_part z + pos_part b + neg_part a ≡ pos_part a + neg_part b + neg_part z

-- The whole seconds that have passed.
pub now-seconds : (n s : ℕ) → now (pos n) ≡ ok s → (s * 10 ^ 9 ≤ n) × (n < (s + 1) * 10 ^ 9)
unfolding now
now-seconds n s e = let same : n / 10 ^ 9 ≡ s = ok_injective e in (omega arith, omega arith)
