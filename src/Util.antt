-- ===== src/Util.antt =====
-- src/util.rs: the casts between u64 and i64, and the conversion of errors.
pub mod Words
pub mod Errors
use acme_dns_rust.Base.{ℕ, ◌+◌, ◌-◌, ◌^◌, ◌%◌, ◌/◌, ltb, if◌then◌else◌}
use acme_dns_rust.Base.Outcome.{Outcome, ok, panic}
use acme_dns_rust.Base.Int.{ℤ, pos, negsuc}

abbrev pub hour_in_seconds : ℕ
hour_in_seconds = 3600

-- The bytes of a u64 read as an i64 in two's complement.
unfoldable pub to_i64 : ℕ → ℤ
to_i64 v = if ltb v (2 ^ 63) then pos v else negsuc (2 ^ 64 - v - 1)

unfoldable pub to_u64 : ℤ → ℕ
to_u64 (pos n) = n
to_u64 (negsuc n) = 2 ^ 64 - n - 1

-- `a - b` on i64, which wraps around in a release build.
unfoldable pub sub_i64 : ℤ → ℤ → ℤ
unfolding to_i64 to_u64
sub_i64 a b = to_i64 ((to_u64 a + 2 ^ 64 - to_u64 b) % 2 ^ 64)

-- The seconds since the epoch, of a clock that counts nanoseconds from there; `expect` panics
-- before it.
unfoldable pub now : ℤ → Outcome ℕ
now (pos n) = ok (n / 10 ^ 9)
now (negsuc n) = panic
