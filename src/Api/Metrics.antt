-- ===== src/Api/Metrics.antt =====
-- src/api/metrics.rs: the text of the metrics endpoint without the metrics that are zero.
pub mod Lines
mod Tests
use acme_dns_rust.Base.{
  ℕ, zero, suc, ◌+◌, ◌-◌, Bool, true, false, ◌&&◌, ◌||◌, Option, none, some, List, [], ◌∷◌, ◌++◌,
  ◌==◌, if◌then◌else◌, length, take, String,
}

abbrev pub Bytes : Type 0
Bytes = List ℕ

abbrev pub bytes_eq : Bytes → Bytes → Bool
bytes_eq [] [] = true
bytes_eq (a ∷ as') (b ∷ bs) = a == b && bytes_eq as' bs
bytes_eq _ _ = false

-- `xs.ends_with(suffix)`: one of the tails of `xs` is the suffix.
unfoldable pub ends_with : Bytes → Bytes → Bool
ends_with [] suffix = bytes_eq [] suffix
ends_with (x ∷ xs) suffix = bytes_eq (x ∷ xs) suffix || ends_with xs suffix

-- `BufRead::read_until` on a slice: what it appends, up to the delimiter and with it, and what it
-- leaves. It does not fail.
unfoldable pub read_until : ℕ → Bytes → Bytes × Bytes
read_until delimiter [] = ([], [])
read_until delimiter (x ∷ xs) =
    let (line, rest) = read_until delimiter xs in
    if x == delimiter then (x ∷ [], xs) else (x ∷ line, rest)

abbrev pub newline : ℕ
newline = 10

-- b" 0\n" and b" 0"
abbrev pub zero_line : Bytes
zero_line = 32 ∷ 48 ∷ 10 ∷ []

abbrev pub zero_end : Bytes
zero_end = 32 ∷ 48 ∷ []

abbrev pub is_zero_metric : Bytes → Bool
is_zero_metric res = ends_with res zero_line || ends_with res zero_end

-- One round of the loop after the read: `res` holds the new line, of length `len`, at its end.
unfoldable pub drop_zero_metric : ℕ → Bytes → Bytes
drop_zero_metric len res = if is_zero_metric res then take (length res - len) res else res

-- The loop, on fuel: `none` means that the fuel ran out.
unfoldable pub remove_loop : ℕ → Bytes → Bytes → Option Bytes
remove_loop zero rest res = none
remove_loop (suc fuel) rest res =
    let (line, rest') = read_until newline rest in
    let next = remove_loop fuel rest' (drop_zero_metric (length line) (res ++ line)) in
    if length line == 0 then some res else next

-- Every round takes a byte at least.
unfoldable pub remove_zero_metrics : Bytes → Option Bytes
remove_zero_metrics input = remove_loop (length input + 1) input []
