-- ===== src/Api/Metrics/Lines.antt =====
-- `remove_zero_metrics` is a filter on lines.
use acme_dns_rust.Base.{
  ℕ, zero, suc, ◌+◌, ◌≤◌, ◌<◌, ◌≡◌, refl, ◌⊎◌, inl, inr, true, false, some, List, [], ◌∷◌, ◌++◌,
  ◌==◌, if◌then◌else◌, length, arith, Bool-cases, append_assoc, append-nil, length-append,
  take-append,
}
use acme_dns_rust.Api.Metrics.{
  Bytes, bytes_eq, ends_with, read_until, newline, zero_line, zero_end, is_zero_metric,
  drop_zero_metric, remove_loop, remove_zero_metrics,
}

-- The lines of a text, each with its newline.
abbrev onto_first : ℕ → List Bytes → List Bytes
onto_first x [] = (x ∷ []) ∷ []
onto_first x (l ∷ ls) = (x ∷ l) ∷ ls

unfoldable pub lines : Bytes → List Bytes
lines [] = []
lines (x ∷ xs) = let rest = lines xs in if x == newline then (x ∷ []) ∷ rest else onto_first x rest

-- The lines that do not end in " 0", joined.
unfoldable pub kept : List Bytes → Bytes
kept [] = []
kept (l ∷ ls) = if is_zero_metric l then kept ls else l ++ kept ls

-- Nothing, or a text that ends in a newline.
abbrev Closed : Bytes → Type 0
Closed [] = Unit {0}
Closed (x ∷ []) = x ≡ newline
Closed (x ∷ y ∷ l) = Closed (y ∷ l)

-- A read splits off the first line.
lines-read_until :
    (x : ℕ) (xs : Bytes)
    → lines (x ∷ xs) ≡ (read_until newline (x ∷ xs)).0 ∷ lines (read_until newline (x ∷ xs)).1
unfolding lines read_until
lines-read_until x [] = ground arith
lines-read_until x (y ∷ ys) = ground (arith, lines-read_until y ys)

-- The line read is not empty, and is closed unless nothing is left.
read_until-cons :
    (x : ℕ) (xs : Bytes)
    → (0 < length (read_until newline (x ∷ xs)).0)
      × (length (read_until newline (x ∷ xs)).1 ≤ length xs)
unfolding read_until
read_until-cons x [] = ground arith
read_until-cons x (y ∷ ys) = ground (arith, read_until-cons y ys)

Closed-cons : (x : ℕ) (l : Bytes) → 0 < length l → Closed l → Closed (x ∷ l)
Closed-cons x [] h c = absurd (omega arith)
Closed-cons x (y ∷ l) h c = c

read_until-last : (x : ℕ) → (read_until newline (x ∷ [])).1 ≡ []
unfolding read_until
read_until-last x = ground arith

read_until-hit :
    (x : ℕ) (xs : Bytes) → (x == newline) ≡ true → read_until newline (x ∷ xs) ≡ (x ∷ [], xs)
unfolding read_until
read_until-hit x xs e = rw e

read_until-miss :
    (x : ℕ) (xs : Bytes)
    → (x == newline) ≡ false
    → read_until newline (x ∷ xs) ≡ (x ∷ (read_until newline xs).0, (read_until newline xs).1)
unfolding read_until
read_until-miss x xs e = rw e

read_until-Closed :
    (x : ℕ) (xs : Bytes)
    → Closed (read_until newline (x ∷ xs)).0 ⊎ ((read_until newline (x ∷ xs)).1 ≡ [])
read_until-Closed x [] = inr (read_until-last x)
read_until-Closed x (y ∷ ys) = elim (Bool-cases (x == newline)) [
  | inl hit ↦ inl (rw (read_until-hit x (y ∷ ys) hit) (ground arith))
  | inr miss ↦ rw (read_until-miss x (y ∷ ys) miss) (elim (read_until-Closed y ys) [
    | inl closed ↦ inl (Closed-cons x _ (read_until-cons y ys).0 closed)
    | inr done ↦ inr done
  ])
]

-- After a closed text, the end of a line that is not empty decides.
not_zero_line :
    (r : ℕ) (rs : Bytes) (l : ℕ) (ls : Bytes)
    → Closed (r ∷ rs)
    → (bytes_eq (r ∷ rs ++ l ∷ ls) zero_line ≡ false)
      × (bytes_eq (r ∷ rs ++ l ∷ ls) zero_end ≡ false)
not_zero_line r [] l ls h = ground arith
not_zero_line r (a ∷ []) l ls h = ground arith
not_zero_line r (a ∷ b ∷ rs) l ls h = ground arith

ends_with-append :
    (res : Bytes) (l : ℕ) (ls : Bytes)
    → Closed res
    → is_zero_metric (res ++ l ∷ ls) ≡ is_zero_metric (l ∷ ls)
unfolding ends_with
ends_with-append [] l ls h = refl
ends_with-append (r ∷ []) l ls h = ground (arith, not_zero_line r [] l ls h)
ends_with-append (r ∷ a ∷ rs) l ls h =
    ground (arith, not_zero_line r (a ∷ rs) l ls h, ends_with-append (a ∷ rs) l ls h)

Closed-append : (res l : Bytes) → 0 < length l → Closed l → Closed (res ++ l)
Closed-append [] l h c = c
Closed-append (r ∷ []) l h c = Closed-cons r l h c
Closed-append (r ∷ a ∷ rs) l h c = Closed-append (a ∷ rs) l h c

-- One round keeps the line or drops it, by the line alone.
drop_zero_metric-append :
    (res line : Bytes)
    → Closed res
    → 0 < length line
    → drop_zero_metric (length line) (res ++ line)
      ≡ (if is_zero_metric line then res else res ++ line)
unfolding drop_zero_metric
drop_zero_metric-append res [] closed h = absurd (omega arith)
drop_zero_metric-append res (l ∷ ls) closed h =
    ground (
      arith,
      ends_with-append res l ls closed,
      length-append res (l ∷ ls),
      take-append res (l ∷ ls),
    )

drop_zero_metric-Closed :
    (res line : Bytes)
    → Closed res
    → 0 < length line
    → Closed line
    → Closed (drop_zero_metric (length line) (res ++ line))
drop_zero_metric-Closed res line c h c' =
    rw (drop_zero_metric-append res line c h) (elim (Bool-cases (is_zero_metric line)) [
      | inl dropped ↦ rw dropped c
      | inr stays ↦ rw stays (Closed-append res line h c')
    ])

kept-cons :
    (res line : Bytes) (ls : List Bytes)
    → Closed res
    → 0 < length line
    → drop_zero_metric (length line) (res ++ line) ++ kept ls ≡ res ++ kept (line ∷ ls)
unfolding kept
kept-cons res line ls c h =
    ground (arith, drop_zero_metric-append res line c h, append_assoc res line (kept ls))

remove_loop-nil : (fuel : ℕ) (res : Bytes) → 0 < fuel → remove_loop fuel [] res ≡ some res
unfolding remove_loop read_until
remove_loop-nil zero res h = absurd (omega arith)
remove_loop-nil (suc fuel) res h = refl

kept-lines_nil : kept (lines []) ≡ []
unfolding kept lines
kept-lines_nil = refl

remove_loop-done :
    (fuel : ℕ) (res : Bytes) → 0 < fuel → remove_loop fuel [] res ≡ some (res ++ kept (lines []))
remove_loop-done fuel res h = rw (remove_loop-nil fuel res h, kept-lines_nil, append-nil)

remove_loop-step :
    (fuel x : ℕ) (xs res : Bytes)
    → remove_loop (suc fuel) (x ∷ xs) res
      ≡ remove_loop fuel (read_until newline (x ∷ xs)).1 (
          drop_zero_metric
            (length (read_until newline (x ∷ xs)).0)
            (res ++ (read_until newline (x ∷ xs)).0))
unfolding remove_loop
remove_loop-step fuel x xs res = ground (arith, read_until-cons x xs)

-- From a closed text, enough fuel gives the text and the lines that are kept.
remove_loop-kept :
    (fuel : ℕ) (rest res : Bytes)
    → length rest < fuel
    → Closed res
    → remove_loop fuel rest res ≡ some (res ++ kept (lines rest))
remove_loop-kept zero rest res h c = absurd (omega arith)
remove_loop-kept (suc fuel) [] res h c = remove_loop-done (suc fuel) res (omega arith)
remove_loop-kept (suc fuel) (x ∷ xs) res h c =
    let (nonempty, shorter) = read_until-cons x xs in
    let line = (read_until newline (x ∷ xs)).0 in
    let rest' = (read_until newline (x ∷ xs)).1 in
    let joined = kept-cons res line (lines rest') c nonempty in
    rw (remove_loop-step fuel x xs res, lines-read_until x xs, ← joined)
      (elim (read_until-Closed x xs) [
        | inl closed ↦
            remove_loop-kept fuel rest' _ (omega arith)
              (drop_zero_metric-Closed res line c nonempty closed)
        | inr done ↦ rw done (remove_loop-done fuel _ (omega arith))
      ])

abbrev pub join : List Bytes → Bytes
join [] = []
join (l ∷ ls) = l ++ join ls

join-onto_first : (x : ℕ) (ls : List Bytes) → join (onto_first x ls) ≡ x ∷ join ls
join-onto_first x [] = refl
join-onto_first x (l ∷ ls) = refl

join-lines : (input : Bytes) → join (lines input) ≡ input
unfolding lines
join-lines [] = refl
join-lines (x ∷ xs) = ground (arith, join-lines xs, join-onto_first x (lines xs))

-- On every input remove_zero_metrics returns, and what it returns are the lines of the input, in
-- order, without those that end in " 0"; the lines joined are the input.
pub remove_zero_metrics-lines :
    (input : Bytes)
    → (remove_zero_metrics input ≡ some (kept (lines input))) × (join (lines input) ≡ input)
unfolding remove_zero_metrics
remove_zero_metrics-lines input =
    (remove_loop-kept (length input + 1) input [] (omega arith) tt, join-lines input)
