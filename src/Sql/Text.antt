-- ===== src/Sql/Text.antt =====
-- The texts that a database with the encoding UTF8 can hold: those without a NUL.
use Prim.Native.Char.{code}
use Prim.Native.String.{len}
use acme_dns_rust.Base.{ℕ, ◌≡◌, Bool, true, false, Option, none, some, ◌==◌, if◌then◌else◌, String}

abbrev pub has_nul : String → Bool
has_nul String.[] = false
has_nul (String.◌∷◌ c s) = if code c == 0 then true else has_nul s

abbrev pub IsText : String → Type 0
IsText s = has_nul s ≡ false

-- A column of type char(n) keeps a text of n characters as it is.
abbrev pub IsChar : ℕ → String → Type 0
IsChar n s = (len s ≡ n) × IsText s

abbrev pub IsVarchar : Option String → Type 0
IsVarchar none = Unit {0}
IsVarchar (some s) = IsText s
