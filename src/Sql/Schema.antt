-- ===== src/Sql/Schema.antt =====
-- migrations/postgres/20200811125158_initial.sql: the columns of the table cert, and which values a
-- column takes.
use Prim.Native.String.{len}
use acme_dns_rust.Base.{ℕ, ◌^◌, ◌<◌, ◌≡◌, refl, ◌⊎◌, inl, inr, List, [], ◌∷◌}
use acme_dns_rust.Base.Int.{ℤ, pos, negsuc}
use acme_dns_rust.Util.Words.{IsI64}
use acme_dns_rust.Sql.{SqlValue, null, text, bigint, integer, bytea, SqlRow}

pub data ColumnType : Type 0 where
  char : ℕ → ColumnType
  varchar int4 int8 bytes : ColumnType

pub data Column : Type 0 where
  not_null nullable : ColumnType → Column

abbrev pub cert_table : List Column
cert_table =
    not_null (char 32)
    ∷ not_null int8
    ∷ not_null int4
    ∷ nullable varchar
    ∷ nullable varchar
    ∷ not_null (char 32)
    ∷ []

-- The values of an i32.
abbrev pub IsI32 : ℤ → Type 0
IsI32 (pos n) = n < 2 ^ 31
IsI32 (negsuc n) = n < 2 ^ 31

abbrev pub HasType : ColumnType → SqlValue → Type 0
HasType (char n) (text s) = len s ≡ n
HasType varchar (text s) = Unit {0}
HasType int4 (integer z) = IsI32 z
HasType int8 (bigint z) = IsI64 z
HasType bytes (bytea b) = Unit {0}
HasType _ _ = ⊥

abbrev pub HasColumn : Column → SqlValue → Type 0
HasColumn (not_null t) v = HasType t v
HasColumn (nullable t) null = Unit {0}
HasColumn (nullable t) v = HasType t v

abbrev pub HasRow : List Column → SqlRow → Type 0
HasRow [] [] = Unit {0}
HasRow (c ∷ columns) (v ∷ row) = HasColumn c v × HasRow columns row
HasRow _ _ = ⊥

-- What the type of a column says of its value.
pub char_value : (n : ℕ) (v : SqlValue) → HasType (char n) v → (s : _) × (v ≡ text s)
char_value n (text s) h = (s, refl)
char_value n null h = absurd h
char_value n (bigint z) h = absurd h
char_value n (integer z) h = absurd h
char_value n (bytea b) h = absurd h
char_value n (SqlValue.bool b) h = absurd h

pub int8_value : (v : SqlValue) → HasType int8 v → (z : ℤ) × (v ≡ bigint z)
int8_value (bigint z) h = (z, refl)
int8_value null h = absurd h
int8_value (text s) h = absurd h
int8_value (integer z) h = absurd h
int8_value (bytea b) h = absurd h
int8_value (SqlValue.bool b) h = absurd h

pub int4_value : (v : SqlValue) → HasType int4 v → (z : ℤ) × (v ≡ integer z)
int4_value (integer z) h = (z, refl)
int4_value null h = absurd h
int4_value (text s) h = absurd h
int4_value (bigint z) h = absurd h
int4_value (bytea b) h = absurd h
int4_value (SqlValue.bool b) h = absurd h

pub text_value :
    (v : SqlValue) → HasColumn (nullable varchar) v → (v ≡ null) ⊎ ((s : _) × (v ≡ text s))
text_value null h = inl refl
text_value (text s) h = inr (s, refl)
text_value (bigint z) h = absurd h
text_value (integer z) h = absurd h
text_value (bytea b) h = absurd h
text_value (SqlValue.bool b) h = absurd h
