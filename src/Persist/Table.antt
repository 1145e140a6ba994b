-- ===== src/Persist/Table.antt =====
-- The table `acme` as a list of rows, and what the database's documentation says of the four
-- statements on it.
use acme_dns_rust.Base.{
  ℕ, ◌<◌, ◌^◌, ◌≡◌, refl, sym, ap, ◌∙◌, ◌⊎◌, Bool, true, false, ◌&&◌, List, [], ◌∷◌, ◌++◌,
  if◌then◌else◌, String, str_eq, eq_iff, eq_refl, arith,
}
use acme_dns_rust.Base.Int.{ℤ}
use acme_dns_rust.Base.Outcome.{ok}
use acme_dns_rust.Util.{to_i64, to_u64}
use acme_dns_rust.Util.Words.{to_u64-to_i64}
use acme_dns_rust.Facade.Memory.{eq_ℤ}
use acme_dns_rust.Api.Metrics.{Bytes}
use acme_dns_rust.Sql.{SqlValue, text, bigint, bytea, bool, SqlRow, Postgres}
use acme_dns_rust.Persist.{
  PersistKind, certificate, private_key, account_private_key, PersistKey, persist_kind, exists_sql,
  update_sql, insert_sql, select_sql, bind_key, bind_key_value,
}

pub record Row : Type 0 where
  pub key : String
  pub realm : ℤ
  pub kind : String
  pub value : Bytes

-- What the columns `realm` and `kind` hold for a key of acme-lib, an i64 and the name of a file's
-- extension there.
abbrev pub kind_column : PersistKind → String
kind_column certificate = "crt"
kind_column private_key = "priv_key"
kind_column account_private_key = "acc_priv_key"

-- The arguments $1 to $3 for a key, and $4.
abbrev pub key_columns : PersistKey → List SqlValue
key_columns k = text k.key ∷ bigint (to_i64 k.realm) ∷ text (kind_column k.kind) ∷ []

abbrev pub value_columns : PersistKey → Bytes → List SqlValue
value_columns k v = text k.key ∷ bigint (to_i64 k.realm) ∷ text (kind_column k.kind) ∷ bytea v ∷ []

persist_kind_lem : (kind : PersistKind) → persist_kind kind ≡ kind_column kind
unfolding persist_kind
persist_kind_lem certificate = refl
persist_kind_lem private_key = refl
persist_kind_lem account_private_key = refl

pub bind_key_lem : (k : PersistKey) → bind_key k ≡ key_columns k
unfolding bind_key
bind_key_lem k =
    ap (λ t. text k.key ∷ bigint (to_i64 k.realm) ∷ text t ∷ []) (persist_kind_lem k.kind)

pub bind_key_value_lem : (k : PersistKey) (v : Bytes) → bind_key_value k v ≡ value_columns k v
unfolding bind_key_value
bind_key_value_lem k v =
    ap (λ t. text k.key ∷ bigint (to_i64 k.realm) ∷ text t ∷ bytea v ∷ []) (persist_kind_lem k.kind)

-- WHERE key = $1 AND realm = $2 AND kind = $3
unfoldable pub matches : PersistKey → Row → Bool
matches k r =
    str_eq r.key k.key && eq_ℤ r.realm (to_i64 k.realm) && str_eq r.kind (kind_column k.kind)

unfoldable pub matching : PersistKey → List Row → List Row
matching k [] = []
matching k (r ∷ rs) = if matches k r then r ∷ matching k rs else matching k rs

abbrev pub nonempty : List Row → Bool
nonempty [] = false
nonempty (r ∷ rs) = true

abbrev pub In : Row → List Row → Type 0
In r [] = ⊥
In r (x ∷ xs) = (r ≡ x) ⊎ In r xs

unfoldable pub set_all : PersistKey → Bytes → List Row → List Row
set_all k v [] = []
set_all k v (r ∷ rs) = (if matches k r then record r { value = v } else r) ∷ set_all k v rs

abbrev pub row_of : PersistKey → Bytes → Row
row_of k v = record { key = k.key; realm = to_i64 k.realm; kind = kind_column k.kind; value = v }

-- LIMIT 1, with no order: one of the matching rows, if there is any.
pub data Selects (k : PersistKey) (rows : List Row) (answer : List SqlRow) : Type 0 where
  nothing : matching k rows ≡ [] → answer ≡ [] → Selects k rows answer
  one :
      (r : Row)
      → In r (matching k rows)
      → answer ≡ (bytea r.value ∷ []) ∷ []
      → Selects k rows answer

-- A database in working order that holds the table.
pub record Table {Db : Type 0} (pg : Postgres Db) : Type 0 where
  pub rows : Db → List Row
  pub begins : (db : Db) → pg.begin db ≡ ok tt
  pub commits : (db : Db) → pg.commit db ≡ ok tt
  pub exists_law :
      (k : PersistKey) (db : Db)
      → pg.fetch exists_sql (key_columns k) db
        ≡ (ok ((bool (nonempty (matching k (rows db))) ∷ []) ∷ []), db)
  pub update_law :
      (k : PersistKey) (v : Bytes) (db : Db)
      → ((pg.execute update_sql (value_columns k v) db).0 ≡ ok tt)
        × (rows (pg.execute update_sql (value_columns k v) db).1 ≡ set_all k v (rows db))
  pub insert_law :
      (k : PersistKey) (v : Bytes) (db : Db)
      → ((pg.execute insert_sql (value_columns k v) db).0 ≡ ok tt)
        × (rows (pg.execute insert_sql (value_columns k v) db).1 ≡ rows db ++ row_of k v ∷ [])
  pub select_law :
      (k : PersistKey) (db : Db)
      → (answer : List SqlRow) × (pg.fetch select_sql (key_columns k) db ≡ (ok answer, db))
        × Selects k (rows db) answer

-- The table after a `put`, as a function on its rows.
abbrev pub upsert : PersistKey → Bytes → List Row → List Row
upsert k v rows = if nonempty (matching k rows) then set_all k v rows else rows ++ row_of k v ∷ []

eq_ℤ_refl : (z : ℤ) → eq_ℤ z z ≡ true
eq_ℤ_refl z = ground arith

pub matches-row_of : (k : PersistKey) (v : Bytes) → matches k (row_of k v) ≡ true
unfolding matches
matches-row_of k v =
    ground (arith, eq_refl k.key, eq_ℤ_refl (to_i64 k.realm), eq_refl (kind_column k.kind))

pub matches-value :
    (k : PersistKey) (r : Row) (v : Bytes) → matches k (record r { value = v }) ≡ matches k r
unfolding matches
matches-value k r v = refl

eq_ℤ_sound : (a b : ℤ) → eq_ℤ a b ≡ true → a ≡ b
eq_ℤ_sound a b h = ground arith

kind_column-injective : (a b : PersistKind) → kind_column a ≡ kind_column b → a ≡ b
kind_column-injective certificate certificate e = refl
kind_column-injective private_key private_key e = refl
kind_column-injective account_private_key account_private_key e = refl
kind_column-injective certificate private_key e = ground (arith, eq_iff "crt" "priv_key")
kind_column-injective certificate account_private_key e =
    ground (arith, eq_iff "crt" "acc_priv_key")
kind_column-injective private_key certificate e = ground (arith, eq_iff "priv_key" "crt")
kind_column-injective private_key account_private_key e =
    ground (arith, eq_iff "priv_key" "acc_priv_key")
kind_column-injective account_private_key certificate e =
    ground (arith, eq_iff "acc_priv_key" "crt")
kind_column-injective account_private_key private_key e =
    ground (arith, eq_iff "acc_priv_key" "priv_key")

to_i64-injective : (a b : ℕ) → a < 2 ^ 64 → b < 2 ^ 64 → to_i64 a ≡ to_i64 b → a ≡ b
to_i64-injective a b ha hb e = sym (to_u64-to_i64 a ha) ∙ ap to_u64 e ∙ to_u64-to_i64 b hb

matches-key : (k : PersistKey) (r : Row) → matches k r ≡ true → r.key ≡ k.key
unfolding matches
matches-key k r m = ground (arith, eq_iff r.key k.key)

matches-realm : (k : PersistKey) (r : Row) → matches k r ≡ true → r.realm ≡ to_i64 k.realm
unfolding matches
matches-realm k r m = eq_ℤ_sound r.realm (to_i64 k.realm) (ground arith)

matches-kind : (k : PersistKey) (r : Row) → matches k r ≡ true → r.kind ≡ kind_column k.kind
unfolding matches
matches-kind k r m = ground (arith, eq_iff r.kind (kind_column k.kind))

-- A row matches one key only.
pub matches-injective :
    (k j : PersistKey) (r : Row)
    → k.realm < 2 ^ 64
    → j.realm < 2 ^ 64
    → matches k r ≡ true
    → matches j r ≡ true
    → k ≡ j
matches-injective k j r hk hj mk mj =
    let same_key = sym (matches-key k r mk) ∙ matches-key j r mj in
    let same_realm =
      to_i64-injective k.realm j.realm hk hj (sym (matches-realm k r mk) ∙ matches-realm j r mj) in
    let same_kind =
      kind_column-injective k.kind j.kind (sym (matches-kind k r mk) ∙ matches-kind j r mj) in
    λ i. record { key = same_key i; realm = same_realm i; kind = same_kind i }
