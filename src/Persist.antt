-- ===== src/Persist.antt =====
-- src/acme.rs: what the client of the certificate authority keeps between runs, in the table
-- `acme` of the database.
pub mod Table
pub mod RoundTrip
pub mod Races
mod Tests
use acme_dns_rust.Base.{
  ℕ, Bool, true, false, Option, none, some, List, [], ◌∷◌, if◌then◌else◌, String,
}
use acme_dns_rust.Base.Outcome.{Outcome, ok, err, panic, Error}
use acme_dns_rust.Util.{to_i64}
use acme_dns_rust.Util.Errors.{map_err, as_boxed}
use acme_dns_rust.Api.Metrics.{Bytes}
use acme_dns_rust.Sql.{
  SqlValue, text, bigint, bytea, bool, SqlRow, Postgres, then_with, transaction,
}

-- `acme_lib::persist::PersistKind` and `PersistKey`.
pub data PersistKind : Type 0 where
  certificate private_key account_private_key : PersistKind

pub record PersistKey : Type 0 where
  pub key : String
  pub realm : ℕ
  pub kind : PersistKind

unfoldable pub persist_kind : PersistKind → String
persist_kind certificate = "crt"
persist_kind private_key = "priv_key"
persist_kind account_private_key = "acc_priv_key"

abbrev pub exists_sql : String
exists_sql = "SELECT EXISTS(SELECT 1 from acme WHERE key = $1 AND realm = $2 AND kind = $3)"

abbrev pub update_sql : String
update_sql = "UPDATE acme SET value = $4 WHERE key = $1 AND realm = $2 AND kind = $3"

abbrev pub insert_sql : String
insert_sql = "INSERT INTO acme (key, realm, kind, value) VALUES ($1, $2, $3, $4)"

abbrev pub select_sql : String
select_sql = "SELECT (value) FROM acme WHERE key = $1 AND realm = $2 AND kind = $3 LIMIT 1"

unfoldable pub bind_key : PersistKey → List SqlValue
bind_key k = text k.key ∷ bigint (to_i64 k.realm) ∷ text (persist_kind k.kind) ∷ []

unfoldable pub bind_key_value : PersistKey → Bytes → List SqlValue
bind_key_value k value =
    text k.key ∷ bigint (to_i64 k.realm) ∷ text (persist_kind k.kind) ∷ bytea value ∷ []

-- `query_scalar(…).fetch_one`: the one column of the one row.
abbrev pub scalar_bool : List SqlRow → Outcome Bool
scalar_bool ((bool b ∷ []) ∷ []) = ok b
scalar_bool _ = err (Error.sqlx "no row")

-- `try_next`, then `row.try_get("value")` as bytes.
abbrev pub value_of : List SqlRow → Outcome (Option Bytes)
value_of [] = ok none
value_of ((bytea v ∷ []) ∷ rows) = ok (some v)
value_of (row ∷ rows) = err (Error.sqlx "no column")

module _ {Db : Type 0} (pg : Postgres Db) where
  -- `DatabasePersist::exists`
  unfoldable pub exists : PersistKey → Db → Outcome Bool × Db
  exists k db =
      then_with (pg.fetch exists_sql (bind_key k) db) (λ rows db'. (scalar_bool rows, db'))

  -- What follows the test for the row.
  unfoldable pub put_statement : PersistKey → Bytes → Bool → Db → Outcome (Unit {0}) × Db
  put_statement k value there db =
      pg.execute (if there then update_sql else insert_sql) (bind_key_value k value) db

  unfoldable pub put_body : PersistKey → Bytes → Db → Outcome (Unit {0}) × Db
  put_body k value db = then_with (exists k db) (put_statement k value)

  -- `Persist::put`
  unfoldable pub put : PersistKey → Bytes → Db → Outcome (Unit {0}) × Db
  put k value db =
      let (result, db') = transaction pg (put_body k value) db in (map_err as_boxed result, db')

  -- `Persist::get`
  unfoldable pub get : PersistKey → Db → Outcome (Option Bytes) × Db
  get k db =
      let (result, db') =
        then_with (pg.fetch select_sql (bind_key k) db) (λ rows db'. (value_of rows, db')) in
      (map_err as_boxed result, db')
