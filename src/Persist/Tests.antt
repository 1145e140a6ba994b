-- ===== src/Persist/Tests.antt =====
-- The table as a list of rows, a database that runs the four statements, and the theorems of the
-- round trip on it.
use acme_dns_rust.Util.{to_i64}
use acme_dns_rust.Base.{
  ◌+◌, ◌^◌, ◌≡◌, refl, ap, ◌≢◌, inl, ◌&&◌, some, List, [], ◌∷◌, ◌++◌, if◌then◌else◌, arith, String,
  str_eq,
}
use acme_dns_rust.Base.Int.{ℤ}
use acme_dns_rust.Base.Outcome.{Outcome, ok, err, Error}
use acme_dns_rust.Facade.Memory.{eq_ℤ}
use acme_dns_rust.Api.Metrics.{Bytes}
use acme_dns_rust.Sql.{SqlValue, text, bigint, bytea, bool, SqlRow, Postgres, transaction}
use acme_dns_rust.Persist.{
  certificate, private_key, PersistKey, persist_kind, exists_sql, update_sql, insert_sql,
  select_sql, bind_key, bind_key_value, exists, put_statement, put_body, put, get,
}
use acme_dns_rust.Persist.Table.{
  kind_column, Row, matches, matching, nonempty, set_all, row_of, Selects, nothing, one, Table,
}
use acme_dns_rust.Persist.Races.{overlapping_puts, overlapping_puts-matching}
use acme_dns_rust.Persist.RoundTrip.{get-put, put-matching_ne}

unfoldable found : String → ℤ → String → List Row → List Row
found key realm kind [] = []
found key realm kind (r ∷ rs) =
    if str_eq r.key key && eq_ℤ r.realm realm && str_eq r.kind kind
    then r ∷ found key realm kind rs
    else found key realm kind rs

unfoldable updated : String → ℤ → String → Bytes → List Row → List Row
updated key realm kind v [] = []
updated key realm kind v (r ∷ rs) =
    (if str_eq r.key key && eq_ℤ r.realm realm && str_eq r.kind kind
      then record r { value = v }
      else r)
    ∷ updated key realm kind v rs

abbrev answer : List Row → List SqlRow
answer [] = []
answer (r ∷ rs) = (bytea r.value ∷ []) ∷ []

unfoldable run_fetch : String → List SqlValue → List Row → Outcome (List SqlRow) × List Row
run_fetch sql (text key ∷ bigint realm ∷ text kind ∷ []) rows =
    if str_eq sql exists_sql
    then (ok ((bool (nonempty (found key realm kind rows)) ∷ []) ∷ []), rows)
    else if str_eq sql select_sql
    then (ok (answer (found key realm kind rows)), rows)
    else (err (Error.sqlx "statement"), rows)
run_fetch sql _ rows = (err (Error.sqlx "arguments"), rows)

unfoldable run_execute : String → List SqlValue → List Row → Outcome (Unit {0}) × List Row
run_execute sql (text key ∷ bigint realm ∷ text kind ∷ bytea v ∷ []) rows =
    if str_eq sql update_sql
    then (ok tt, updated key realm kind v rows)
    else if str_eq sql insert_sql
    then (ok tt, rows ++ record { key = key; realm = realm; kind = kind; value = v } ∷ [])
    else (err (Error.sqlx "statement"), rows)
run_execute sql _ rows = (err (Error.sqlx "arguments"), rows)

abbrev list_postgres : Postgres (List Row)
list_postgres = record {
  begin = λ db. ok tt;
  commit = λ db. ok tt;
  execute = run_execute;
  fetch = run_fetch;
}

found-matching :
    (k : PersistKey) (rows : List Row)
    → found k.key (to_i64 k.realm) (kind_column k.kind) rows ≡ matching k rows
unfolding found matching matches
found-matching k [] = refl
found-matching k (r ∷ rs) = ground (arith, found-matching k rs)

updated-set_all :
    (k : PersistKey) (v : Bytes) (rows : List Row)
    → updated k.key (to_i64 k.realm) (kind_column k.kind) v rows ≡ set_all k v rows
unfolding updated set_all matches
updated-set_all k v [] = refl
updated-set_all k v (r ∷ rs) = ground (arith, updated-set_all k v rs)

answer-Selects :
    (k : PersistKey) (rows l : List Row) → matching k rows ≡ l → Selects k rows (answer l)
answer-Selects k rows [] e = nothing e refl
answer-Selects k rows (r ∷ l) e = one r (rw e (inl refl)) refl

list_table : Table list_postgres
unfolding run_fetch run_execute
list_table = record {
  rows = λ db. db;
  begins = λ db. refl;
  commits = λ db. refl;
  exists_law = λ k db. rw (found-matching k db) refl;
  update_law = λ k v db. (refl, updated-set_all k v db);
  insert_law = λ k v db. (refl, refl);
  select_law = λ k db. (
    answer (matching k db),
    rw (found-matching k db) refl,
    answer-Selects k db (matching k db) refl,
  );
}

abbrev crt_key : PersistKey
crt_key = record { key = "acme"; realm = 2 ^ 63 + 5; kind = certificate }

abbrev account_key : PersistKey
account_key = record { key = "acme"; realm = 2 ^ 63 + 5; kind = private_key }

put_twice :
    (put list_postgres crt_key (4 ∷ []) (put list_postgres crt_key (1 ∷ 2 ∷ []) []).1).1
    ≡ row_of crt_key (4 ∷ []) ∷ []
unfolding put put_body put_statement exists transaction run_fetch run_execute bind_key
    bind_key_value found updated to_i64 persist_kind
put_twice = refl

get-put_example :
    get list_postgres crt_key (put list_postgres crt_key (7 ∷ []) []).1
    ≡ (ok (some (7 ∷ [])), (put list_postgres crt_key (7 ∷ []) []).1)
get-put_example = get-put list_postgres list_table crt_key (7 ∷ []) []

keys_differ : crt_key ≢ account_key
keys_differ e = let h : certificate ≡ private_key = ap (λ k. k.kind) e in ground arith

other_kind : matching crt_key (list_table.rows (row_of account_key (3 ∷ []) ∷ [])) ≡ []
unfolding list_table matching matches to_i64
other_kind = refl

overlapping_puts-matching_example :
    let ((result, result'), db') =
      overlapping_puts list_postgres crt_key (1 ∷ []) (2 ∷ []) (row_of account_key (3 ∷ []) ∷ []) in
    (result ≡ ok tt)
    × (result' ≡ ok tt)
    × (matching crt_key (list_table.rows db')
        ≡ row_of crt_key (1 ∷ []) ∷ row_of crt_key (2 ∷ []) ∷ [])
overlapping_puts-matching_example =
    overlapping_puts-matching list_postgres list_table crt_key (1 ∷ []) (2 ∷ [])
      (row_of account_key (3 ∷ []) ∷ []) other_kind

put-matching_ne_example :
    matching account_key
      (list_table.rows (put list_postgres crt_key (7 ∷ []) (row_of account_key (3 ∷ []) ∷ [])).1)
    ≡ matching account_key (list_table.rows (row_of account_key (3 ∷ []) ∷ []))
put-matching_ne_example =
    put-matching_ne list_postgres list_table crt_key account_key (7 ∷ [])
      (row_of account_key (3 ∷ []) ∷ []) keys_differ (omega arith) (omega arith)
