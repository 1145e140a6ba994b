-- ===== src/Persist/RoundTrip.antt =====
-- What a key gets after a `put`, and what the `put` leaves of the other keys' rows.
use acme_dns_rust.Base.{
  ◌<◌, ◌^◌, ◌≡◌, refl, ap, ◌∙◌, ◌≢◌, inl, inr, true, false, some, List, [], ◌∷◌, ◌++◌, arith,
  Bool-cases,
}
use acme_dns_rust.Base.Outcome.{ok}
use acme_dns_rust.Api.Metrics.{Bytes}
use acme_dns_rust.Sql.{SqlRow, Postgres, transaction-ok}
use acme_dns_rust.Persist.{put_statement, PersistKey, exists, put_body, put, get, value_of}
use acme_dns_rust.Persist.Table.{
  bind_key_lem, bind_key_value_lem, Row, matches, matching, nonempty, In, set_all, row_of, Selects,
  nothing, one, Table, upsert, matches-row_of, matches-value, matches-injective,
}

pub matching-append :
    (k : PersistKey) (rows more : List Row)
    → matching k (rows ++ more) ≡ matching k rows ++ matching k more
unfolding matching
matching-append k [] more = refl
matching-append k (r ∷ rs) more = ground (arith, matching-append k rs more)

-- Every row of the key after an update has the new value.
matching-set_all :
    (k : PersistKey) (v : Bytes) (rows : List Row) (r : Row)
    → In r (matching k (set_all k v rows))
    → r.value ≡ v
unfolding matching set_all
matching-set_all k v [] r h = absurd h
matching-set_all k v (x ∷ rs) r h = elim (Bool-cases (matches k x)) [
  | inl hit ↦ elim (rw (hit, matches-value k x v, hit) at h) [
    | inl e ↦ ap (λ y. y.value) e
    | inr later ↦ matching-set_all k v rs r later
  ]
  | inr miss ↦ matching-set_all k v rs r (rw (miss, miss) at h)
]

matching-set_all_ne :
    (k j : PersistKey) (v : Bytes) (rows : List Row)
    → k ≢ j
    → k.realm < 2 ^ 64
    → j.realm < 2 ^ 64
    → matching j (set_all k v rows) ≡ matching j rows
unfolding matching set_all
matching-set_all_ne k j v [] ne hk hj = refl
matching-set_all_ne k j v (x ∷ rs) ne hk hj = ground (
  arith,
  matching-set_all_ne k j v rs ne hk hj,
  matches-injective k j x hk hj,
  matches-value j x v,
)

nonempty-set_all :
    (k : PersistKey) (v : Bytes) (rows : List Row)
    → nonempty (matching k (set_all k v rows)) ≡ nonempty (matching k rows)
unfolding matching set_all
nonempty-set_all k v [] = refl
nonempty-set_all k v (x ∷ rs) = ground (arith, nonempty-set_all k v rs, matches-value k x v)

nonempty-false : (rows : List Row) → nonempty rows ≡ false → rows ≡ []
nonempty-false [] e = refl
nonempty-false (r ∷ rs) e = cc

matching_one : (k : PersistKey) (v : Bytes) → matching k (row_of k v ∷ []) ≡ row_of k v ∷ []
unfolding matching
matching_one k v = rw (matches-row_of k v) refl

matching_appended :
    (k : PersistKey) (v : Bytes) (rows : List Row)
    → nonempty (matching k rows) ≡ false
    → matching k (rows ++ row_of k v ∷ []) ≡ row_of k v ∷ []
matching_appended k v rows absent =
    matching-append k rows (row_of k v ∷ [])
    ∙ rw (nonempty-false (matching k rows) absent) (matching_one k v)

-- After an upsert the key has a row, and all its rows have the value.
upsert-value :
    (k : PersistKey) (v : Bytes) (rows : List Row)
    → (nonempty (matching k (upsert k v rows)) ≡ true)
      × ((r : Row) → In r (matching k (upsert k v rows)) → r.value ≡ v)
upsert-value k v rows = elim (Bool-cases (nonempty (matching k rows))) [
  | inl there ↦ rw there (nonempty-set_all k v rows ∙ there, matching-set_all k v rows)
  | inr absent ↦
      rw (absent, matching_appended k v rows absent)
        (refl, λ r h. elim h [ inl e ↦ ap (λ y. y.value) e | inr none_left ↦ absurd none_left ])
]

matching_other :
    (k j : PersistKey) (v : Bytes)
    → k ≢ j
    → k.realm < 2 ^ 64
    → j.realm < 2 ^ 64
    → matching j (row_of k v ∷ []) ≡ []
unfolding matching
matching_other k j v ne hk hj =
    ground (arith, matches-injective k j (row_of k v) hk hj (matches-row_of k v))

append_nil : (rows : List Row) → rows ++ [] ≡ rows
append_nil [] = refl
append_nil (r ∷ rs) = ap (λ l. r ∷ l) (append_nil rs)

upsert-matching_ne :
    (k j : PersistKey) (v : Bytes) (rows : List Row)
    → k ≢ j
    → k.realm < 2 ^ 64
    → j.realm < 2 ^ 64
    → matching j (upsert k v rows) ≡ matching j rows
upsert-matching_ne k j v rows ne hk hj = elim (Bool-cases (nonempty (matching k rows))) [
  | inl there ↦ rw there (matching-set_all_ne k j v rows ne hk hj)
  | inr absent ↦ rw absent (
      matching-append j rows (row_of k v ∷ [])
      ∙ ap (λ l. matching j rows ++ l) (matching_other k j v ne hk hj)
      ∙ append_nil (matching j rows))
]

Selects-value_of :
    (k : PersistKey) (v : Bytes) (rows : List Row) (answer : List SqlRow)
    → nonempty (matching k rows) ≡ true
    → ((r : Row) → In r (matching k rows) → r.value ≡ v)
    → Selects k rows answer
    → value_of answer ≡ ok (some v)
Selects-value_of k v rows answer there all (nothing no_rows e) = (let h = rw no_rows at there in cc)
Selects-value_of k v rows answer there all (one r found e) =
    rw e (ap (λ b. ok (some b)) (all r found))

module _ {Db : Type 0} (pg : Postgres Db) (table : Table pg) where
  pub exists_run :
      (k : PersistKey) (db : Db) → exists pg k db ≡ (ok (nonempty (matching k (table.rows db))), db)
  unfolding exists
  exists_run k db = rw (bind_key_lem k, table.exists_law k db)

  -- The statement that follows the test, on the table.
  body_run :
      (k : PersistKey) (v : Bytes) (db : Db)
      → ((put_body pg k v db).0 ≡ ok tt)
        × (table.rows (put_body pg k v db).1 ≡ upsert k v (table.rows db))
  unfolding put_body put_statement
  body_run k v db =
      rw (exists_run k db) (elim (Bool-cases (nonempty (matching k (table.rows db)))) [
        | inl there ↦ rw (there, put_statement, bind_key_value_lem k v) (table.update_law k v db)
        | inr absent ↦ rw (absent, put_statement, bind_key_value_lem k v) (table.insert_law k v db)
      ])

  -- On a database in working order a put succeeds, and the table is changed by an upsert: the
  -- rows of the key get the value if there are any, and one row is appended otherwise.
  pub put-upsert :
      (k : PersistKey) (v : Bytes) (db : Db)
      → ((put pg k v db).0 ≡ ok tt) × (table.rows (put pg k v db).1 ≡ upsert k v (table.rows db))
  unfolding put
  put-upsert k v db =
      let (done, rows) = body_run k v db in
      let run =
        transaction-ok pg (put_body pg k v) db (put_body pg k v db).1 tt (table.begins db)
          (ap (λ o. (o, (put_body pg k v db).1)) done) (table.commits (put_body pg k v db).1) in
      rw run (refl, rows)

  get_run :
      (k : PersistKey) (v : Bytes) (db : Db)
      → nonempty (matching k (table.rows db)) ≡ true
      → ((r : Row) → In r (matching k (table.rows db)) → r.value ≡ v)
      → get pg k db ≡ (ok (some v), db)
  unfolding get
  get_run k v db there all =
      let (answer, asked, selected) = table.select_law k db in
      rw (bind_key_lem k, asked, Selects-value_of k v (table.rows db) answer there all selected)
        refl

  -- On a database in working order, a get after a put of the same key gives the value put, and
  -- changes nothing.
  pub get-put :
      (k : PersistKey) (v : Bytes) (db : Db)
      → get pg k (put pg k v db).1 ≡ (ok (some v), (put pg k v db).1)
  get-put k v db =
      let (_, rows) = put-upsert k v db in
      let (there, all) = upsert-value k v (table.rows db) in
      get_run k v (put pg k v db).1 (rw rows there) (rw rows all)

  -- On a database in working order, a put leaves the rows of every other key as they are, where
  -- the realms of both keys are 64-bit words.
  pub put-matching_ne :
      (k j : PersistKey) (v : Bytes) (db : Db)
      → k ≢ j
      → k.realm < 2 ^ 64
      → j.realm < 2 ^ 64
      → matching j (table.rows (put pg k v db).1) ≡ matching j (table.rows db)
  put-matching_ne k j v db ne hk hj =
      ap (matching j) (put-upsert k v db).1 ∙ upsert-matching_ne k j v (table.rows db) ne hk hj
