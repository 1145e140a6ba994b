-- ===== src/Persist/Races.antt =====
-- Two calls of `DatabasePersist::put` of src/acme.rs that overlap. The test for the row takes no lock
-- and the table has no unique index, so both calls may test before either writes.
use acme_dns_rust.Base.{◌≡◌, refl, ap, ◌∙◌, Bool, true, false, List, [], ◌∷◌, ◌++◌, if◌then◌else◌}
use acme_dns_rust.Base.Outcome.{Outcome, ok, err, panic}
use acme_dns_rust.Util.Errors.{map_err, as_boxed}
use acme_dns_rust.Api.Metrics.{Bytes}
use acme_dns_rust.Sql.{Postgres, transaction, transaction-ok}
use acme_dns_rust.Persist.{put_statement, PersistKey, exists}
use acme_dns_rust.Persist.Table.{
  bind_key_value_lem, Row, matching, nonempty, set_all, row_of, matches-row_of, Table,
}
use acme_dns_rust.Persist.RoundTrip.{exists_run, matching-append}

module _ {Db : Type 0} (pg : Postgres Db) where
  abbrev pub write : PersistKey → Bytes → Outcome Bool → Db → Outcome (Unit {0}) × Db
  write k value (ok there) db =
      let (result, db') = transaction pg (put_statement pg k value there) db in
      (map_err as_boxed result, db')
  write k value (err e) db = (map_err as_boxed (err e), db)
  write k value panic db = (panic, db)

  unfoldable pub overlapping_puts :
      PersistKey → Bytes → Bytes → Db → (Outcome (Unit {0}) × Outcome (Unit {0})) × Db
  overlapping_puts k v v' db =
      let (there, db1) = exists pg k db in
      let (there', db2) = exists pg k db1 in
      let (result, db3) = write k v there db2 in
      let (result', db4) = write k v' there' db3 in ((result, result'), db4)

-- The statement that is chosen, on the rows.
abbrev pub after_statement : PersistKey → Bytes → Bool → List Row → List Row
after_statement k v there rows = if there then set_all k v rows else rows ++ row_of k v ∷ []

module _ {Db : Type 0} (pg : Postgres Db) (table : Table pg) where
  statement_run :
      (k : PersistKey) (v : Bytes) (there : Bool) (db : Db)
      → ((put_statement pg k v there db).0 ≡ ok tt)
        × (table.rows (put_statement pg k v there db).1 ≡ after_statement k v there (table.rows db))
  unfolding put_statement
  statement_run k v true db = rw (put_statement, bind_key_value_lem k v) (table.update_law k v db)
  statement_run k v false db = rw (put_statement, bind_key_value_lem k v) (table.insert_law k v db)

  write_run :
      (k : PersistKey) (v : Bytes) (there : Bool) (db : Db)
      → ((write pg k v (ok there) db).0 ≡ ok tt)
        × (table.rows (write pg k v (ok there) db).1 ≡ after_statement k v there (table.rows db))
  write_run k v there db =
      let (done, rows) = statement_run k v there db in
      let db' = (put_statement pg k v there db).1 in
      let run =
        transaction-ok pg (put_statement pg k v there) db db' tt (table.begins db)
          (ap (λ o. (o, db')) done) (table.commits db') in
      rw run (refl, rows)

  -- Both puts succeed, and the rows are those after the same statement twice.
  pub overlapping_puts-after_statement :
      (k : PersistKey) (v v' : Bytes) (db : Db)
      → let there = nonempty (matching k (table.rows db)) in
        let ((result, result'), db') = overlapping_puts pg k v v' db in
        (result ≡ ok tt)
        × (result' ≡ ok tt)
        × (table.rows db' ≡ after_statement k v' there (after_statement k v there (table.rows db)))
  unfolding overlapping_puts
  overlapping_puts-after_statement k v v' db =
      let there = nonempty (matching k (table.rows db)) in
      let (done, rows) = write_run k v there db in
      let db' = (write pg k v (ok there) db).1 in
      let (done', rows') = write_run k v' there db' in
      rw (exists_run pg table k db, exists_run pg table k db)
        (done, done', rows' ∙ ap (after_statement k v' there) rows)

  matching-single : (k : PersistKey) (v : Bytes) → matching k (row_of k v ∷ []) ≡ row_of k v ∷ []
  unfolding matching
  matching-single k v = rw (matches-row_of k v) refl

  -- On a database in working order, if two puts of one key that has no row both test for the row
  -- before either writes, both succeed, and the key has two rows then, one with each value.
  pub overlapping_puts-matching :
      (k : PersistKey) (v v' : Bytes) (db : Db)
      → matching k (table.rows db) ≡ []
      → let ((result, result'), db') = overlapping_puts pg k v v' db in
        (result ≡ ok tt)
        × (result' ≡ ok tt)
        × (matching k (table.rows db') ≡ row_of k v ∷ row_of k v' ∷ [])
  overlapping_puts-matching k v v' db no_row =
      let (done, done', rows) = overlapping_puts-after_statement k v v' db in
      let all = table.rows db in
      let absent : nonempty (matching k all) ≡ false = ap nonempty no_row in
      (
        done,
        done',
        ap (matching k) rows
            ∙ ap (λ there. matching k (after_statement k v' there (after_statement k v there all)))
                absent
            ∙ matching-append k (all ++ row_of k v ∷ []) (row_of k v' ∷ [])
            ∙ ap (λ l. l ++ matching k (row_of k v' ∷ [])) (matching-append k all (row_of k v ∷ []))
            ∙ ap (λ l. (l ++ matching k (row_of k v ∷ [])) ++ matching k (row_of k v' ∷ [])) no_row
            ∙ ap (λ l. l ++ matching k (row_of k v' ∷ [])) (matching-single k v)
            ∙ ap (λ l. row_of k v ∷ l) (matching-single k v'),
      )
