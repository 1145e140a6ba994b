-- ===== src/Sql.antt =====
-- The database as the sources see it through the crate sqlx: statements in SQL with bound values,
-- in a transaction or on their own. The database is a parameter; what its statements do is stated
-- where they are used.
pub mod Schema
pub mod Text
use acme_dns_rust.Base.{ℕ, ◌≡◌, refl, ap, ◌∙◌, ◌⊎◌, inl, inr, Bool, List, String}
use acme_dns_rust.Base.Int.{ℤ}
use acme_dns_rust.Base.Outcome.{Outcome, ok, err, panic}

-- A bound value, or a column of a row.
pub data SqlValue : Type 0 where
  null : SqlValue
  text : String → SqlValue
  bigint : ℤ → SqlValue
  integer : ℤ → SqlValue
  bytea : List ℕ → SqlValue
  bool : Bool → SqlValue

abbrev pub SqlRow : Type 0
SqlRow = List SqlValue

-- `begin` and `commit` may fail. Between them a transaction works on a copy.
pub record Postgres (Db : Type 0) : Type 0 where
  pub begin : Db → Outcome (Unit {0})
  pub commit : Db → Outcome (Unit {0})
  pub execute : String → List SqlValue → Db → Outcome (Unit {0}) × Db
  pub fetch : String → List SqlValue → Db → Outcome (List SqlRow) × Db

module _ {Db : Type 0} where
  -- Go on after a statement, or stop with its error.
  abbrev pub then_with :
      {A B : Type 0} → Outcome A × Db → (A → Db → Outcome B × Db) → Outcome B × Db
  then_with (ok a, db) k = k a db
  then_with (err e, db) k = (err e, db)
  then_with (panic, db) k = (panic, db)

  abbrev pub settle : {B : Type 0} → Db → Outcome (Unit {0}) → Outcome B → Db → Outcome B × Db
  settle before (ok _) result db = (result, db)
  settle before (err e) result db = (err e, before)
  settle before panic result db = (panic, before)

  abbrev pub finish : {B : Type 0} → Postgres Db → Db → Outcome B × Db → Outcome B × Db
  finish pg before (ok b, db) = settle before (pg.commit db) (ok b) db
  finish pg before (err e, db) = (err e, before)
  finish pg before (panic, db) = (panic, before)

  abbrev pub started :
      {B : Type 0} → Postgres Db → Db → Outcome (Unit {0}) → (Db → Outcome B × Db) → Outcome B × Db
  started pg db (ok _) body = finish pg db (body db)
  started pg db (err e) body = (err e, db)
  started pg db panic body = (panic, db)

  -- A transaction: what its body did is kept if the body succeeds and the commit does, and is
  -- rolled back otherwise.
  unfoldable pub transaction :
      {B : Type 0} → Postgres Db → (Db → Outcome B × Db) → Db → Outcome B × Db
  transaction pg body db = started pg db (pg.begin db) body

  -- A result, or the database as it was.
  abbrev pub RollsBack : {B : Type 0} → Db → Outcome B × Db → Type 0
  RollsBack {B} before r = ((b : B) × (r.0 ≡ ok b)) ⊎ (r.1 ≡ before)

  settle-RollsBack :
      {B : Type 0} (before : Db) (committed : Outcome (Unit {0})) (b : B) (db : Db)
      → RollsBack before (settle before committed (ok b) db)
  settle-RollsBack before (ok _) b db = inl (b, refl)
  settle-RollsBack before (err e) b db = inr refl
  settle-RollsBack before panic b db = inr refl

  finish-RollsBack :
      {B : Type 0} (pg : Postgres Db) (before : Db) (r : Outcome B) (db : Db)
      → RollsBack before (finish pg before (r, db))
  finish-RollsBack pg before (ok b) db = settle-RollsBack before (pg.commit db) b db
  finish-RollsBack pg before (err e) db = inr refl
  finish-RollsBack pg before panic db = inr refl

  started-RollsBack :
      {B : Type 0} (pg : Postgres Db) (db : Db) (begun : Outcome (Unit {0}))
      (body : Db → Outcome B × Db)
      → RollsBack db (started pg db begun body)
  started-RollsBack pg db (ok _) body = finish-RollsBack pg db (body db).0 (body db).1
  started-RollsBack pg db (err e) body = inr refl
  started-RollsBack pg db panic body = inr refl

  -- A transaction has a result or leaves the database as it was.
  pub transaction-RollsBack :
      {B : Type 0} (pg : Postgres Db) (body : Db → Outcome B × Db) (db : Db)
      → RollsBack db (transaction pg body db)
  unfolding transaction
  transaction-RollsBack pg body db = started-RollsBack pg db (pg.begin db) body

  -- A transaction whose steps all succeed.
  pub transaction-ok :
      {B : Type 0} (pg : Postgres Db) (body : Db → Outcome B × Db) (db db' : Db) (b : B)
      → pg.begin db ≡ ok tt
      → body db ≡ (ok b, db')
      → pg.commit db' ≡ ok tt
      → transaction pg body db ≡ (ok b, db')
  unfolding transaction
  transaction-ok pg body db db' b begun run committed =
      ap (λ o. started pg db o body) begun
      ∙ ap (finish pg db) run
      ∙ ap (λ o. settle db o (ok b) db') committed
