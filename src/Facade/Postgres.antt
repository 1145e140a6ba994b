-- ===== src/Facade/Postgres.antt =====
-- `DatabaseFacade<Postgres>` of src/facade/cert.rs and src/facade/domain.rs.
pub mod Columns
pub mod Tables
pub mod Sim
pub mod Refines
pub mod Starts
pub mod Calls
pub mod Runs
pub mod Races
pub mod Serial
pub mod Errors
pub mod Typed
pub mod Rows
pub mod Samples
mod Tests
use acme_dns_rust.Base.{
  ℕ, zero, suc, Bool, true, false, Option, none, some, List, [], ◌∷◌, if◌then◌else◌, String,
}
use acme_dns_rust.Base.Int.{ℤ, pos}
use acme_dns_rust.Base.Outcome.{Outcome, ok, err, panic, Error, ◌>>=◌}
use acme_dns_rust.Util.{to_i64}
use acme_dns_rust.Sql.{
  SqlValue, null, text, bigint, integer, SqlRow, Postgres, then_with, transaction,
}
use acme_dns_rust.Facade.{State, Cert, Domain, Env, new_domain, new_cert, Facade}
use acme_dns_rust.Facade.Memory.{is_ok, timed_out, still_running}

abbrev pub first_cert_sql : String
first_cert_sql = "SELECT * FROM cert LIMIT 1"

abbrev pub update_cert_sql : String
update_cert_sql =
    "UPDATE cert SET update = $1, state = $2, cert = $3, private = $4, domain_id = $5 WHERE id = $6"

abbrev pub create_cert_sql : String
create_cert_sql =
    "INSERT INTO cert (id, update, state, cert, private, domain_id) VALUES ($1, $2, $3, $4, $5, $6)"

abbrev pub create_domain_sql : String
create_domain_sql = "INSERT INTO domain (id, username, password, txt) VALUES ($1, $2, $3, $4)"

abbrev pub find_domain_sql : String
find_domain_sql = "SELECT * FROM domain WHERE id = $1 LIMIT 1"

abbrev pub update_domain_sql : String
update_domain_sql = "UPDATE domain SET username = $1, password = $2, txt = $3 WHERE id = $4"

-- `sqlx::Type` with `repr(i32)`.
unfoldable pub encode_state : State → SqlValue
encode_state State.ok = integer (pos 0)
encode_state State.updating = integer (pos 1)

unfoldable pub decode_state : SqlValue → Outcome State
decode_state (integer (pos zero)) = ok State.ok
decode_state (integer (pos (suc zero))) = ok State.updating
decode_state _ = err (Error.sqlx "invalid value for enum State")

abbrev pub encode_option : Option String → SqlValue
encode_option none = null
encode_option (some s) = text s

abbrev pub decode_option : SqlValue → Outcome (Option String)
decode_option null = ok none
decode_option (text s) = ok (some s)
decode_option _ = err (Error.sqlx "mismatched types")

-- `FromRow` for `Cert` and for `Domain`, on the columns in the order of the tables.
unfoldable pub decode_cert : SqlRow → Outcome Cert
unfolding decode_state
decode_cert (text id ∷ bigint update ∷ state ∷ cert ∷ private ∷ text domain ∷ []) = do
  state' ← decode_state state
  cert' ← decode_option cert
  private' ← decode_option private
  ok (record {
    id = id;
    update = update;
    state = state';
    cert = cert';
    private = private';
    domain = domain;
  })
decode_cert _ = err (Error.sqlx "mismatched types")

unfoldable pub decode_domain : SqlRow → Outcome Domain
decode_domain (text id ∷ text username ∷ text password ∷ txt ∷ []) = do
  txt' ← decode_option txt
  ok (record { id = id; username = username; password = password; txt = txt' })
decode_domain _ = err (Error.sqlx "mismatched types")

-- `query_as(…).fetch_optional`: the first row, if there is one.
abbrev pub decode_optional : {A : Type 0} → (SqlRow → Outcome A) → List SqlRow → Outcome (Option A)
decode_optional decode [] = ok none
decode_optional decode (row ∷ rows) = do a ← decode row; ok (some a)

unfoldable pub bind_update_cert : Cert → List SqlValue
unfolding encode_state
bind_update_cert c =
    bigint c.update
    ∷ encode_state c.state
    ∷ encode_option c.cert
    ∷ encode_option c.private
    ∷ text c.domain
    ∷ text c.id
    ∷ []

unfoldable pub bind_create_cert : Cert → List SqlValue
unfolding encode_state
bind_create_cert c =
    text c.id
    ∷ bigint c.update
    ∷ encode_state c.state
    ∷ encode_option c.cert
    ∷ encode_option c.private
    ∷ text c.domain
    ∷ []

unfoldable pub bind_create_domain : Domain → List SqlValue
bind_create_domain d = text d.id ∷ text d.username ∷ text d.password ∷ encode_option d.txt ∷ []

unfoldable pub bind_update_domain : Domain → List SqlValue
bind_update_domain d = text d.username ∷ text d.password ∷ encode_option d.txt ∷ text d.id ∷ []

module _ {Db : Type 0} (pg : Postgres Db) where
  -- `CertFacadeDatabase`, on a transaction or on the pool.
  unfoldable pub first_cert : Db → Outcome (Option Cert) × Db
  first_cert db =
      then_with (pg.fetch first_cert_sql [] db) λ rows db'. (decode_optional decode_cert rows, db')

  unfoldable pub update_cert : Cert → Db → Outcome (Unit {0}) × Db
  update_cert cert db = pg.execute update_cert_sql (bind_update_cert cert) db

  unfoldable pub create_cert : Cert → Db → Outcome (Unit {0}) × Db
  create_cert cert db = pg.execute create_cert_sql (bind_create_cert cert) db

  -- `DomainFacadeDatabase::create_domain`
  unfoldable pub create_domain : Domain → Db → Outcome (Unit {0}) × Db
  create_domain domain db = pg.execute create_domain_sql (bind_create_domain domain) db

  unfoldable pub find_domain_by_id : String → Db → Outcome (Option Domain) × Db
  find_domain_by_id id db =
      then_with (pg.fetch find_domain_sql (text id ∷ []) db)
        λ rows db'. (decode_optional decode_domain rows, db')

  unfoldable pub update_domain : Domain → Db → Outcome (Unit {0}) × Db
  update_domain domain db = pg.execute update_domain_sql (bind_update_domain domain) db

  -- What `start_cert` does with the certificate that it has read.
  unfoldable pub start_existing : Env → Cert → Db → Outcome (Option Cert) × Db
  start_existing env cert db =
      if is_ok cert.state
      then (let cert' = record cert { state = State.updating } in
          then_with (update_cert cert' db) (λ _ db'. (ok (some cert'), db')))
      else if timed_out env cert
      then (let cert' = record cert { update = to_i64 env.now; state = State.updating } in
          then_with (update_cert cert' db) (λ _ db'. (ok (some cert'), db')))
      else (ok none, db)

  unfoldable pub start_missing : Env → Db → Outcome (Option Cert) × Db
  start_missing env db =
      then_with (new_domain env, db)
        λ domain db'.
          let cert = new_cert env domain in
          then_with (create_domain domain db')
            λ _ db''. then_with (create_cert cert db'') (λ _ db'''. (ok (some cert), db'''))

  unfoldable pub start_with : Env → Option Cert → Db → Outcome (Option Cert) × Db
  start_with env none db = start_missing env db
  start_with env (some cert) db = start_existing env cert db

  unfoldable pub start_cert : Env → Db → Outcome (Option Cert) × Db
  start_cert env db = transaction pg (λ db'. then_with (first_cert db') (start_with env)) db

  -- The update goes through the pool and not through the transaction, which only reads: its end
  -- leaves the update as it is.
  abbrev pub stop_found : Cert → Option Cert → Db → Outcome Cert × Db
  stop_found memory_cert none db = (ok memory_cert, db)
  stop_found memory_cert (some stored) db =
      if still_running stored memory_cert
      then (let cert' = record memory_cert { state = State.ok } in
          then_with (update_cert cert' db) (λ _ db'. (ok cert', db')))
      else (ok memory_cert, db)

  abbrev pub end_read : Outcome Cert → Outcome (Unit {0}) → Outcome Cert
  end_read (ok cert) committed = do _ ← committed; ok cert
  end_read failed committed = failed

  abbrev pub stop_read : Cert → Db → Outcome (Option Cert) × Db → Outcome Cert × Db
  stop_read memory_cert db (ok stored, read) =
      let (result, db') = stop_found memory_cert stored db in
      (end_read result (pg.commit read), db')
  stop_read memory_cert db (err e, read) = (err e, db)
  stop_read memory_cert db (panic, read) = (panic, db)

  abbrev pub stop_begun : Cert → Outcome (Unit {0}) → Db → Outcome Cert × Db
  stop_begun memory_cert (ok _) db = stop_read memory_cert db (first_cert db)
  stop_begun memory_cert (err e) db = (err e, db)
  stop_begun memory_cert panic db = (panic, db)

  unfoldable pub stop_cert : Cert → Db → Outcome Cert × Db
  stop_cert memory_cert db = stop_begun memory_cert (pg.begin db) db

  -- The implementation of the interface.
  unfoldable pub postgres_facade : Facade Db
  postgres_facade = record {
    find_domain_by_id = find_domain_by_id;
    create_domain = create_domain;
    update_domain = update_domain;
    first_cert = first_cert;
    update_cert = update_cert;
    create_cert = create_cert;
    start_cert = start_cert;
    stop_cert = stop_cert;
  }
