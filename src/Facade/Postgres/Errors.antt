-- ===== src/Facade/Postgres/Errors.antt =====
-- What is left of a call of the Postgres facade that fails.
use acme_dns_rust.Base.{◌≢◌, arith, ◌≡◌}
use acme_dns_rust.Base.Outcome.{ok, err, Error}
use acme_dns_rust.Sql.{Postgres, then_with, RollsBack, transaction-RollsBack}
use acme_dns_rust.Facade.{Cert, Env}
use acme_dns_rust.Facade.Postgres.{first_cert, update_cert, start_with, start_cert, stop_cert}

module _ {Db : Type 0} (pg : Postgres Db) where
  -- A start that fails leaves the database as it was.
  pub start_cert-RollsBack : (env : Env) (db : Db) → RollsBack db (start_cert pg env db)
  unfolding start_cert
  start_cert-RollsBack env db =
      transaction-RollsBack pg (λ db'. then_with (first_cert pg db') (start_with pg env)) db

  -- Over any database and from any state of it, if its commits fail, stop_cert on Postgres does
  -- not succeed, and yet it leaves the database as it does where they succeed, the update of a
  -- finished job included.
  pub stop_cert-commit :
      (cause : Error) (m stopped : Cert) (db : Db)
      → let failing = record pg { commit = λ db'. err cause } in
        ((stop_cert failing m db).0 ≢ ok stopped)
        × ((stop_cert failing m db).1 ≡ (stop_cert pg m db).1)
  unfolding stop_cert first_cert update_cert
  stop_cert-commit cause m stopped db = ground arith
