-- ===== src/Facade/Postgres/Serial/Tests.antt =====
-- Two starts on an empty database, one after the other.
use acme_dns_rust.Base.{◌≡◌, refl, none, some, [], arith}
use acme_dns_rust.Base.Outcome.{ok}
use acme_dns_rust.Util.{to_i64}
use acme_dns_rust.Facade.Jobs.{StoredIs}
use acme_dns_rust.Facade.{State, new_domain, new_cert}
use acme_dns_rust.Facade.Memory.{first_cert, start_cert as memory_start_cert}
use acme_dns_rust.Facade.Single.{unstarted}
use acme_dns_rust.Facade.Postgres.{start_cert}
use acme_dns_rust.Facade.Postgres.Sim.{Sim}
use acme_dns_rust.Facade.Postgres.Starts.{start_cert-Agrees}
use acme_dns_rust.Facade.Postgres.Rows.{rows_postgres, rows_tables}
use acme_dns_rust.Facade.Postgres.Samples.{
  order, env, other_env, cert, no_rows, no_rows-Sim, nothing-IsConsistent, env-CanStart,
}
use acme_dns_rust.Facade.Postgres.Serial.{serial_exclusive}

first_start : (start_cert rows_postgres env no_rows).0 ≡ ok (some cert)
unfolding memory_start_cert new_domain to_i64 new_cert
first_start =
    (start_cert-Agrees rows_postgres rows_tables order env no_rows (unstarted [])
      nothing-IsConsistent env-CanStart no_rows-Sim).0

nothing-StoredIs : StoredIs order (unstarted []) State.updating
unfolding first_cert
nothing-StoredIs x e = cc

serial_exclusive_example :
    let db' = (start_cert rows_postgres env no_rows).1 in
    ((start_cert rows_postgres other_env db').0 ≡ ok none)
    × Sim
        (rows_tables.view (start_cert rows_postgres other_env db').1)
        (memory_start_cert order env (unstarted [])).1
serial_exclusive_example =
    serial_exclusive rows_postgres rows_tables order env no_rows (unstarted []) nothing-IsConsistent
      env-CanStart no_rows-Sim cert first_start other_env (refl, refl) nothing-StoredIs
      (omega arith) (omega arith) (omega arith)
