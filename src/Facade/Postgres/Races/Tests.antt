-- ===== src/Facade/Postgres/Races/Tests.antt =====
-- A worker that stops while another takes its job over.
use acme_dns_rust.Base.{◌≡◌, refl, subst, true, some, [], ◌∷◌, arith, String, eq_iff}
use acme_dns_rust.Base.Map.{Map, string_key}
use acme_dns_rust.Base.Outcome.{ok}
use acme_dns_rust.Util.{to_i64, to_u64, sub_i64}
use acme_dns_rust.Facade.{Domain, Env}
use acme_dns_rust.Facade.Memory.{still_running, timed_out}
use acme_dns_rust.Facade.Single.{single, taken_at, finished, IsConsistent}
use acme_dns_rust.Facade.Postgres.Tables.{StorableCert}
use acme_dns_rust.Facade.Postgres.Sim.{Sim, get_single}
use acme_dns_rust.Facade.Postgres.Rows.{Rows, rows_postgres, rows_tables}
use acme_dns_rust.Facade.Postgres.Samples.{order, env, domain, cert}
use acme_dns_rust.Facade.Postgres.Races.Stop.{stop_around_start, stop_around_start-finished}

abbrev late_env : Env
late_env = record env { now = 9000 }

abbrev domains : Map String Domain
domains = (domain.id, domain) ∷ []

abbrev held_rows : Rows
held_rows = record { certs = cert ∷ []; domains = domain ∷ [] }

held_rows-Sim : Sim (rows_tables.view held_rows) (single cert domains)
unfolding rows_tables
held_rows-Sim = record {
  certs = λ k. refl;
  domains = λ k. refl;
  width =
      λ k c e. subst StorableCert (get_single k cert c e).0 ((refl, refl), (refl, refl), (tt, tt));
}

cert-IsConsistent : IsConsistent (single cert domains)
cert-IsConsistent = record {
  held = (refl, λ e. cc);
  named = λ k d e. ground (arith, eq_iff "11111111111111111111111111111111" k);
}

cert_runs : still_running cert cert ≡ true
unfolding still_running
cert_runs = refl

cert_late : timed_out late_env cert ≡ true
unfolding timed_out to_i64 to_u64 sub_i64
cert_late = refl

stop_around_start-finished_example :
    let ((stopped, started), db') = stop_around_start rows_postgres cert late_env held_rows in
    (stopped ≡ ok (finished cert))
    × (started ≡ ok (some (taken_at late_env cert)))
    × Sim (rows_tables.view db') (single (finished cert) domains)
stop_around_start-finished_example =
    stop_around_start-finished rows_postgres rows_tables order late_env held_rows cert cert domains
      cert-IsConsistent held_rows-Sim refl refl (tt, tt) cert_runs cert_late
