-- ===== src/Facade/Postgres/Tests.antt =====
-- Calls on the database of rows, alone and overlapping.
use acme_dns_rust.Base.{◌≡◌, refl, sym, ap, subst, ◌≢◌, some, List, [], ◌∷◌, arith, String, eq_iff}
use acme_dns_rust.Base.Map.{Map, get, string_key}
use acme_dns_rust.Base.Outcome.{ok, err, Error}
use acme_dns_rust.Sql.{Postgres}
use acme_dns_rust.Util.{to_i64}
use acme_dns_rust.Facade.{Cert, Domain, new_domain, new_cert}
use acme_dns_rust.Facade.Memory.{
  Memory, still_running, memory_facade, start_cert, update_domain, create_domain, first_cert,
  find_domain_by_id,
}
use acme_dns_rust.Facade.Single.{single, unstarted, IsConsistent}
use acme_dns_rust.Facade.Postgres.{postgres_facade}
use acme_dns_rust.Facade.Postgres.Tables.{StorableCert}
use acme_dns_rust.Facade.Postgres.Sim.{Sim, get_single}
use acme_dns_rust.Facade.Postgres.Starts.{IsNew}
use acme_dns_rust.Facade.Postgres.Calls.{IsVersion}
use acme_dns_rust.Facade.Postgres.Runs.{
  Call, Answer, run_call, run_calls, CanRun, run_calls-refines,
}
use acme_dns_rust.Facade.Postgres.{
  update_cert, bind_update_cert, stop_cert, encode_state, first_cert as first_row, decode_cert,
  decode_state,
}
use acme_dns_rust.Facade.Postgres.Errors.{stop_cert-commit}
use acme_dns_rust.Facade.Postgres.Races.{
  overlapping, left, overlapping-start_cert, overlapping_two_certs,
}
use acme_dns_rust.Facade.Postgres.Rows.{
  Rows, rows_postgres, rows_tables, run_update_cert, run_execute, run_fetch,
}
use acme_dns_rust.Facade.Postgres.Samples.{
  no_rows-Sim, domain-IsNew, env-domain, nothing-IsConsistent, env-CanStart, order, env, other_env,
  domain, other_domain, proved, cert, idle, no_rows,
}

idle-IsConsistent : IsConsistent (single idle ((domain.id, domain) ∷ []))
idle-IsConsistent = record {
  held = (refl, λ e. cc);
  named = λ k d e. ground (arith, eq_iff "11111111111111111111111111111111" k);
}

get_key : (k : String) (x : Domain) → get k ((domain.id, domain) ∷ []) ≡ some x → domain.id ≡ k
get_key k x e = ground (arith, eq_iff "11111111111111111111111111111111" k)

started : Memory
started = single cert ((domain.id, domain) ∷ [])

first_call :
    run_call (memory_facade order) (Call.start env) (unstarted [])
    ≡ (ok (Answer.cert (some cert)), started)
unfolding started run_call memory_facade start_cert new_domain to_i64 new_cert
first_call = refl

proved-IsVersion : IsVersion started proved
unfolding started
proved-IsVersion = record {
  width = ((refl, refl), (refl, refl), (refl, refl), refl);
  there = λ e. cc;
  alone = λ k x e ne. absurd (ne (sym (get_key k x e)));
}

is_cert : (x : Cert) → some cert ≡ some x → cert ≡ x
is_cert x e = cc

abbrev calls : List Call
calls = Call.start env ∷ Call.update proved ∷ Call.find proved.id ∷ Call.stop cert ∷ Call.first ∷ []

calls-CanRun : CanRun order (unstarted []) calls
unfolding run_call memory_facade start_cert new_domain to_i64 new_cert update_domain started
    first_cert find_domain_by_id rows_tables
calls-CanRun = (
  env-CanStart,
  (
    proved-IsVersion,
    (
      refl,
      (
        ((λ x e. (ap (λ c. c.id) (is_cert x e), ap (λ c. c.domain) (is_cert x e))), (tt, tt)),
        (tt, tt),
      ),
    ),
  ),
)

run_calls-refines_example :
    ((run_calls (postgres_facade rows_postgres) calls no_rows).0
      ≡ (run_calls (memory_facade order) calls (unstarted [])).0)
    × Sim
        (rows_tables.view (run_calls (postgres_facade rows_postgres) calls no_rows).1)
        (run_calls (memory_facade order) calls (unstarted [])).1
run_calls-refines_example =
    run_calls-refines order rows_postgres rows_tables calls no_rows (unstarted [])
      nothing-IsConsistent calls-CanRun no_rows-Sim

abbrev idle_rows : Rows
idle_rows = record { certs = idle ∷ []; domains = domain ∷ [] }

idle_rows-Sim : Sim (rows_tables.view idle_rows) (single idle ((domain.id, domain) ∷ []))
unfolding rows_tables
idle_rows-Sim = record {
  certs = λ k. refl;
  domains = λ k. refl;
  width =
      λ k c e. subst StorableCert (get_single k idle c e).0 ((refl, refl), (refl, refl), (tt, tt));
}

abbrev one_domain : Map String Domain
one_domain = (domain.id, domain) ∷ []

overlapping-start_cert_example :
    ((overlapping rows_postgres env other_env idle_rows).0 ≡ (
      (start_cert order env (single idle one_domain)).0,
      (start_cert order other_env (single idle one_domain)).0,
    ))
    × Sim
        (rows_tables.view (overlapping rows_postgres env other_env idle_rows).1)
        (single (left other_env idle (left env idle idle)) one_domain)
overlapping-start_cert_example =
    overlapping-start_cert rows_postgres rows_tables env other_env order idle_rows idle
      ((domain.id, domain) ∷ []) idle-IsConsistent idle_rows-Sim

other-IsNew : IsNew (create_domain domain (unstarted [])) other_domain
unfolding create_domain
other-IsNew = record {
  width = ((refl, refl), (refl, refl), (refl, refl), tt);
  unused = refl;
  alone = λ k x e. apart x (is_domain k x e);
}
  where
    is_domain : (k : String) (x : Domain) → get k ((domain.id, domain) ∷ []) ≡ some x → domain ≡ x
    is_domain k x e = ground (arith, eq_iff domain.id k)

    names_apart : domain.username ≢ other_domain.username
    names_apart = ground (arith, eq_iff domain.username other_domain.username)

    hashes_apart : domain.password ≢ other_domain.password
    hashes_apart = ground (arith, eq_iff domain.password other_domain.password)

    apart :
        (x : Domain)
        → domain ≡ x
        → (x.username ≢ other_domain.username) × (x.password ≢ other_domain.password)
    apart x e =
        subst (λ y. (y.username ≢ other_domain.username) × (y.password ≢ other_domain.password)) e
          (names_apart, hashes_apart)

other_made : new_domain other_env ≡ ok other_domain
unfolding new_domain
other_made = refl

overlapping_two_certs_example :
    let ((result, result'), db') = overlapping rows_postgres env other_env no_rows in
    (result ≡ ok (some (new_cert env domain)))
    × (result' ≡ ok (some (new_cert other_env other_domain)))
    × ((rows_tables.view db').cert_at (env.uuid 3) ≡ some (new_cert env domain))
    × ((rows_tables.view db').cert_at (other_env.uuid 3) ≡ some (new_cert other_env other_domain))
overlapping_two_certs_example =
    overlapping_two_certs rows_postgres rows_tables env other_env no_rows [] domain other_domain
      no_rows-Sim env-domain other_made domain-IsNew other-IsNew (refl, refl) (refl, refl) ids_apart
  where
    ids_apart : env.uuid 3 ≢ other_env.uuid 3
    ids_apart = ground (arith, eq_iff (env.uuid 3) (other_env.uuid 3))

-- A database that loses every commit.
abbrev no_commit : Postgres Rows
no_commit = record rows_postgres { commit = λ db. err (Error.sqlx "connection") }

abbrev held_rows : Rows
held_rows = record { certs = cert ∷ []; domains = domain ∷ [] }

stop_cert-commit_example :
    ((stop_cert no_commit cert held_rows).0 ≢ ok idle)
    × ((stop_cert no_commit cert held_rows).1 ≡ (stop_cert rows_postgres cert held_rows).1)
stop_cert-commit_example =
    stop_cert-commit rows_postgres (Error.sqlx "connection") cert idle held_rows

-- What is stored then.
held_stopped : (stop_cert no_commit cert held_rows).1 ≡ idle_rows
unfolding stop_cert first_row update_cert run_fetch run_execute run_update_cert bind_update_cert
    encode_state decode_cert decode_state still_running
held_stopped = refl
