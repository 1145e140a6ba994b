-- ===== src/Program/Events/Tests.antt =====
-- A query, a registration and a renewal on an empty database.
use acme_dns_rust.Base.{
  ℕ, ◌≡◌, refl, sym, ap, subst, ◌≢◌, ◌∙◌, false, true, none, some, List, [], ◌∷◌, ◌++◌, arith,
  String, eq_iff,
}
use acme_dns_rust.Base.Map.{get, string_key}
use acme_dns_rust.Base.Outcome.{ok, ok_injective}
use acme_dns_rust.Facade.{Domain, default_dto, try_from, new_domain}
use acme_dns_rust.Facade.Memory.{Memory, memory_facade, create_domain, find_domain_by_id}
use acme_dns_rust.Facade.Single.{unstarted}
use acme_dns_rust.Facade.Postgres.Tables.{View}
use acme_dns_rust.Facade.Postgres.Rows.{rows_postgres, rows_tables}
use acme_dns_rust.Facade.Postgres.Starts.{IsNew, CanStart}
use acme_dns_rust.Facade.Postgres.Samples.{
  order, env, other_env, other_domain, no_rows, no_rows-Sim, nothing-IsConsistent,
}
use acme_dns_rust.Dns.Records.{Name, RecordType, Record, TrustDns}
use acme_dns_rust.Dns.Authority.{
  search_records, lookup_name, lookup_pre, lookup_database, lookup_domain,
}
use acme_dns_rust.Api.Routes.{Method, HttpRequest, Counters, handle, routes, register_handler}
use acme_dns_rust.Api.Routes.Postgres.{CanRegister}
use acme_dns_rust.Manager.{Acme, tick}
use acme_dns_rust.Manager.Postgres.Keeps.{IsKept}
use acme_dns_rust.Sql.Text.{IsText}
use acme_dns_rust.Manager.Postgres.{SuppliesTexts}
use acme_dns_rust.Program.Events.{Event, Parts, run_event}
use acme_dns_rust.Program.Events.Postgres.{
  on_postgres, on_memory, CanHandleAll, EventsAgree, run_events-Agrees,
}

abbrev name : Name
name = record { labels = (97 ∷ []) ∷ []; fqdn = true }

abbrev lists : TrustDns (List Record)
lists = record {
  name_is_empty = λ name. false;
  name_eq = λ m n. false;
  show_name = λ name. "host";
  with_ttl = λ name type ttl. [];
  add_rdata = λ r set. (set ++ record { name = name; ttl = 0; rdata = r } ∷ [], true);
  is_empty = λ set. false;
  set_name = λ set. name;
  records = λ set. set;
  from_record = λ r. r ∷ [];
}

abbrev parts : Parts (List Record)
parts = record {
  dns = lists;
  authority = record {
    origin = name;
    records = [];
    lookup_host = λ host. ok [];
    from_utf8 = λ label. some "00000000000000000000000000000000";
  };
  to_json = λ res. some "json";
  show_status = λ n. "status";
}

-- An order that is complete at once.
abbrev acme : Acme View ℕ (Unit {0}) String
acme = record {
  new_order = ok 0;
  confirm_validations = λ n. some "request";
  authorizations = λ n. ok (tt ∷ []);
  dns_proof = λ auth. "proof";
  validate = λ auth view n. ok n;
  refresh = λ n. ok n;
  finalize = λ csr. ok ("key", "chain");
}

abbrev registered : Domain
registered = record {
  id = "00000000000000000000000000000000";
  username = "11111111111111111111111111111111";
  password = "hhhhhhhhhhhhhhhhhhhhhhhhhhhhhhhhhhhhhhhhhhhhhhhhhhhhhhhhhhhh";
  txt = none;
}

registered-IsNew : IsNew (unstarted []) registered
registered-IsNew = record {
  width = ((refl, refl), (refl, refl), (refl, refl), tt);
  unused = refl;
  alone = λ k x e. cc;
}

env-registered : try_from env (default_dto env) ≡ ok registered
unfolding try_from default_dto
env-registered = refl

env-CanRegister : CanRegister env (unstarted [])
env-CanRegister d made =
    subst (IsNew (unstarted [])) (ok_injective (sym env-registered ∙ made)) registered-IsNew

abbrev after_registration : Memory
after_registration = unstarted ((registered.id, registered) ∷ [])

other-IsNew : IsNew after_registration other_domain
other-IsNew = record {
  width = ((refl, refl), (refl, refl), (refl, refl), tt);
  unused = refl;
  alone = λ k x e. apart x (is_registered k x e);
}
  where
    is_registered :
        (k : String) (x : Domain)
        → get k ((registered.id, registered) ∷ []) ≡ some x
        → registered ≡ x
    is_registered k x e = ground (arith, eq_iff registered.id k)

    apart :
        (x : Domain)
        → registered ≡ x
        → (x.username ≢ other_domain.username) × (x.password ≢ other_domain.password)
    apart x e =
        subst (λ y. (y.username ≢ other_domain.username) × (y.password ≢ other_domain.password)) e
          (
            ground (arith, eq_iff registered.username other_domain.username),
            ground (arith, eq_iff registered.password other_domain.password),
          )

other_made : new_domain other_env ≡ ok other_domain
unfolding new_domain
other_made = refl

other-CanStart : CanStart other_env after_registration
other-CanStart = record {
  wide = (refl, refl);
  new = λ _ d made.
      subst (IsNew after_registration) (ok_injective (sym other_made ∙ made)) other-IsNew;
}

nothing-IsKept : IsKept (unstarted [])
nothing-IsKept = record {
  consistent = nothing-IsConsistent;
  storable = record { width = λ k d e. cc; apart = λ k k' d d' e e' ne. cc };
}

abbrev register : HttpRequest
register = record {
  method = Method.post;
  segments = "register" ∷ [];
  full_path = "/register";
  header = λ field. none;
}

abbrev events : List Event
events =
    Event.query (record { name = name; query_type = RecordType.txt })
    ∷ Event.request env register
    ∷ Event.interval 1 env
    ∷ Event.renewal 1 other_env
    ∷ []

abbrev counters : Counters
counters labels = 0

acme-SuppliesTexts : SuppliesTexts acme.dns_proof acme.finalize
acme-SuppliesTexts = record {
  proofs = λ auth. refl;
  issued = λ csr key chain e.
      let p : ("key", "chain") ≡ (key, chain) = ok_injective e in
      (subst IsText (ap (λ x. x.0) p) refl, subst IsText (ap (λ x. x.1) p) refl);
}

events-CanHandleAll :
    CanHandleAll rows_postgres rows_tables order parts acme events (unstarted [], counters)
unfolding run_event tick search_records lookup_name lookup_pre lookup_database lookup_domain handle
    routes register_handler memory_facade find_domain_by_id create_domain try_from default_dto
    rows_tables
events-CanHandleAll = (
  (λ label id labelled text.
      (let same : "00000000000000000000000000000000" ≡ id = cc in subst IsText same refl)),
  (env-CanRegister, (tt, ((other-CanStart, acme-SuppliesTexts), tt))),
)

run_events-Agrees_example :
    EventsAgree rows_postgres rows_tables order parts acme
      (on_postgres rows_postgres rows_tables order parts acme events (no_rows, counters))
      (on_memory rows_postgres rows_tables order parts acme events (unstarted [], counters))
    × IsKept
        (on_memory rows_postgres rows_tables order parts acme events (unstarted [], counters)).1.0
run_events-Agrees_example =
    run_events-Agrees rows_postgres rows_tables order parts acme events no_rows (unstarted [])
      counters nothing-IsKept events-CanHandleAll no_rows-Sim
