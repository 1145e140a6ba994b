-- ===== src/Program/Events/Challenge/Tests.antt =====
-- A registration and a tick while a renewal waits for its challenge.
use acme_dns_rust.Base.{
  ℕ, ◌≡◌, refl, sym, ap, subst, ◌≢◌, ◌∙◌, false, true, none, some, List, [], ◌∷◌, ◌++◌, arith,
  String, eq_iff,
}
use acme_dns_rust.Base.Map.{Map, get, string_key}
use acme_dns_rust.Base.Outcome.{ok, ok_injective}
use acme_dns_rust.Facade.{Domain, default_dto, try_from}
use acme_dns_rust.Facade.Memory.{Memory, first_cert}
use acme_dns_rust.Facade.Single.{single}
use acme_dns_rust.Facade.Postgres.{postgres_facade}
use acme_dns_rust.Facade.Postgres.Tables.{View, StorableCert, StorableDomain}
use acme_dns_rust.Facade.Postgres.Sim.{Sim, get_single}
use acme_dns_rust.Facade.Postgres.Rows.{Rows, rows_postgres, rows_tables}
use acme_dns_rust.Facade.Postgres.Starts.{IsNew}
use acme_dns_rust.Facade.Postgres.Samples.{order, env, other_env, proved, cert}
use acme_dns_rust.Dns.Records.{Name, RecordType, Record}
use acme_dns_rust.Dns.Authority.{
  Query, acme_challenge_label, txt_record, search_records, lookup_pre,
}
use acme_dns_rust.Dns.Authority.Answers.{IsOpen}
use acme_dns_rust.Api.Routes.{Method, HttpRequest, Counters}
use acme_dns_rust.Api.Routes.Postgres.{CanRegister}
use acme_dns_rust.Manager.{Acme, tick}
use acme_dns_rust.Manager.Postgres.Keeps.{IsKept}
use acme_dns_rust.Sql.Text.{IsText}
use acme_dns_rust.Program.Events.{Event, Parts, run_event}
use acme_dns_rust.Program.Events.Postgres.{on_postgres, CanHandle, CanHandleAll}
use acme_dns_rust.Program.Events.Challenge.{HasChallenge}
use acme_dns_rust.Program.Events.Challenge.Postgres.{on_postgres-search_records}

abbrev name : Name
name = record { labels = acme_challenge_label ∷ []; fqdn = true }

abbrev parts : Parts (List Record)
parts = record {
  dns = record {
    name_is_empty = λ name. false;
    name_eq = λ m n. false;
    show_name = λ name. "host";
    with_ttl = λ name type ttl. [];
    add_rdata = λ r set. (set ++ record { name = name; ttl = 0; rdata = r } ∷ [], true);
    is_empty = λ set. false;
    set_name = λ set. name;
    records = λ set. set;
    from_record = λ r. r ∷ [];
  };
  authority = record {
    origin = name;
    records = [];
    lookup_host = λ host. ok [];
    from_utf8 = λ label. some "_acme-challenge";
  };
  to_json = λ res. some "json";
  show_status = λ n. "status";
}

abbrev acme : Acme View ℕ (Unit {0}) String
acme = record {
  new_order = ok 0;
  confirm_validations = λ n. some "request";
  authorizations = λ n. ok (tt ∷ []);
  dns_proof = λ auth. "proof";
  validate = λ auth view n. ok n;
  refresh = λ n. ok n;
  finalize = λ csr. ok ("key", "chain");
}

abbrev domains : Map String Domain
domains = (proved.id, proved) ∷ []

abbrev waiting : Memory
waiting = single cert domains

abbrev waiting_rows : Rows
waiting_rows = record { certs = cert ∷ []; domains = proved ∷ [] }

waiting_rows-Sim : Sim (rows_tables.view waiting_rows) waiting
unfolding rows_tables
waiting_rows-Sim = record {
  certs = λ k. refl;
  domains = λ k. refl;
  width =
      λ k c e. subst StorableCert (get_single k cert c e).0 ((refl, refl), (refl, refl), (tt, tt));
}

is_proved : (k : String) (x : Domain) → get k domains ≡ some x → (proved ≡ x) × (proved.id ≡ k)
is_proved k x e = ground (arith, eq_iff proved.id k)

waiting-IsKept : IsKept waiting
waiting-IsKept = record {
  consistent = record {
    held = (refl, λ e. cc);
    named = λ k d e. ap (λ y. y.id) (sym (is_proved k d e).0) ∙ (is_proved k d e).1;
  };
  storable = record {
    width = λ k d e.
        subst StorableDomain (is_proved k d e).0 ((refl, refl), (refl, refl), (refl, refl), refl);
    apart = λ k k' d d' e e' ne. absurd (ne (sym (is_proved k d e).1 ∙ (is_proved k' d' e').1));
  };
}

abbrev registered : Domain
registered = record {
  id = "44444444444444444444444444444444";
  username = "55555555555555555555555555555555";
  password = "iiiiiiiiiiiiiiiiiiiiiiiiiiiiiiiiiiiiiiiiiiiiiiiiiiiiiiiiiiii";
  txt = none;
}

registered-IsNew : IsNew waiting registered
registered-IsNew = record {
  width = ((refl, refl), (refl, refl), (refl, refl), tt);
  unused = refl;
  alone = λ k x e. apart x (is_proved k x e).0;
}
  where
    apart :
        (x : Domain)
        → proved ≡ x
        → (x.username ≢ registered.username) × (x.password ≢ registered.password)
    apart x e =
        subst (λ y. (y.username ≢ registered.username) × (y.password ≢ registered.password)) e
          (
            ground (arith, eq_iff proved.username registered.username),
            ground (arith, eq_iff proved.password registered.password),
          )

made : try_from other_env (default_dto other_env) ≡ ok registered
unfolding try_from default_dto
made = refl

other-CanRegister : CanRegister other_env waiting
other-CanRegister d e = subst (IsNew waiting) (ok_injective (sym made ∙ e)) registered-IsNew

abbrev register : HttpRequest
register = record {
  method = Method.post;
  segments = "register" ∷ [];
  full_path = "/register";
  header = λ field. none;
}

abbrev events : List Event
events = Event.interval 1 env ∷ Event.request other_env register ∷ []

abbrev counters : Counters
counters labels = 0

events-CanHandleAll :
    CanHandleAll rows_postgres rows_tables order parts acme events (waiting, counters)
unfolding run_event tick
events-CanHandleAll = (tt, (other-CanRegister, tt))

abbrev challenge : Query
challenge = record { name = name; query_type = RecordType.txt }

challenge-IsOpen : IsOpen parts.dns parts.authority challenge acme_challenge_label
unfolding lookup_pre
challenge-IsOpen = record { type = refl; labelled = refl; named = refl; unanswered = refl }

waiting-HasChallenge : HasChallenge order cert proved waiting
unfolding first_cert
waiting-HasChallenge = record { first = refl; stored = refl }

draws_apart : other_env.uuid 0 ≢ cert.domain
draws_apart = ground (arith, eq_iff (other_env.uuid 0) cert.domain)

asks : CanHandle rows_postgres rows_tables order parts acme (Event.query challenge) waiting
unfolding rows_tables
asks label id labelled text = (let same : "_acme-challenge" ≡ id = cc in subst IsText same refl)

on_postgres-search_records_example :
    let db' =
      (on_postgres rows_postgres rows_tables order parts acme events
        (waiting_rows, counters)).1.0 in
    (search_records parts.dns parts.authority (postgres_facade rows_postgres) challenge db').0
    ≡ ok (txt_record parts.dns parts.authority name "proof")
on_postgres-search_records_example =
    on_postgres-search_records rows_postgres rows_tables order parts acme events waiting_rows
      waiting counters cert proved challenge "proof" waiting-IsKept waiting_rows-Sim
      events-CanHandleAll (tt, (draws_apart, tt)) waiting-HasChallenge refl challenge-IsOpen asks
