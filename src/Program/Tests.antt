-- ===== src/Program/Tests.antt =====
-- A program that is configured without a listener for its API.
use acme_dns_rust.Base.{◌≡◌, refl, ◌↔◌, inr, none, List, [], ◌∷◌}
use acme_dns_rust.Base.Outcome.{Outcome, ok}
use acme_dns_rust.Config.Listener.{disabled}
use acme_dns_rust.Config.File.{Config, default_acme}
use acme_dns_rust.Dns.Authority.Object.{new as new_authority}
use acme_dns_rust.Dns.Server.{root, serving, spawn}
use acme_dns_rust.Manager.Start.{new as new_manager, spawn as spawn_manager, cert_manager}
use acme_dns_rust.Api.Listeners.{Poll, pending, ready, running, listen, poll_handles}
use acme_dns_rust.Program.{Outside, Moment, setup_database, branches, run, Selects}
use acme_dns_rust.Program.Ends.{NoListener, all_running, IsQuiet, run-ends_iff}

abbrev outside : Outside (Unit {0}) (Unit {0}) (Unit {0})
outside = record {
  runtime = ok tt;
  from_str = λ db. ok tt;
  connect_with = λ options. ok tt;
  migrate = λ pool. ok tt;
  parse_name = λ name. ok root;
  lower_name = λ name. name;
  lookup_host = λ name. ok [];
  from_utf8 = λ bytes. none;
  bind = λ addr. ok tt;
  bind_udp = λ addr. ok tt;
}

abbrev config : Config (Unit {0})
config = record {
  general = record {
    test = none;
    dns = "0.0.0.0:53";
    db = "postgres://";
    acme = default_acme;
    name = "acme.example.com";
  };
  api = record { http = (none, disabled); https = (none, disabled); prom = (none, disabled) };
  records = [];
}

abbrev moment : Moment
moment = record {
  tasks = all_running;
  from_url = λ acme. ready (ok tt);
  manager = running;
  server = serving;
  ctrl_c = pending;
}

abbrev polls : List Poll
polls = ready (ok tt) ∷ pending ∷ pending ∷ pending ∷ []

abbrev ended : Outcome (Unit {0})
ended = ok tt

starts : run outside (ok config) moment ≡ ok polls
unfolding run setup_database branches listen poll_handles new_authority cert_manager new_manager
    spawn_manager spawn
starts = refl

moment-IsQuiet : IsQuiet outside config moment
moment-IsQuiet = record {
  directory = inr refl;
  manager = refl;
  socket = (tt, refl);
  server = refl;
  ctrl_c = refl;
}

run-ends_iff_example : Selects polls ended ↔ (NoListener config.api × (ended ≡ ok tt))
run-ends_iff_example =
    run-ends_iff outside config moment polls ended starts tt tt tt refl moment-IsQuiet
