-- ===== src/Api/Server/Tests.antt =====
-- Three connections, of which one task ends and one panics.
use acme_dns_rust.Base.{◌≡◌, refl, some, List, [], ◌∷◌}
use acme_dns_rust.Base.Int.{pos}
use acme_dns_rust.Api.Server.{
  Event, connection, failed_connection, task_done, task_panicked, waiting, Server, started,
  gauge_inc, gauge_dec, on_next, on_task, serve, serve_all,
}
use acme_dns_rust.Api.Server.Counted.{panics, ends, IsCounted, serve_all-IsCounted}

abbrev events : List Event
events = connection ∷ failed_connection ∷ connection ∷ task_done ∷ connection ∷ task_panicked ∷ []

abbrev after : Server
after = record { loop = waiting; running = 1; total = 3; opened = pos 2 }

served : serve_all events started ≡ some after
unfolding serve_all serve on_next on_task gauge_inc gauge_dec
served = refl

serve_all-IsCounted_example : IsCounted (panics events) (ends events) after
serve_all-IsCounted_example = serve_all-IsCounted events after served
