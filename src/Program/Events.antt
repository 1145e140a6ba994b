-- ===== src/Program/Events.antt =====
-- The program of src/lib.rs at work: its name server (src/dns/authority.rs), its routes
-- (src/api/routes.rs) and its certificate manager (src/cert.rs) share one facade, and handle what
-- arrives one after the other, in any order: a composition of the models, which the source does not
-- write out. What they hold beside the store are the counters of
-- the metrics.
pub mod Postgres
pub mod Challenge
mod Tests
use acme_dns_rust.Base.{ℕ, Option, List, [], ◌∷◌, String}
use acme_dns_rust.Base.Outcome.{Outcome}
use acme_dns_rust.Facade.{DomainDto, Env, Facade}
use acme_dns_rust.Dns.Records.{TrustDns}
use acme_dns_rust.Dns.Authority.{Lookup, Query, Authority, search_records}
use acme_dns_rust.Api.Routes.{HttpRequest, Response, Counters, handle}
use acme_dns_rust.Manager.{Acme, Run, manage, tick}

-- What arrives: a query, a request with what its handler draws, a tick of the manager's interval, or
-- a call of `manage`, which the tick leaves out; both with what `manage` draws and the fuel of its
-- loop.
pub data Event : Type 0 where
  query : Query → Event
  request : Env → HttpRequest → Event
  interval : ℕ → Env → Event
  renewal : ℕ → Env → Event

pub data Reply (RecordSet : Type 0) : Type 0 where
  looked_up : Outcome (Lookup RecordSet) → Reply RecordSet
  responded : Outcome Response → Reply RecordSet
  passed : Reply RecordSet
  renewed : Run (Unit {0}) → Reply RecordSet

-- What the parts take from outside.
pub record Parts (RecordSet : Type 0) : Type 0 where
  pub dns : TrustDns RecordSet
  pub authority : Authority RecordSet
  pub to_json : DomainDto → Option String
  pub show_status : ℕ → String

module _ {RecordSet S NewOrder Auth Csr : Type 0} (parts : Parts RecordSet)
    (acme : Acme S NewOrder Auth Csr) (facade : Facade S) where
  unfoldable pub run_event : Event → S × Counters → Reply RecordSet × (S × Counters)
  run_event (query q) (s, counters) =
      let (answer, s') = search_records parts.dns parts.authority facade q s in
      (looked_up answer, (s', counters))
  run_event (request env r) state =
      let (answer, state') = handle facade parts.to_json parts.show_status env r state in
      (responded answer, state')
  run_event (interval fuel env) (s, counters) = (passed, (tick acme facade fuel env s, counters))
  run_event (renewal fuel env) (s, counters) =
      let (result, s') = manage acme facade fuel env s in (renewed result, (s', counters))

  unfoldable pub run_events : List Event → S × Counters → List (Reply RecordSet) × (S × Counters)
  run_events [] state = ([], state)
  run_events (e ∷ events) state =
      let (reply, state') = run_event e state in
      let (replies, state'') = run_events events state' in (reply ∷ replies, state'')
