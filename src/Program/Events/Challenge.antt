-- ===== src/Program/Events/Challenge.antt =====
-- The challenge of a renewal, while the rest of the program goes on.
pub mod Postgres
mod Tests
use acme_dns_rust.Base.{
  ◌≡◌, refl, sym, ap, subst, ◌∙◌, ◌≢◌, Bool-cases, inl, inr, false, true, none, some, List, [], ◌∷◌,
  arith, String, eq_iff, if◌then◌else◌, str_eq, Option,
}
use acme_dns_rust.Base.Map.{get, get-insert, string_key}
use acme_dns_rust.Base.Outcome.{Outcome, ok, err, panic}
use acme_dns_rust.Facade.{Cert, Domain, DomainDto, Env, default_dto, try_from}
use acme_dns_rust.Facade.Memory.{Memory, Order, memory_facade, first_cert, create_domain}
use acme_dns_rust.Api.Routes.{
  HttpRequest, Counters, create, register_handler, is_register, routes, handle,
}
use acme_dns_rust.Dns.Authority.{Query, acme_challenge_label, txt_record, search_records}
use acme_dns_rust.Dns.Authority.Answers.{IsOpen, search_records-pure, search_records-challenge}
use acme_dns_rust.Manager.{Acme, tick}
use acme_dns_rust.Program.Events.{
  Event, query, request, interval, renewal, Parts, run_event, run_events,
}

-- No renewal, and no registration draws this id.
abbrev pub Spares : String → Event → Type 0
Spares id (query q) = Unit {0}
Spares id (request env r) = env.uuid 0 ≢ id
Spares id (interval fuel env) = Unit {0}
Spares id (renewal fuel env) = ⊥

abbrev pub SparesAll : String → List Event → Type 0
SparesAll id [] = Unit {0}
SparesAll id (e ∷ events) = Spares id e × SparesAll id events

-- The first certificate is that of a domain with the text.
pub record HasChallenge (order : Order) (c : Cert) (d : Domain) (m : Memory) : Type 0 where
  pub first : first_cert order m ≡ some c
  pub stored : get c.domain m.domains ≡ some d

create_domain-HasChallenge :
    (order : Order) (c : Cert) (d x : Domain) (m : Memory)
    → x.id ≢ c.domain
    → HasChallenge order c d m
    → HasChallenge order c d (create_domain x m)
unfolding create_domain first_cert
create_domain-HasChallenge order c d x m other h = record {
  first = h.first;
  stored = get-insert x.id c.domain x m.domains ∙ ground (arith, eq_iff x.id c.domain, h.stored);
}

module _ {RecordSet NewOrder Auth Csr : Type 0} (parts : Parts RecordSet)
    (acme : Acme Memory NewOrder Auth Csr) (order : Order) (c : Cert) (d : Domain) where
  register-HasChallenge :
      (env : Env) (m : Memory)
      → env.uuid 0 ≢ c.domain
      → HasChallenge order c d m
      → HasChallenge order c d
          (register_handler (memory_facade order) parts.to_json parts.show_status env m).1
  unfolding register_handler memory_facade default_dto try_from
  register-HasChallenge env m other h = by_hash (env.hash (env.uuid 2)) refl
    where
      by_hash :
          (hashed : Outcome String)
          → env.hash (env.uuid 2) ≡ hashed
          → HasChallenge order c d
              (register_handler (memory_facade order) parts.to_json parts.show_status env m).1
      by_hash (ok password) e =
          rw (e, register_handler) (create_domain-HasChallenge order c d _ m other h)
      by_hash (err cause) e = rw (e, register_handler) h
      by_hash panic e = rw (e, register_handler) h

  handle-HasChallenge :
      (env : Env) (r : HttpRequest) (m : Memory) (counters : Counters)
      → env.uuid 0 ≢ c.domain
      → HasChallenge order c d m
      → HasChallenge order c d
          (handle (memory_facade order) parts.to_json parts.show_status env r (m, counters)).1.0
  unfolding handle routes
  handle-HasChallenge env r m counters other h =
      elim (Bool-cases (is_register (memory_facade order) parts.to_json parts.show_status r)) [
        | inl registers ↦ rw registers (register-HasChallenge env m other h)
        | inr not_register ↦ rw not_register h
      ]

  run_event-HasChallenge :
      (e : Event) (m : Memory) (counters : Counters)
      → Spares c.domain e
      → HasChallenge order c d m
      → HasChallenge order c d (run_event parts acme (memory_facade order) e (m, counters)).1.0
  unfolding run_event tick
  run_event-HasChallenge (query q) m counters spares h =
      subst (HasChallenge order c d) (sym (search_records-pure parts.dns parts.authority order q m))
        h
  run_event-HasChallenge (request env r) m counters spares h =
      handle-HasChallenge env r m counters spares h
  run_event-HasChallenge (interval fuel env) m counters spares h = h
  run_event-HasChallenge (renewal fuel env) m counters spares h = absurd spares

  run_events-HasChallenge :
      (events : List Event) (m : Memory) (counters : Counters)
      → SparesAll c.domain events
      → HasChallenge order c d m
      → HasChallenge order c d
          (run_events parts acme (memory_facade order) events (m, counters)).1.0
  unfolding run_events
  run_events-HasChallenge [] m counters spares h = h
  run_events-HasChallenge (e ∷ events) m counters (own, spares) h =
      let state = (run_event parts acme (memory_facade order) e (m, counters)).1 in
      run_events-HasChallenge events state.0 state.1 spares
        (run_event-HasChallenge e m counters own h)

  -- While the first certificate is that of a domain with a text, and the program handles queries,
  -- requests and ticks, none of which draws the id of that domain, an open query for the challenge
  -- label is answered with the text.
  pub run_events-search_records :
      (events : List Event) (m : Memory) (counters : Counters) (q : Query) (proof : String)
      → SparesAll c.domain events
      → HasChallenge order c d m
      → d.txt ≡ some proof
      → IsOpen parts.dns parts.authority q acme_challenge_label
      → let m' = (run_events parts acme (memory_facade order) events (m, counters)).1.0 in
        (search_records parts.dns parts.authority (memory_facade order) q m').0
        ≡ ok (txt_record parts.dns parts.authority q.name proof)
  run_events-search_records events m counters q proof spares h text open_query =
      let h' = run_events-HasChallenge events m counters spares h in
      let m' = (run_events parts acme (memory_facade order) events (m, counters)).1.0 in
      search_records-challenge parts.dns parts.authority order q c d m' open_query h'.first
        h'.stored
      ∙ rw text refl
