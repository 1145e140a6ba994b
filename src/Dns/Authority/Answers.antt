-- ===== src/Dns/Authority/Answers.antt =====
-- The answers from the database, over the in-memory facade.
use acme_dns_rust.Base.{◌≡◌, ◌∙◌, false, none, some, arith, String, str_eq, if◌then◌else◌}
use acme_dns_rust.Base.Map.{Map, get, insert, get-insert, get-insert_self, string_key}
use acme_dns_rust.Base.Outcome.{ok, panic, bind_inversion}
use acme_dns_rust.Facade.{Cert, Domain, Env, new_domain, new_cert}
use acme_dns_rust.Facade.Memory.{
  Memory, Order, memory_facade, find_domain_by_id, first_cert, start_cert, create_domain,
  update_domain,
}
use acme_dns_rust.Facade.Single.{single, unstarted, start_cert-unstarted}
use acme_dns_rust.Facade.Jobs.{first_cert-single}
use acme_dns_rust.Facade.Lease.{start_missing-ok}
use acme_dns_rust.Facade.Consistency.{update_domain-found}
use acme_dns_rust.Api.Metrics.{Bytes, bytes_eq}
use acme_dns_rust.Dns.Records.{Name, RecordType, type_eq, TrustDns}
use acme_dns_rust.Dns.Authority.{
  Query, Authority, first, txt_record, challenge_record, domain_record, acme_challenge_label,
  acme_challenge, lookup_domain, lookup_database, lookup_pre, lookup_name, search_records,
}

module _ {RecordSet : Type 0} (dns : TrustDns RecordSet) (authority : Authority RecordSet) where
  -- A query that the configured records leave open, for a name with the given first label.
  pub record IsOpen (query : Query) (label : Bytes) : Type 0 where
    pub type : type_eq query.query_type RecordType.soa ≡ false
    pub labelled : first query.name.labels ≡ some label
    pub named : dns.name_is_empty query.name ≡ false
    pub unanswered : lookup_pre dns authority query.name query.query_type ≡ ok none

module _ {RecordSet : Type 0} (dns : TrustDns RecordSet) (authority : Authority RecordSet)
    (order : Order) where
  -- No query to the name server changes the store.
  pub search_records-pure :
      (query : Query) (s : Memory)
      → (search_records dns authority (memory_facade order) query s).1 ≡ s
  unfolding search_records lookup_name lookup_database lookup_domain acme_challenge memory_facade
      find_domain_by_id
  search_records-pure query s = ground arith

  search_records-database :
      (query : Query) (label : Bytes) (s : Memory)
      → IsOpen dns authority query label
      → search_records dns authority (memory_facade order) query s
        ≡ lookup_database dns authority (memory_facade order) query.name label s
  unfolding search_records lookup_name
  search_records-database query label s h = ground arith

  acme_challenge-found :
      (name : Name) (c : Cert) (d : Domain) (s : Memory)
      → first_cert order s ≡ some c
      → get c.domain s.domains ≡ some d
      → acme_challenge dns authority (memory_facade order) name s
        ≡ (challenge_record dns authority name d.txt, s)
  unfolding acme_challenge memory_facade find_domain_by_id
  acme_challenge-found name c d s f g = rw (f, g)

  -- A query for the challenge label that the configured records leave open is answered with the
  -- text of the domain of the first certificate, if both are stored; if that domain has no text,
  -- the lookup panics.
  pub search_records-challenge :
      (query : Query) (c : Cert) (d : Domain) (s : Memory)
      → IsOpen dns authority query acme_challenge_label
      → first_cert order s ≡ some c
      → get c.domain s.domains ≡ some d
      → (search_records dns authority (memory_facade order) query s).0
        ≡ (elim d.txt [ none ↦ panic | some txt ↦ ok (txt_record dns authority query.name txt) ])
  unfolding lookup_database
  search_records-challenge query c d s h f g = ground (
    arith,
    search_records-database query acme_challenge_label s h,
    acme_challenge-found query.name c d s f g,
  )

  search_records-domain :
      (query : Query) (label : Bytes) (id : String) (s : Memory)
      → IsOpen dns authority query label
      → bytes_eq label acme_challenge_label ≡ false
      → authority.from_utf8 label ≡ some id
      → search_records dns authority (memory_facade order) query s
        ≡ (domain_record dns authority (memory_facade order) query.name (get id s.domains), s)
  unfolding lookup_database lookup_domain memory_facade find_domain_by_id
  search_records-domain query label id s h other u =
      ground (arith, search_records-database query label s h)

  -- After an update of a stored domain to a new text, a query for its id that the configured
  -- records leave open is answered with the new text, and one for another id with the answer of
  -- before.
  pub search_records-update_domain :
      (query : Query) (label : Bytes) (id text : String) (d old : Domain) (s : Memory)
      → IsOpen dns authority query label
      → bytes_eq label acme_challenge_label ≡ false
      → authority.from_utf8 label ≡ some id
      → get d.id s.domains ≡ some old
      → d.txt ≡ some text
      → ((update_domain d s).0 ≡ ok tt)
        × ((search_records dns authority (memory_facade order) query (update_domain d s).1).0 ≡ (
            if str_eq d.id id
            then ok (txt_record dns authority query.name text)
            else (search_records dns authority (memory_facade order) query s).0))
  unfolding create_domain
  search_records-update_domain query label id text d old s h other u stored t = ground (
    arith,
    update_domain-found d old s stored,
    search_records-domain query label id (create_domain d s) h other u,
    search_records-domain query label id s h other u,
    get-insert d.id id d s.domains,
  )

new_domain-txt : (env : Env) (d : Domain) → new_domain env ≡ ok d → d.txt ≡ none
unfolding new_domain
new_domain-txt env d e =
    let (password, hashed, made) = bind_inversion (env.hash (env.uuid 0)) _ e in cc

start_cert-created :
    (order : Order) (env : Env) (ds : Map String Domain) (d : Domain)
    → new_domain env ≡ ok d
    → start_cert order env (unstarted ds)
      ≡ (ok (some (new_cert env d)), single (new_cert env d) (insert d.id d ds))
start_cert-created order env ds d e =
    start_cert-unstarted order env ds ∙ start_missing-ok env ds d e

new_cert-stored :
    (env : Env) (d : Domain) (ds : Map String Domain)
    → get (new_cert env d).domain (insert d.id d ds) ≡ some d
unfolding new_cert
new_cert-stored env d ds = get-insert_self d.id d ds

-- After start_cert on a store without certificates, whose domain could be made, an open query for
-- the challenge label panics.
pub search_records-panic_after_start :
    {RecordSet : Type 0} (dns : TrustDns RecordSet) (authority : Authority RecordSet)
    (order : Order) (env : Env) (ds : Map String Domain) (d : Domain) (query : Query)
    → new_domain env ≡ ok d
    → IsOpen dns authority query acme_challenge_label
    → (search_records dns authority
        (memory_facade order)
        query
        (start_cert order env (unstarted ds)).1).0
      ≡ panic
search_records-panic_after_start dns authority order env ds d query made h =
    let c = new_cert env d in
    let store = single c (insert d.id d ds) in
    let answer =
      search_records-challenge dns authority order query c d store h
        (first_cert-single order c (insert d.id d ds)) (new_cert-stored env d ds) in
    let no_text = new_domain-txt env d made in
    rw (start_cert-created order env ds d made) (ground arith)
