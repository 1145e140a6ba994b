-- ===== src/Manager/Renewal.antt =====
-- A whole renewal over the in-memory facade, and the challenge that the name server answers
-- meanwhile.
use acme_dns_rust.Base.{ℕ, ◌≡◌, refl, sym, ap, subst, ◌∙◌, some, String}
use acme_dns_rust.Base.Map.{Map, get, insert, get-insert_self, string_key}
use acme_dns_rust.Base.Outcome.{ok}
use acme_dns_rust.Facade.{State, Cert, Domain, Env, Facade}
use acme_dns_rust.Facade.Memory.{
  Memory, Order, memory_facade, update_domain, stop_cert, first_cert, create_domain,
  find_domain_by_id,
}
use acme_dns_rust.Facade.Single.{single, IsConsistent}
use acme_dns_rust.Facade.Lease.{start_cert-Started, stop_cert-own}
use acme_dns_rust.Facade.Jobs.{Starts, first_cert-single}
use acme_dns_rust.Facade.Consistency.{
  update_domain-certs, update_domain-IsConsistent, update_domain-found,
}
use acme_dns_rust.Manager.{
  Acme, done, confirm_loop, issue, validate, manage, with_proof, with_job, with_domain, order_for,
  stop_after, issue_after, ignore,
}
use acme_dns_rust.Dns.Records.{TrustDns}
use acme_dns_rust.Dns.Authority.{Query, Authority, acme_challenge_label, txt_record, search_records}
use acme_dns_rust.Dns.Authority.Answers.{IsOpen, search_records-challenge}
use acme_dns_rust.Manager.Loop.{confirm_loop-Keeps}

module _ {NewOrder Auth Csr : Type 0} (acme : Acme Memory NewOrder Auth Csr)
    (store_order : Order) where
  abbrev facade : Facade Memory
  facade = memory_facade store_order

  pub confirm_loop-certs :
      (fuel : ℕ) (d : Domain) (order : NewOrder) (s : Memory)
      → (confirm_loop acme facade fuel d order s).1.certs ≡ s.certs
  unfolding memory_facade
  confirm_loop-certs fuel d order s =
      confirm_loop-Keeps acme facade (λ s'. s'.certs ≡ s.certs)
        (λ d' s' e. update_domain-certs d' s' ∙ e) fuel d order s refl

  pub confirm_loop-IsConsistent :
      (fuel : ℕ) (d : Domain) (order : NewOrder) (s : Memory)
      → IsConsistent s
      → IsConsistent (confirm_loop acme facade fuel d order s).1
  unfolding memory_facade
  confirm_loop-IsConsistent fuel d order s h =
      confirm_loop-Keeps acme facade IsConsistent update_domain-IsConsistent fuel d order s h

  abbrev filled : Cert → String → String → Cert
  filled c key chain = record c { private = some key; cert = some chain }

  -- The certificate as a renewal leaves it.
  abbrev pub renewed : Cert → String → String → Cert
  renewed c key chain = record c { private = some key; cert = some chain; state = State.ok }

  issued :
      (c : Cert) (csr : Csr) (key chain : String)
      → acme.finalize csr ≡ ok (key, chain)
      → issue acme facade c csr ≡ ok (record c { private = some key; cert = some chain })
  unfolding issue
  issued c csr key chain e = rw e

  stop_issued :
      (c : Cert) (key chain : String) (ds : Map String Domain)
      → c.state ≡ State.updating
      → stop_cert store_order (record c { private = some key; cert = some chain }) (single c ds)
        ≡ (ok (renewed c key chain), single (renewed c key chain) ds)
  stop_issued c key chain ds u =
      stop_cert-own store_order (record c { private = some key; cert = some chain }) c ds refl refl
        u

  pub certs-single :
      (c : Cert) (s s'' : Memory)
      → s ≡ single c s.domains
      → s''.certs ≡ s.certs
      → s'' ≡ single c s''.domains
  certs-single c s s'' shape same =
      λ i. record { certs = (same ∙ ap (λ t. t.certs) shape) i; domains = s''.domains }

  module _ (env : Env) (fuel : ℕ) (s s' s'' : Memory) (c : Cert) (d : Domain) (order : NewOrder)
      (csr : Csr) (key chain : String) where
    -- A renewal from end to end: if a start on a consistent store gives a job whose domain is
    -- stored, an order can be placed, the validation loop ends with the authority's confirmation,
    -- and the certificate can be made, then manage succeeds, stores the key and the chain in the
    -- job's certificate in the state Ok as the first certificate, and leaves the domains as the
    -- loop left them.
    pub manage-renews :
        IsConsistent s
        → Starts store_order env s c s'
        → get c.domain s'.domains ≡ some d
        → acme.new_order ≡ ok order
        → confirm_loop acme facade fuel d order s' ≡ (done (ok csr), s'')
        → acme.finalize csr ≡ ok (key, chain)
        → (manage acme facade fuel env s ≡ (done (ok tt), single (renewed c key chain) s''.domains))
          × (first_cert store_order (single (renewed c key chain) s''.domains)
              ≡ some (renewed c key chain))
    unfolding manage validate memory_facade find_domain_by_id
    manage-renews h started stored placed looped made =
        let (shape, u) = start_cert-Started store_order env s c s' h started in
        let same : s''.certs ≡ s'.certs = rw looped at (confirm_loop-certs fuel d order s') in
        let shape' = certs-single c s' s'' shape same in
        let stopped = stop_issued c key chain s''.domains u in
        (
          ap (with_job acme facade fuel) started
              ∙ ap (λ found. with_domain acme facade fuel c (ok found, s')) stored
              ∙ ap (λ placed'. order_for acme facade fuel c d placed' s') placed
              ∙ ap (λ run. stop_after acme facade (issue_after acme facade c run)) looped
              ∙ ap (λ made'. stop_after acme facade (done made', s'')) (issued c csr key chain made)
              ∙ ap (λ t. ignore acme facade (stop_cert store_order (filled c key chain) t)) shape'
              ∙ ap (ignore acme facade) stopped,
          first_cert-single store_order (renewed c key chain) s''.domains,
        )

-- On a consistent store whose certificate's domain is stored, after the update of the domain in a
-- round of the validation an open query for the challenge label is answered with the proof of
-- that round's authorisation.
pub search_records-proof :
    {NewOrder Auth Csr RecordSet : Type 0} (acme : Acme Memory NewOrder Auth Csr)
    (dns : TrustDns RecordSet) (authority : Authority RecordSet) (store_order : Order) (auth : Auth)
    (c : Cert) (d : Domain) (ds : Map String Domain) (query : Query)
    → IsConsistent (single c ds)
    → get c.domain ds ≡ some d
    → IsOpen dns authority query acme_challenge_label
    → (search_records dns authority
        (memory_facade store_order)
        query
        (update_domain (with_proof acme (memory_facade store_order) d auth) (single c ds)).1).0
      ≡ ok (txt_record dns authority query.name (acme.dns_proof auth))
unfolding create_domain
search_records-proof acme dns authority store_order auth c d ds query h stored open_query =
    let d' = with_proof acme (memory_facade store_order) d auth in
    let same : d.id ≡ c.domain = h.named c.domain d stored in
    let known : get d'.id ds ≡ some d = subst (λ k. get k ds ≡ some d) (sym same) stored in
    let now : get c.domain (insert d'.id d' ds) ≡ some d' =
      subst (λ k. get k (insert d'.id d' ds) ≡ some d') same (get-insert_self d.id d' ds) in
    rw (update_domain-found d' d (single c ds) known) (
      search_records-challenge dns authority store_order query c d' (single c (insert d'.id d' ds))
        open_query (first_cert-single store_order c _) now)
