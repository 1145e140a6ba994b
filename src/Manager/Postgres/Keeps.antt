-- ===== src/Manager/Postgres/Keeps.antt =====
-- What a renewal keeps of the store in memory: it stays consistent, and the tables have room for it.
use acme_dns_rust.Base.{
  ℕ, zero, suc, ◌≡◌, refl, sym, ap, subst, ◌∙◌, inl, inr, Bool-cases, Option, Option-cases, none,
  some,
}
use acme_dns_rust.Base.Map.{get, string_key}
use acme_dns_rust.Base.Outcome.{
  Outcome, ok, err, panic, Outcome-cases, ◌>>◌, bind_inversion, ok_injective,
}
use acme_dns_rust.Manager.Postgres.{SuppliesTexts}
use acme_dns_rust.Facade.Postgres.Tables.{CertTexts}
use acme_dns_rust.Facade.{Cert, Domain, Env}
use acme_dns_rust.Facade.Memory.{
  Memory, Order, memory_facade, start_cert, stop_cert, update_domain, first_cert, find_domain_by_id,
  still_running,
}
use acme_dns_rust.Facade.Single.{single, IsConsistent, IsConsistent-cases, stop_cert-single}
use acme_dns_rust.Facade.Lease.{start_cert-Started}
use acme_dns_rust.Facade.Jobs.{first_cert-single}
use acme_dns_rust.Facade.Consistency.{start_cert-IsConsistent, update_domain-found}
use acme_dns_rust.Facade.Postgres.Starts.{CanStart}
use acme_dns_rust.Facade.Postgres.Calls.{IsJob, IsVersion, memory_unstarted}
use acme_dns_rust.Facade.Postgres.Runs.{stop_keeps}
use acme_dns_rust.Manager.{
  Acme, Run, done, out_of_fuel, first_auth, with_proof, next_order, go_on, run_round, confirm_loop,
  issue, issue_after, validate, ignore, stop_after, order_for, with_job, manage,
}
use acme_dns_rust.Manager.Renewal.{confirm_loop-certs, confirm_loop-IsConsistent, certs-single}
use acme_dns_rust.Manager.Postgres.Storable.{
  IsStorable, IsStorable-IsVersion, IsVersion-IsStorable, start_cert-IsStorable,
}
use acme_dns_rust.Manager.Postgres.Loop.{update_domain-IsVersion}

pub single-IsJob :
    (order : Order) (m : Memory) (c c' : Cert)
    → m ≡ single c m.domains
    → c'.id ≡ c.id
    → c'.domain ≡ c.domain
    → CertTexts c'
    → IsJob order m c'
single-IsJob order m c c' shape same bound texts = (is_stored, texts)
  where
    is_stored : (x : Cert) → first_cert order m ≡ some x → (c'.id ≡ x.id) × (c'.domain ≡ x.domain)
    is_stored x e =
        let own = ap (first_cert order) shape ∙ first_cert-single order c m.domains in
        let c_is : c ≡ x = (let found = sym own ∙ e in cc) in
        (same ∙ ap (λ y. y.id) c_is, bound ∙ ap (λ y. y.domain) c_is)

update_domain-IsStorable :
    (m : Memory) (d : Domain)
    → IsVersion m d
    → IsStorable m.domains
    → IsStorable (update_domain d m).1.domains
update_domain-IsStorable m d v h = elim (Option-cases (get d.id m.domains)) [
  | inl missing ↦ absurd (v.there missing)
  | inr (old, found) ↦ rw (update_domain-found d old m found) (IsVersion-IsStorable m d v h)
]

stop_cert-domains :
    (order : Order) (c : Cert) (m : Memory)
    → IsConsistent m
    → IsJob order m c
    → (stop_cert order c m).1.domains ≡ m.domains
stop_cert-domains order c m h job = elim (IsConsistent-cases m h) [
  | inl shape ↦
      subst (λ m'. (stop_cert order c m').1.domains ≡ m'.domains) (sym shape)
        (rw (memory_unstarted order c m.domains) refl)
  | inr (x, shape) ↦
      let (same, _) = job.0 x (ap (first_cert order) shape ∙ first_cert-single order x m.domains) in
      subst (λ m'. (stop_cert order c m').1.domains ≡ m'.domains) (sym shape)
        (rw (stop_cert-single order m.domains x c same) (elim (Bool-cases (still_running x c)) [
          | inl runs ↦ rw runs refl
          | inr over ↦ rw over refl
        ]))
]

-- What every event of the program keeps.
pub record IsKept (m : Memory) : Type 0 where
  pub consistent : IsConsistent m
  pub storable : IsStorable m.domains

module _ {NewOrder Auth Csr : Type 0} (acme : Acme Memory NewOrder Auth Csr) (order : Order)
    (texts : SuppliesTexts acme.dns_proof acme.finalize) where
  pub issue-keeps :
      (c c' : Cert) (csr : Csr)
      → issue acme (memory_facade order) c csr ≡ ok c'
      → (c'.id ≡ c.id) × (c'.domain ≡ c.domain) × CertTexts c'
  unfolding issue
  issue-keeps c c' csr e =
      let ((private, cert), e'', e') = bind_inversion (acme.finalize csr) _ e in
      let made = ok_injective e' in
      let (key_text, chain_text) = texts.issued csr private cert e'' in
      (
        ap (λ x. x.id) (sym made),
        ap (λ x. x.domain) (sym made),
        subst CertTexts made (chain_text, key_text),
      )

  go_on-IsStorable :
      (result : Outcome NewOrder) (m : Memory) (again : NewOrder → Memory → Run Csr × Memory)
      → IsStorable m.domains
      → ((o : NewOrder) → IsStorable (again o m).1.domains)
      → IsStorable (go_on acme (memory_facade order) (result, m) again).1.domains
  go_on-IsStorable (ok o) m again h k = k o
  go_on-IsStorable (err e) m again h k = h
  go_on-IsStorable panic m again h k = h

  run_round-IsStorable :
      (auth : Outcome Auth) (d : Domain) (o : NewOrder) (m : Memory)
      (again : Domain → NewOrder → Memory → Run Csr × Memory)
      → IsVersion m d
      → IsStorable m.domains
      → ((d' : Domain) (o' : NewOrder) (m' : Memory)
          → IsVersion m' d'
          → IsStorable m'.domains
          → IsStorable (again d' o' m').1.domains)
      → IsStorable (run_round acme (memory_facade order) auth d o m again).1.domains
  unfolding memory_facade
  run_round-IsStorable (ok auth) d o m again v h k =
      let d' = with_proof acme (memory_facade order) d auth in
      let v' : IsVersion m d' = record {
        width = (v.width.0, v.width.1, v.width.2, texts.proofs auth);
        there = v.there;
        alone = v.alone;
      } in
      let m' = (update_domain d' m).1 in
      let h' = update_domain-IsStorable m d' v' h in
      go_on-IsStorable ((update_domain d' m).0 >> next_order acme (memory_facade order) auth m' o)
        m' (again d') h' (λ o'. k d' o' m' (update_domain-IsVersion m d' v') h')
  run_round-IsStorable (err e) d o m again v h k = h
  run_round-IsStorable panic d o m again v h k = h

  confirm_loop-IsStorable :
      (fuel : ℕ) (d : Domain) (o : NewOrder) (m : Memory)
      → IsVersion m d
      → IsStorable m.domains
      → IsStorable (confirm_loop acme (memory_facade order) fuel d o m).1.domains
  unfolding confirm_loop
  confirm_loop-IsStorable zero d o m v h = h
  confirm_loop-IsStorable (suc fuel) d o m v h = elim (Option-cases (acme.confirm_validations o)) [
    | inl waiting ↦
        rw (waiting, confirm_loop)
          (run_round-IsStorable (first_auth acme (memory_facade order) o) d o m
            (confirm_loop acme (memory_facade order) fuel) v h (confirm_loop-IsStorable fuel))
    | inr (csr, ready) ↦ rw (ready, confirm_loop) h
  ]

  ignore_store :
      (result : Outcome Cert) (m : Memory) → (ignore acme (memory_facade order) (result, m)).1 ≡ m
  ignore_store (ok c) m = refl
  ignore_store (err e) m = refl
  ignore_store panic m = refl

  stop-IsKept :
      (c : Cert) (m : Memory)
      → IsKept m
      → IsJob order m c
      → IsKept (stop_after acme (memory_facade order) (done (ok c), m)).1
  unfolding memory_facade
  stop-IsKept c m h job =
      subst IsKept (sym (ignore_store (stop_cert order c m).0 (stop_cert order c m).1)) (record {
        consistent = stop_keeps order c m h.consistent job;
        storable = subst IsStorable (sym (stop_cert-domains order c m h.consistent job)) h.storable;
      })

  issued_IsKept :
      (c : Cert) (run : Run Csr) (m : Memory)
      → IsKept m
      → m ≡ single c m.domains
      → IsKept
          (stop_after acme
            (memory_facade order)
            (issue_after acme (memory_facade order) c (run, m))).1
  issued_IsKept c (done (ok csr)) m h shape =
      elim (Outcome-cases (issue acme (memory_facade order) c csr)) [
        | inl (c', made) ↦
            let (same, bound, held) = issue-keeps c c' csr made in
            rw made (stop-IsKept c' m h (single-IsJob order m c c' shape same bound held))
        | inr (inl (cause, failed)) ↦ rw failed h
        | inr (inr failed) ↦ rw failed h
      ]
  issued_IsKept c (done (err e)) m h shape = h
  issued_IsKept c (done panic) m h shape = h
  issued_IsKept c out_of_fuel m h shape = h

  order-IsKept :
      (fuel : ℕ) (c : Cert) (d : Domain) (placed : Outcome NewOrder) (m : Memory)
      → IsKept m
      → m ≡ single c m.domains
      → IsVersion m d
      → IsKept (order_for acme (memory_facade order) fuel c d placed m).1
  unfolding validate
  order-IsKept fuel c d (ok o) m h shape v =
      let (run, m') = confirm_loop acme (memory_facade order) fuel d o m in
      issued_IsKept c run m'
        (record {
          consistent = confirm_loop-IsConsistent acme order fuel d o m h.consistent;
          storable = confirm_loop-IsStorable fuel d o m v h.storable;
        })
        (certs-single acme order c m m' shape (confirm_loop-certs acme order fuel d o m))
  order-IsKept fuel c d (err e) m h shape v = h
  order-IsKept fuel c d panic m h shape v = h

  job-IsKept :
      (fuel : ℕ) (c : Cert) (m : Memory)
      → IsKept m
      → m ≡ single c m.domains
      → IsKept (with_job acme (memory_facade order) fuel (ok (some c), m)).1
  unfolding memory_facade find_domain_by_id
  job-IsKept fuel c m h shape = elim (Option-cases (get c.domain m.domains)) [
    | inl missing ↦ rw missing h
    | inr (d, found) ↦
        let named : d.id ≡ c.domain = h.consistent.named c.domain d found in
        let own : get d.id m.domains ≡ some d =
          subst (λ k. get k m.domains ≡ some d) (sym named) found in
        rw found
          (order-IsKept fuel c d acme.new_order m h shape (IsStorable-IsVersion m d h.storable own))
  ]

  -- A renewal, whatever its result, keeps the store consistent and within the tables.
  pub manage-IsKept :
      (fuel : ℕ) (env : Env) (m : Memory)
      → IsKept m
      → CanStart env m
      → IsKept (manage acme (memory_facade order) fuel env m).1
  unfolding manage memory_facade
  manage-IsKept fuel env m h can = by_result (start_cert order env m).0 refl (record {
    consistent = start_cert-IsConsistent order env m h.consistent;
    storable = start_cert-IsStorable order env m h.consistent can h.storable;
  })
    where
      by_result :
          (result : Outcome (Option Cert))
          → (start_cert order env m).0 ≡ result
          → IsKept (start_cert order env m).1
          → IsKept (manage acme (memory_facade order) fuel env m).1
      by_result (ok none) e h' = rw (manage, e) h'
      by_result (ok (some c)) e h' =
          let m' = (start_cert order env m).1 in
          let (shape, _) = start_cert-Started order env m c m' h.consistent (λ i. (e i, m')) in
          rw (manage, e) (job-IsKept fuel c m' h' shape)
      by_result (err cause) e h' = rw (manage, e) h'
      by_result panic e h' = rw (manage, e) h'
