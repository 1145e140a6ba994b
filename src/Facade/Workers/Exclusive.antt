-- ===== src/Facade/Workers/Exclusive.antt =====
-- At most one of the jobs that are held at a time can be ended.
use acme_dns_rust.Base.{ℕ, ◌≡◌, refl, sym, ap, subst, ◌∙◌, ◌⊎◌, inl, inr, List, arith, String}
use acme_dns_rust.Base.Int.{pos, pos_part}
use acme_dns_rust.Base.Map.{Map}
use acme_dns_rust.Base.Outcome.{ok}
use acme_dns_rust.Facade.{Cert, Domain}
use acme_dns_rust.Facade.Memory.{Memory, Order, stop_cert, create_domain, update_domain}
use acme_dns_rust.Facade.Single.{single, finished}
use acme_dns_rust.Facade.Lease.{stop_cert-own, stop_cert-superseded}
use acme_dns_rust.Facade.Consistency.{update_domain-certs}
use acme_dns_rust.Facade.Workers.{
  Removes, IsFor, Step, start, refused, update, create, stop, crash, Reachable, initial, next,
}
use acme_dns_rust.Facade.Workers.Older.{
  Older, Current, AllOlder, AllOlder-Removes, AtMostOne-Removes,
}
use acme_dns_rust.Facade.Workers.Valid.{
  JobsOf, Valid, fresh, renewing, JobsOf-AtMostOne, JobsOf-Removes, with_certs, start_Valid,
  refused_Valid,
}

module _ (order : Order) where
  create_Valid :
      (d : Domain) (s : Memory) (jobs : List Cert) → Valid s jobs → Valid (create_domain d s) jobs
  unfolding create_domain
  create_Valid d s jobs (fresh shape no_jobs) = fresh (with_certs (ap (λ t. t.certs) shape)) no_jobs
  create_Valid d s jobs (renewing c u shape time jobs_of) =
      renewing c u (with_certs (ap (λ t. t.certs) shape)) time jobs_of

  update_Valid :
      (d : Domain) (s : Memory) (jobs : List Cert) → Valid s jobs → Valid (update_domain d s).1 jobs
  update_Valid d s jobs (fresh shape no_jobs) =
      fresh (with_certs (update_domain-certs d s ∙ ap (λ t. t.certs) shape)) no_jobs
  update_Valid d s jobs (renewing c u shape time jobs_of) =
      renewing c u (with_certs (update_domain-certs d s ∙ ap (λ t. t.certs) shape)) time jobs_of

  crash_Valid :
      (j : Cert) (s : Memory) (jobs rest : List Cert)
      → Removes j jobs rest
      → Valid s jobs
      → Valid s rest
  crash_Valid j s jobs rest r (fresh shape no_jobs) = absurd (rw no_jobs at r)
  crash_Valid j s jobs rest r (renewing c u shape time jobs_of) =
      renewing c u shape time (JobsOf-Removes c j u jobs rest r jobs_of)

  stop_stale :
      (m j c : Cert) (u : ℕ) (ds : Map String Domain)
      → IsFor m j
      → c.update ≡ pos u
      → Older c.id u j
      → stop_cert order m (single c ds) ≡ (ok m, single c ds)
  stop_stale m j c u ds (same, at_time) time (id, (v, before, earlier)) =
      stop_cert-superseded order m c ds (same ∙ id)
        (λ e. let clash : v ≡ u = ap pos_part (sym before ∙ sym at_time ∙ e ∙ time) in omega arith)

  -- A job's end takes effect, and the jobs left are older than the certificate, or it changes
  -- nothing.
  stop_cases :
      (m j c : Cert) (u : ℕ) (ds : Map String Domain) (jobs rest : List Cert)
      → Removes j jobs rest
      → IsFor m j
      → c.update ≡ pos u
      → JobsOf c u jobs
      → ((stop_cert order m (single c ds) ≡ (ok (finished m), single (finished m) ds))
          × Current c.id u j
          × AllOlder c.id u rest)
        ⊎ (stop_cert order m (single c ds) ≡ (ok m, single c ds))
  stop_cases m j c u ds jobs rest r for_job time (inl old) =
      inr (stop_stale m j c u ds for_job time (AllOlder-Removes c.id u j jobs rest r old).0)
  stop_cases m j c u ds jobs rest r (same, at_time) time (inr (busy, h)) =
      elim (AtMostOne-Removes c.id u j jobs rest r h) [
        | inl ((id, now), h') ↦
            inl (
              stop_cert-own order m c ds (same ∙ id) (at_time ∙ now ∙ sym time) busy,
              (id, now),
              h',
            )
        | inr (old, h') ↦ inr (stop_stale m j c u ds (same, at_time) time old)
      ]

  stop_Valid :
      (m j : Cert) (s : Memory) (jobs rest : List Cert)
      → Removes j jobs rest
      → IsFor m j
      → Valid s jobs
      → Valid (stop_cert order m s).1 rest
  stop_Valid m j s jobs rest r for_job (fresh shape no_jobs) = absurd (rw no_jobs at r)
  stop_Valid m j s jobs rest r (same, at_time) (renewing c u shape time jobs_of) =
      elim (stop_cases m j c u s.domains jobs rest r (same, at_time) time jobs_of) [
        | inl (stopped, (id, now), h) ↦
            rw (shape, stopped)
              (renewing (finished m) u refl (at_time ∙ now)
                (inl (subst (λ k. AllOlder k u rest) (sym (same ∙ id)) h)))
        | inr unchanged ↦
            rw (shape, unchanged)
              (renewing c u refl time (JobsOf-Removes c j u jobs rest r jobs_of))
      ]

  Step-Valid :
      (s s' : Memory) (jobs jobs' : List Cert)
      → Step order s jobs s' jobs'
      → Valid s jobs
      → Valid s' jobs'
  Step-Valid _ _ _ _ (start env c s s' jobs small e) v = start_Valid order env s s' c jobs small e v
  Step-Valid _ _ _ _ (refused env result s s' jobs e no_job) v =
      refused_Valid order env s s' result jobs e no_job v
  Step-Valid _ _ _ _ (update d s jobs) v = update_Valid d s jobs v
  Step-Valid _ _ _ _ (create d s jobs) v = create_Valid d s jobs v
  Step-Valid _ _ _ _ (stop m j s jobs rest r for_job) v = stop_Valid m j s jobs rest r for_job v
  Step-Valid _ _ _ _ (crash j s jobs rest r) v = crash_Valid j s jobs rest r v

  Reachable-Valid : (s : Memory) (jobs : List Cert) → Reachable order s jobs → Valid s jobs
  Reachable-Valid _ _ (initial ds) = fresh refl refl
  Reachable-Valid _ _ (next s s' jobs jobs' run step) =
      Step-Valid s s' jobs jobs' step (Reachable-Valid s jobs run)

  one_of_two :
      (s : Memory) (jobs rest rest' : List Cert) (j k m n : Cert)
      → Valid s jobs
      → Removes j jobs rest
      → Removes k rest rest'
      → IsFor m j
      → IsFor n k
      → (stop_cert order m s ≡ (ok m, s)) ⊎ (stop_cert order n s ≡ (ok n, s))
  one_of_two s jobs rest rest' j k m n (fresh shape no_jobs) rj rk for_j for_k =
      absurd (rw no_jobs at rj)
  one_of_two s jobs rest rest' j k m n (renewing c u shape time jobs_of) rj rk for_j for_k =
      elim (AtMostOne-Removes c.id u j jobs rest rj (JobsOf-AtMostOne c u jobs jobs_of)) [
        | inl (now, h) ↦
            let (old, _) = AllOlder-Removes c.id u k rest rest' rk h in
            inr (rw shape (stop_stale n k c u s.domains for_k time old))
        | inr (old, h) ↦ inl (rw shape (stop_stale m j c u s.domains for_j time old))
      ]

  -- In every state that starts, stops, updates and registrations of domains, and crashes of any
  -- number of workers lead to from a store without certificates (clocks below 2^63, in any
  -- order), of any two jobs that are held at once at most one can be ended: stop_cert for one of
  -- them changes nothing, whatever the two workers have made of the certificate apart from its id
  -- and time.
  pub stop_cert-one_of_two :
      (s : Memory) (jobs rest rest' : List Cert) (j k m n : Cert)
      → Reachable order s jobs
      → Removes j jobs rest
      → Removes k rest rest'
      → IsFor m j
      → IsFor n k
      → (stop_cert order m s ≡ (ok m, s)) ⊎ (stop_cert order n s ≡ (ok n, s))
  stop_cert-one_of_two s jobs rest rest' j k m n run rj rk for_j for_k =
      one_of_two s jobs rest rest' j k m n (Reachable-Valid s jobs run) rj rk for_j for_k
