-- ===== src/Facade/Workers/Valid.antt =====
-- The invariant of the store and the jobs, and that a start keeps it.
use acme_dns_rust.Base.{
  ℕ, ◌^◌, ◌<◌, ◌≡◌, refl, sym, ap, ◌∙◌, ◌≢◌, ◌⊎◌, inl, inr, true, Bool-cases, Option, some, none,
  List, [], ◌∷◌, arith, String,
}
use acme_dns_rust.Base.Int.{ℤ, pos}
use acme_dns_rust.Base.Map.{Map}
use acme_dns_rust.Base.Outcome.{Outcome, ok, Outcome-cases}
use acme_dns_rust.Util.Words.{to_i64_small}
use acme_dns_rust.Facade.{State, Cert, Domain, Env, new_domain, new_cert}
use acme_dns_rust.Facade.Memory.{Memory, Order, is_ok, timed_out, start_cert}
use acme_dns_rust.Facade.Single.{
  single, unstarted, taken, taken_at, start_cert-single, start_cert-unstarted,
}
use acme_dns_rust.Facade.Lease.{
  HourPast, timed_out_iff, start_missing-ok, start_cert-Started_missing,
}
use acme_dns_rust.Facade.Consistency.{start_missing-err, start_missing-panic}
use acme_dns_rust.Facade.Workers.{Removes}
use acme_dns_rust.Facade.Workers.Older.{
  AllOlder, AtMostOne, AllOlder-AtMostOne, AtMostOne-later, AllOlder-Removes, AtMostOne-Removes,
}

-- The jobs for a stored certificate with the time `u`: all are older, or the certificate is in the
-- state `Updating` and one job has its time.
abbrev pub JobsOf : Cert → ℕ → List Cert → Type 0
JobsOf c u jobs = AllOlder c.id u jobs ⊎ ((c.state ≡ State.updating) × AtMostOne c.id u jobs)

pub data Valid (s : Memory) (jobs : List Cert) : Type 0 where
  fresh : s ≡ unstarted s.domains → jobs ≡ [] → Valid s jobs
  renewing :
      (c : Cert) (u : ℕ)
      → s ≡ single c s.domains
      → c.update ≡ pos u
      → JobsOf c u jobs
      → Valid s jobs

pub JobsOf-AtMostOne :
    (c : Cert) (u : ℕ) (jobs : List Cert) → JobsOf c u jobs → AtMostOne c.id u jobs
JobsOf-AtMostOne c u jobs (inl old) = AllOlder-AtMostOne c.id u jobs old
JobsOf-AtMostOne c u jobs (inr (busy, h)) = h

JobsOf-idle :
    (c : Cert) (u : ℕ) (jobs : List Cert)
    → is_ok c.state ≡ true
    → JobsOf c u jobs
    → AllOlder c.id u jobs
JobsOf-idle c u jobs idle (inl old) = old
JobsOf-idle c u jobs idle (inr (busy, h)) = let e = rw busy at idle in cc

pub JobsOf-Removes :
    (c j : Cert) (u : ℕ) (jobs rest : List Cert)
    → Removes j jobs rest
    → JobsOf c u jobs
    → JobsOf c u rest
JobsOf-Removes c j u jobs rest r (inl old) = inl (AllOlder-Removes c.id u j jobs rest r old).1
JobsOf-Removes c j u jobs rest r (inr (busy, h)) = elim (AtMostOne-Removes c.id u j jobs rest r h) [
  | inl (now, h') ↦ inl h'
  | inr (old, h') ↦ inr (busy, h')
]

pub with_certs :
    {s : Memory} {cs : Map String Cert}
    → s.certs ≡ cs
    → s ≡ record { certs = cs; domains = s.domains }
with_certs {s} e = λ i. record { certs = e i; domains = s.domains }

module _ (order : Order) (env : Env) where
  -- A start that gives a job over a stored certificate.
  start_single :
      (old c : Cert) (ds : Map String Domain) (s' : Memory)
      → start_cert order env (single old ds) ≡ (ok (some c), s')
      → ((is_ok old.state ≡ true) × (c ≡ taken old) × (s' ≡ single (taken old) ds))
        ⊎ ((timed_out env old ≡ true)
            × (c ≡ taken_at env old)
            × (s' ≡ single (taken_at env old) ds))
  start_single old c ds s' e = ground (arith, start_cert-single order env ds old)

  start_single_cases :
      (old : Cert) (ds : Map String Domain)
      → ((job : Cert) × (s' : Memory) × (start_cert order env (single old ds)
            ≡ (ok (some job), s')))
        ⊎ (start_cert order env (single old ds) ≡ (ok none, single old ds))
  start_single_cases old ds = elim (Bool-cases (is_ok old.state)) [
    | inl idle ↦
        inl (taken old, single (taken old) ds, start_cert-single order env ds old ∙ rw idle refl)
    | inr busy ↦ elim (Bool-cases (timed_out env old)) [
      | inl late ↦ inl (
        taken_at env old,
        single (taken_at env old) ds,
        start_cert-single order env ds old ∙ rw (busy, late) refl,
      )
      | inr soon ↦ inr (start_cert-single order env ds old ∙ rw (busy, soon) refl)
    ]
  ]

  start_single_refused :
      (old : Cert) (ds : Map String Domain) (s' : Memory) (result : Outcome (Option Cert))
      → start_cert order env (single old ds) ≡ (result, s')
      → ((c : Cert) → result ≢ ok (some c))
      → s' ≡ single old ds
  start_single_refused old ds s' result e no_job = elim (start_single_cases old ds) [
    | inl (job, s'', taken_over) ↦ absurd (no_job job (ap (λ r. r.0) (sym e ∙ taken_over)))
    | inr unchanged ↦ ap (λ r. r.1) (sym e ∙ unchanged)
  ]

  start_unstarted_refused :
      (ds : Map String Domain) (s' : Memory) (result : Outcome (Option Cert))
      → start_cert order env (unstarted ds) ≡ (result, s')
      → ((c : Cert) → result ≢ ok (some c))
      → s' ≡ unstarted ds
  start_unstarted_refused ds s' result e no_job =
      let e' = sym (start_cert-unstarted order env ds) ∙ e in
      elim (Outcome-cases (new_domain env)) [
        | inl (d, made) ↦
            absurd
              (no_job (new_cert env d) (ap (λ r. r.0) (sym e' ∙ start_missing-ok env ds d made)))
        | inr (inl (cause, failed)) ↦
            ap (λ r. r.1) (sym e' ∙ start_missing-err env (unstarted ds) cause failed)
        | inr (inr failed) ↦ ap (λ r. r.1) (sym e' ∙ start_missing-panic env (unstarted ds) failed)
      ]

  past_later : (z : ℤ) (u : ℕ) → z ≡ pos u → HourPast z env.now → u < env.now
  past_later z u time past = let past' = rw time at past in omega arith

  pub start_Valid :
      (s s' : Memory) (c : Cert) (jobs : List Cert)
      → env.now < 2 ^ 63
      → start_cert order env s ≡ (ok (some c), s')
      → Valid s jobs
      → Valid s' (c ∷ jobs)
  start_Valid s s' c jobs small e (fresh shape no_jobs) =
      let ((shape', busy), now) =
        start_cert-Started_missing order env s c s' s.domains (rw shape at e) in
      renewing c env.now shape' (now ∙ to_i64_small env.now small)
        (inr (busy, inr ((refl, now ∙ to_i64_small env.now small), rw no_jobs tt)))
  start_Valid s s' c jobs small e (renewing old u shape time jobs_of) =
      elim (start_single old c s.domains s' (rw shape at e)) [
        | inl (idle, is, shape') ↦
            rw (is, shape')
              (renewing (taken old) u refl time
                (inr (refl, inr ((refl, time), JobsOf-idle old u jobs idle jobs_of))))
        | inr (late, is, shape') ↦
            let past = (timed_out_iff env old small).0 late in
            rw (is, shape')
              (renewing (taken_at env old) env.now refl (to_i64_small env.now small) (
                inr (
                  refl,
                  inr (
                    (refl, to_i64_small env.now small),
                    AtMostOne-later old.id u env.now jobs (past_later old.update u time past)
                        (JobsOf-AtMostOne old u jobs jobs_of),
                  ),
                )))
      ]

  pub refused_Valid :
      (s s' : Memory) (result : Outcome (Option Cert)) (jobs : List Cert)
      → start_cert order env s ≡ (result, s')
      → ((c : Cert) → result ≢ ok (some c))
      → Valid s jobs
      → Valid s' jobs
  refused_Valid s s' result jobs e no_job (fresh shape no_jobs) =
      rw (start_unstarted_refused s.domains s' result (rw shape at e) no_job) (fresh refl no_jobs)
  refused_Valid s s' result jobs e no_job (renewing c u shape time jobs_of) =
      rw (start_single_refused c s.domains s' result (rw shape at e) no_job)
        (renewing c u refl time jobs_of)
