-- ===== src/Facade/Lease.antt =====
-- The job that a stored certificate stands for: who holds it after `start_cert`, and for how long.
use acme_dns_rust.Base.{ℕ, ◌+◌, ◌^◌, ◌<◌, ◌≡◌, ◌≢◌, ◌↔◌, inl, inr, true, none, some, arith, String}
use acme_dns_rust.Base.Int.{ℤ, pos_part, neg_part}
use acme_dns_rust.Base.Map.{Map, insert, string_key}
use acme_dns_rust.Base.Outcome.{Outcome}
use acme_dns_rust.Util.{to_i64, hour_in_seconds}
use acme_dns_rust.Util.Words.{sub_i64_hour}
use acme_dns_rust.Facade.{State, Cert, Domain, Env, new_domain, new_cert}
use acme_dns_rust.Facade.Memory.{
  Memory, Order, timed_out, start_cert, start_missing, still_running, stop_cert,
}
use acme_dns_rust.Facade.Single.{
  single, unstarted, IsConsistent, IsConsistent-cases, taken_at, finished, start_cert-single,
  start_cert-unstarted, stop_cert-single,
}

-- `t` lies over an hour after `u`.
abbrev pub HourPast : ℤ → ℕ → Type 0
HourPast u t = pos_part u + hour_in_seconds < t + neg_part u

pub timed_out_iff :
    (env : Env) (c : Cert) → env.now < 2 ^ 63 → (timed_out env c ≡ true) ↔ HourPast c.update env.now
unfolding timed_out
timed_out_iff env c h = ground (arith, sub_i64_hour env.now h)

-- What a successful start leaves: the certificate that it returns, in the state `Updating`.
abbrev pub Started : Cert → Memory → Type 0
Started c s = (s ≡ single c s.domains) × (c.state ≡ State.updating)

pub start_missing-ok :
    (env : Env) (ds : Map String Domain) (d : Domain)
    → new_domain env ≡ Outcome.ok d
    → start_missing env (unstarted ds)
      ≡ (Outcome.ok (some (new_cert env d)), single (new_cert env d) (insert d.id d ds))
unfolding start_missing
start_missing-ok env ds d e = rw e

module _ (order : Order) (env : Env) (s : Memory) (c : Cert) (s' : Memory) where
  pub start_cert-Started_missing :
      (ds : Map String Domain)
      → start_cert order env (unstarted ds) ≡ (Outcome.ok (some c), s')
      → Started c s' × (c.update ≡ to_i64 env.now)
  unfolding start_missing
  start_cert-Started_missing ds e = ground (arith, start_cert-unstarted order env ds)

  start_cert-Started-single :
      (ds : Map String Domain) (old : Cert)
      → start_cert order env (single old ds) ≡ (Outcome.ok (some c), s')
      → Started c s'
  start_cert-Started-single ds old e = ground (arith, start_cert-single order env ds old)

  pub start_cert-Started :
      IsConsistent s → start_cert order env s ≡ (Outcome.ok (some c), s') → Started c s'
  start_cert-Started h e = elim (IsConsistent-cases s h) [
    | inl shape ↦ (start_cert-Started_missing s.domains (rw shape at e)).0
    | inr (old, shape) ↦ start_cert-Started-single s.domains old (rw shape at e)
  ]

-- The precise extent of a job: a second start takes the certificate over exactly when the
-- certificate's time lies over an hour back.
module _ (order : Order) (later : Env) (c : Cert) (ds : Map String Domain) where
  pub start_cert-busy :
      c.state ≡ State.updating
      → later.now < 2 ^ 63
      → ¬ HourPast c.update later.now
      → start_cert order later (single c ds) ≡ (Outcome.ok none, single c ds)
  start_cert-busy u small fresh =
      ground (arith, start_cert-single order later ds c, timed_out_iff later c small)

  pub start_cert-late :
      c.state ≡ State.updating
      → later.now < 2 ^ 63
      → HourPast c.update later.now
      → start_cert order later (single c ds)
        ≡ (Outcome.ok (some (taken_at later c)), single (taken_at later c) ds)
  start_cert-late u small late =
      ground (arith, start_cert-single order later ds c, timed_out_iff later c small)

-- A successful `stop_cert`: the certificate is the caller's, in the state `Ok`.
module _ (order : Order) (m c : Cert) (ds : Map String Domain) where
  pub stop_cert-own :
      m.id ≡ c.id
      → m.update ≡ c.update
      → c.state ≡ State.updating
      → stop_cert order m (single c ds) ≡ (Outcome.ok (finished m), single (finished m) ds)
  unfolding still_running
  stop_cert-own i t u = ground (arith, stop_cert-single order ds c m i)

  pub stop_cert-superseded :
      m.id ≡ c.id
      → m.update ≢ c.update
      → stop_cert order m (single c ds) ≡ (Outcome.ok m, single c ds)
  unfolding still_running
  stop_cert-superseded i t = ground (arith, stop_cert-single order ds c m i)
