-- ===== src/Facade/Jobs.antt =====
-- Who may renew the certificate: the protocol of `start_cert` and `stop_cert` over the in-memory
-- facade of src/facade/cert.rs.
use acme_dns_rust.Base.{
  ℕ, ◌+◌, ◌^◌, ◌≤◌, ◌<◌, ◌≡◌, refl, sym, ap, ◌∙◌, ◌≢◌, ◌↔◌, ◌⊎◌, inl, inr, none, some, arith,
  String,
}
use acme_dns_rust.Base.Int.{ℤ, pos}
use acme_dns_rust.Base.Map.{Map}
use acme_dns_rust.Base.Outcome.{Outcome}
use acme_dns_rust.Util.{to_i64, hour_in_seconds}
use acme_dns_rust.Util.Words.{to_i64_small}
use acme_dns_rust.Facade.{State, Cert, Domain, Env}
use acme_dns_rust.Facade.Memory.{Memory, Order, start_cert, stop_cert, first_cert}
use acme_dns_rust.Facade.Single.{
  single, IsConsistent, IsConsistent-cases, taken, taken_at, finished, start_cert-single,
}
use acme_dns_rust.Facade.Lease.{
  HourPast, start_cert-Started, start_cert-Started_missing, start_cert-busy, start_cert-late,
  stop_cert-own, stop_cert-superseded,
}

abbrev pub Starts : Order → Env → Memory → Cert → Memory → Type 0
Starts order env s c s' = start_cert order env s ≡ (Outcome.ok (some c), s')

-- The stored certificate, if there is one, is in the given state.
abbrev pub StoredIs : Order → Memory → State → Type 0
StoredIs order s state = (x : Cert) → first_cert order s ≡ some x → x.state ≡ state

pub first_cert-single :
    (order : Order) (c : Cert) (ds : Map String Domain) → first_cert order (single c ds) ≡ some c
unfolding first_cert
first_cert-single order c ds = order.next_single c

dec_hour : (u : ℤ) (t : ℕ) → HourPast u t ⊎ (¬ HourPast u t)
dec_hour u t = omega arith

module _ (order : Order) (env : Env) (s : Memory) (h : IsConsistent s) (c : Cert) (s' : Memory)
    (started : Starts order env s c s') where
  -- After a start that succeeds on a consistent store, a second start (clock below 2^63) returns
  -- no certificate and changes nothing exactly when the time of the certificate that the first
  -- returned lies at most an hour back.
  pub start_cert-again :
      (later : Env)
      → later.now < 2 ^ 63
      → (start_cert order later s' ≡ (Outcome.ok none, s')) ↔ (¬ HourPast c.update later.now)
  start_cert-again later small =
      let (shape, u) = start_cert-Started order env s c s' h started in
      (
        (λ e late.
            let busy = rw shape at e in
            let next = start_cert-late order later c s'.domains u small late in cc),
        λ fresh. rw shape (start_cert-busy order later c s'.domains u small fresh),
      )

  -- The time of the certificate is the time of the start, if none was stored or the stored one
  -- was in the state `Updating`.
  start_cert-update : StoredIs order s State.updating → (c.update ≡ to_i64 env.now)
  start_cert-update u = elim (IsConsistent-cases s h) [
    | inl shape ↦ (start_cert-Started_missing order env s c s' s.domains (rw shape at started)).1
    | inr (old, shape) ↦
        let e = rw shape at started in
        let first = first_cert-single order old s.domains in
        let busy : old.state ≡ State.updating = u old (rw shape first) in
        ground (arith, start_cert-single order env s.domains old)
  ]

  -- If a start on a consistent store succeeds, and none was stored or the stored certificate was
  -- in the state Updating, then any start within the following hour (clocks below 2^63) returns
  -- no certificate and changes nothing.
  pub start_cert-exclusive :
      (later : Env)
      → StoredIs order s State.updating
      → env.now < 2 ^ 63
      → later.now < 2 ^ 63
      → later.now ≤ env.now + hour_in_seconds
      → start_cert order later s' ≡ (Outcome.ok none, s')
  start_cert-exclusive later u small small' soon =
      (start_cert-again later small').1
        (rw (start_cert-update u, to_i64_small env.now small) (omega arith))

  -- After a start that succeeds on a consistent store, stop_cert with a certificate of the same
  -- id and time stores that certificate in the state Ok, whatever its other content, and it is
  -- the first certificate then.
  pub stop_cert-finishes :
      (m : Cert)
      → m.id ≡ c.id
      → m.update ≡ c.update
      → (stop_cert order m s' ≡ (Outcome.ok (finished m), single (finished m) s'.domains))
        × (first_cert order (single (finished m) s'.domains) ≡ some (finished m))
  stop_cert-finishes m i t =
      let (shape, u) = start_cert-Started order env s c s' h started in
      (rw shape (stop_cert-own order m c s'.domains i t u), first_cert-single order _ _)

HourPast-ne : (u : ℤ) (t : ℕ) → t < 2 ^ 63 → HourPast u t → u ≢ to_i64 t
HourPast-ne u t small late = λ e. let now : to_i64 t ≡ pos t = to_i64_small t small in ground arith

-- On a job in progress, a start that succeeds has waited over an hour.
start_cert-takeover :
    (order : Order) (later : Env) (c c' : Cert) (ds : Map String Domain) (s : Memory)
    → c.state ≡ State.updating
    → later.now < 2 ^ 63
    → Starts order later (single c ds) c' s
    → HourPast c.update later.now × (s ≡ single (taken_at later c) ds)
start_cert-takeover order later c c' ds s u small e = elim (dec_hour c.update later.now) [
  | inl late ↦ (late, ap (λ p. p.1) (sym e ∙ start_cert-late order later c ds u small late))
  | inr fresh ↦ let busy = start_cert-busy order later c ds u small fresh in cc
]

-- A worker whose job another one has taken over cannot finish it. If a start succeeds on a
-- consistent store, and then a second start succeeds on the store that it leaves, at a clock
-- below 2^63, then stop_cert with the certificate of the first worker (its id and its time, any
-- other content) changes nothing.
pub stop_cert-late :
    (order : Order) (env later : Env) (s s' s'' : Memory) (c c' m : Cert)
    → IsConsistent s
    → Starts order env s c s'
    → Starts order later s' c' s''
    → later.now < 2 ^ 63
    → m.id ≡ c.id
    → m.update ≡ c.update
    → stop_cert order m s'' ≡ (Outcome.ok m, s'')
stop_cert-late order env later s s' s'' c c' m h first second small i t =
    let (shape, u) = start_cert-Started order env s c s' h first in
    let (late, shape') =
      start_cert-takeover order later c c' s'.domains s'' u small (rw shape at second) in
    let other : m.update ≢ to_i64 later.now = rw t (HourPast-ne c.update later.now small late) in
    rw shape' (stop_cert-superseded order m (taken_at later c) s'.domains i other)

-- If the stored certificate is in the state Ok and its time lies over an hour back (clock below
-- 2^63), a start takes it and keeps the old time, and a second start at the same moment takes it
-- again: two workers hold the job.
pub start_cert-overlap :
    (order : Order) (env : Env) (ds : Map String Domain) (c : Cert)
    → c.state ≡ State.ok
    → env.now < 2 ^ 63
    → HourPast c.update env.now
    → Starts order env (single c ds) (taken c) (single (taken c) ds)
      × Starts order env (single (taken c) ds) (taken_at env c) (single (taken_at env c) ds)
start_cert-overlap order env ds c idle small late = (
  ground (arith, start_cert-single order env ds c),
  start_cert-late order env (taken c) ds refl small late,
)
