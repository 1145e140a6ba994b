-- ===== src/Facade/Single.antt =====
-- A consistent store and what `start_cert` and `stop_cert` of the in-memory facade do to it.
use acme_dns_rust.Base.{
  ◌≡◌, refl, ap, ◌≢◌, ◌⊎◌, inl, inr, none, some, [], ◌∷◌, arith, if◌then◌else◌, String, eq_iff,
  eq_refl,
}
use acme_dns_rust.Base.Map.{Map, get, string_key}
use acme_dns_rust.Base.Outcome.{Outcome}
use acme_dns_rust.Util.{to_i64}
use acme_dns_rust.Facade.{State, Cert, Domain, Env}
use acme_dns_rust.Facade.Memory.{
  Memory, Order, is_ok, timed_out, start_cert, start_missing, still_running, stop_cert,
}

abbrev pub single : Cert → Map String Domain → Memory
single c ds = record { certs = (c.id, c) ∷ []; domains = ds }

abbrev pub unstarted : Map String Domain → Memory
unstarted ds = record { certs = []; domains = ds }

-- At most one certificate, under its own id, whose domain is stored.
abbrev pub Held : Map String Domain → Map String Cert → Type 0
Held ds [] = Unit {0}
Held ds ((k, c) ∷ []) = (k ≡ c.id) × (get c.domain ds ≢ none)
Held ds (_ ∷ _ ∷ _) = ⊥

pub record IsConsistent (s : Memory) : Type 0 where
  pub held : Held s.domains s.certs
  pub named : (k : String) (d : Domain) → get k s.domains ≡ some d → d.id ≡ k

Held-cases :
    (ds : Map String Domain) (cs : Map String Cert)
    → Held ds cs
    → (cs ≡ []) ⊎ ((c : Cert) × (cs ≡ (c.id, c) ∷ []))
Held-cases ds [] h = inl refl
Held-cases ds ((k, c) ∷ []) h = inr (c, ap (λ j. (j, c) ∷ []) h.0)
Held-cases ds (_ ∷ _ ∷ _) h = absurd h

-- A consistent store is one of two shapes.
pub IsConsistent-cases :
    (s : Memory)
    → IsConsistent s
    → (s ≡ unstarted s.domains) ⊎ ((c : Cert) × (s ≡ single c s.domains))
IsConsistent-cases s h = elim (Held-cases s.domains s.certs h.held) [
  | inl e ↦ inl (λ i. record { certs = e i; domains = s.domains })
  | inr (c, e) ↦ inr (c, λ i. record { certs = e i; domains = s.domains })
]

abbrev pub taken : Cert → Cert
taken c = record c { state = State.updating }

abbrev pub taken_at : Env → Cert → Cert
taken_at env c = record c { update = to_i64 env.now; state = State.updating }

abbrev pub finished : Cert → Cert
finished c = record c { state = State.ok }

module _ (order : Order) (env : Env) (ds : Map String Domain) where
  pub start_cert-single :
      (c : Cert)
      → start_cert order env (single c ds) ≡ (
          if is_ok c.state
          then (Outcome.ok (some (taken c)), single (taken c) ds)
          else if timed_out env c
          then (Outcome.ok (some (taken_at env c)), single (taken_at env c) ds)
          else (Outcome.ok none, single c ds))
  unfolding start_cert
  start_cert-single c = ground (arith, order.next_single c, eq_refl c.id)

  pub start_cert-unstarted : start_cert order env (unstarted ds) ≡ start_missing env (unstarted ds)
  unfolding start_cert
  start_cert-unstarted = ground (arith, order.next_nil)

module _ (order : Order) (ds : Map String Domain) (c m : Cert) (same : m.id ≡ c.id) where
  pub stop_cert-single : stop_cert order m (single c ds) ≡ (
      if still_running c m
      then (Outcome.ok (finished m), single (finished m) ds)
      else (Outcome.ok m, single c ds))
  unfolding stop_cert
  stop_cert-single = ground (arith, order.next_single c, eq_iff c.id m.id)
