-- ===== src/Facade/Consistency.antt =====
-- Every method of the in-memory facade keeps the store consistent: one certificate at most, under
-- its own id, its domain stored (the foreign key of the database's schema), and every domain
-- stored under its own id.
use acme_dns_rust.Base.{
  ◌≡◌, refl, ◌≢◌, ◌⊎◌, inl, inr, none, some, [], ◌∷◌, arith, String, eq_iff, Option-cases,
}
use acme_dns_rust.Base.Map.{Map, get, insert, get-insert, get-insert_self, string_key}
use acme_dns_rust.Base.Outcome.{Outcome, Outcome-cases, err, panic, Error}
use acme_dns_rust.Facade.{Cert, Domain, Env, new_domain, new_cert}
use acme_dns_rust.Facade.Memory.{
  Memory, Order, start_cert, start_missing, stop_cert, create_domain, update_domain,
}
use acme_dns_rust.Facade.Single.{
  single, unstarted, Held, IsConsistent, IsConsistent-cases, taken, taken_at, finished,
  start_cert-single, start_cert-unstarted, stop_cert-single,
}
use acme_dns_rust.Facade.Lease.{start_missing-ok}

abbrev Named : Map String Domain → Type 0
Named ds = (k : String) (d : Domain) → get k ds ≡ some d → d.id ≡ k

Named-insert : (ds : Map String Domain) (d : Domain) → Named ds → Named (insert d.id d ds)
Named-insert ds d h k x e = ground (arith, get-insert d.id k d ds, eq_iff d.id k, h k x)

get-insert-ne_none :
    (ds : Map String Domain) (d : Domain) (k : String)
    → get k ds ≢ none
    → get k (insert d.id d ds) ≢ none
get-insert-ne_none ds d k h = ground (arith, get-insert d.id k d ds)

single-IsConsistent :
    (c : Cert) (ds : Map String Domain)
    → get c.domain ds ≢ none
    → Named ds
    → IsConsistent (single c ds)
single-IsConsistent c ds bound named = record { held = (refl, bound); named = named }

Held-bound :
    (ds : Map String Domain) (c : Cert) → IsConsistent (single c ds) → get c.domain ds ≢ none
Held-bound ds c h = h.held.1

insert-Held :
    (ds : Map String Domain) (cs : Map String Cert) (d : Domain)
    → Held ds cs
    → Held (insert d.id d ds) cs
insert-Held ds [] d h = tt
insert-Held ds ((k, c) ∷ []) d h = (h.0, get-insert-ne_none ds d c.domain h.1)
insert-Held ds (_ ∷ _ ∷ _) d h = h

pub create_domain-IsConsistent :
    (d : Domain) (s : Memory) → IsConsistent s → IsConsistent (create_domain d s)
unfolding create_domain
create_domain-IsConsistent d s h = record {
  held = insert-Held s.domains s.certs d h.held;
  named = Named-insert s.domains d h.named;
}

pub update_domain-certs : (d : Domain) (s : Memory) → (update_domain d s).1.certs ≡ s.certs
unfolding update_domain
update_domain-certs d s = ground arith

pub update_domain-missing :
    (d : Domain) (s : Memory) → get d.id s.domains ≡ none → update_domain d s ≡ (panic, s)
unfolding update_domain
update_domain-missing d s e = ground arith

pub update_domain-found :
    (d old : Domain) (s : Memory)
    → get d.id s.domains ≡ some old
    → update_domain d s ≡ (Outcome.ok tt, create_domain d s)
unfolding update_domain create_domain
update_domain-found d old s e = ground arith

pub update_domain-IsConsistent :
    (d : Domain) (s : Memory) → IsConsistent s → IsConsistent (update_domain d s).1
update_domain-IsConsistent d s h = elim (Option-cases (get d.id s.domains)) [
  | inl missing ↦ rw (update_domain-missing d s missing) h
  | inr (old, found) ↦ rw (update_domain-found d old s found) (create_domain-IsConsistent d s h)
]

new_cert-bound :
    (env : Env) (d : Domain) (ds : Map String Domain)
    → get (new_cert env d).domain (insert d.id d ds) ≢ none
unfolding new_cert
new_cert-bound env d ds = λ e. cc (get-insert_self d.id d ds)

pub start_missing-err :
    (env : Env) (s : Memory) (e : Error) → new_domain env ≡ err e → start_missing env s ≡ (err e, s)
unfolding start_missing
start_missing-err env s e failed = rw failed

pub start_missing-panic :
    (env : Env) (s : Memory) → new_domain env ≡ panic → start_missing env s ≡ (panic, s)
unfolding start_missing
start_missing-panic env s failed = rw failed

module _ (order : Order) (env : Env) (ds : Map String Domain) where
  start_missing-IsConsistent : Named ds → IsConsistent (start_missing env (unstarted ds)).1
  start_missing-IsConsistent named = elim (Outcome-cases (new_domain env)) [
    | inl (d, e) ↦ rw (start_missing-ok env ds d e) (
        single-IsConsistent (new_cert env d) (insert d.id d ds) (new_cert-bound env d ds)
          (Named-insert ds d named))
    | inr (inl (e, failed)) ↦ rw (start_missing-err env (unstarted ds) e failed) unchanged
    | inr (inr failed) ↦ rw (start_missing-panic env (unstarted ds) failed) unchanged
  ]
    where
      unchanged : IsConsistent (unstarted ds)
      unchanged = record { held = tt; named = named }

  start_single-cases :
      (c : Cert)
      → ((start_cert order env (single c ds)).1 ≡ single (taken c) ds)
        ⊎ (((start_cert order env (single c ds)).1 ≡ single (taken_at env c) ds)
            ⊎ ((start_cert order env (single c ds)).1 ≡ single c ds))
  start_single-cases c = ground (arith, start_cert-single order env ds c)

  start_single-IsConsistent :
      (c : Cert) → IsConsistent (single c ds) → IsConsistent (start_cert order env (single c ds)).1
  start_single-IsConsistent c h = elim (start_single-cases c) [
    | inl e ↦ rw e (single-IsConsistent (taken c) ds h.held.1 h.named)
    | inr (inl e) ↦ rw e (single-IsConsistent (taken_at env c) ds h.held.1 h.named)
    | inr (inr e) ↦ rw e h
  ]

-- start_cert keeps the store consistent, whatever it returns: at most one certificate, under its
-- own id, with its domain stored, and every domain under its own id.
pub start_cert-IsConsistent :
    (order : Order) (env : Env) (s : Memory)
    → IsConsistent s
    → IsConsistent (start_cert order env s).1
start_cert-IsConsistent order env s h = elim (IsConsistent-cases s h) [
  | inl shape ↦
      rw (shape, start_cert-unstarted order env s.domains)
        (start_missing-IsConsistent order env s.domains h.named)
  | inr (c, shape) ↦ rw shape (start_single-IsConsistent order env s.domains c (rw shape at h))
]

-- stop_cert keeps a consistent store with one certificate consistent, if it is given a
-- certificate with the id of the stored one and a stored domain.
pub stop_cert-IsConsistent :
    (order : Order) (m c : Cert) (ds : Map String Domain)
    → IsConsistent (single c ds)
    → m.id ≡ c.id
    → get m.domain ds ≢ none
    → IsConsistent (stop_cert order m (single c ds)).1
stop_cert-IsConsistent order m c ds h i bound = elim stopped [
  | inl e ↦ rw e (single-IsConsistent (finished m) ds bound h.named)
  | inr e ↦ rw e h
]
  where
    stopped :
        ((stop_cert order m (single c ds)).1 ≡ single (finished m) ds)
        ⊎ ((stop_cert order m (single c ds)).1 ≡ single c ds)
    stopped = ground (arith, stop_cert-single order ds c m i)
