-- ===== src/Manager/Postgres/Storable.antt =====
-- Stores that the tables have room for, and what `start_cert` adds to them.
use acme_dns_rust.Base.{
  ◌≡◌, refl, sym, ap, subst, ◌∙◌, ◌≢◌, ◌⊎◌, inl, inr, Bool-cases, some, arith, String, str_eq,
  eq_iff,
}
use acme_dns_rust.Base.Map.{Map, get, insert, get-insert, get-insert_self, string_key}
use acme_dns_rust.Base.Outcome.{Outcome-cases}
use acme_dns_rust.Facade.{Domain, Env, new_domain}
use acme_dns_rust.Facade.Memory.{Memory, Order, create_domain, start_cert, start_missing}
use acme_dns_rust.Facade.Single.{
  single, unstarted, IsConsistent, IsConsistent-cases, start_cert-single, start_cert-unstarted,
}
use acme_dns_rust.Facade.Lease.{start_missing-ok}
use acme_dns_rust.Facade.Consistency.{start_missing-err, start_missing-panic}
use acme_dns_rust.Facade.Postgres.Tables.{StorableDomain}
use acme_dns_rust.Facade.Postgres.Starts.{IsNew, CanStart}
use acme_dns_rust.Facade.Postgres.Calls.{IsVersion}

-- The domains have the widths of their columns, and no two have a name or a password in common.
pub record IsStorable (ds : Map String Domain) : Type 0 where
  pub width : (k : String) (d : Domain) → get k ds ≡ some d → StorableDomain d
  pub apart :
      (k k' : String) (d d' : Domain)
      → get k ds ≡ some d
      → get k' ds ≡ some d'
      → k ≢ k'
      → (d.username ≢ d'.username) × (d.password ≢ d'.password)

pub IsStorable-IsVersion :
    (m : Memory) (d : Domain) → IsStorable m.domains → get d.id m.domains ≡ some d → IsVersion m d
IsStorable-IsVersion m d h found = record {
  width = h.width d.id d found;
  there = λ e. cc;
  alone = λ k x e ne. h.apart k d.id x d e found ne;
}

-- What is stored after a domain is: it, or what was there.
inserted :
    (ds : Map String Domain) (d x : Domain) (k : String)
    → get k (insert d.id d ds) ≡ some x
    → ((d.id ≡ k) × (d ≡ x)) ⊎ ((d.id ≢ k) × (get k ds ≡ some x))
inserted ds d x k e = elim (Bool-cases (str_eq d.id k)) [
  | inl hit ↦
      let e' = rw hit at (sym (get-insert d.id k d ds) ∙ e) in
      inl ((eq_iff d.id k).0 hit, (let e'' = e' in cc))
  | inr miss ↦
      let e' = rw miss at (sym (get-insert d.id k d ds) ∙ e) in
      inr ((λ same. (let hit = (eq_iff d.id k).1 same in cc)), e')
]

insert-IsStorable :
    (ds : Map String Domain) (d : Domain)
    → IsStorable ds
    → StorableDomain d
    → ((k : String) (x : Domain)
        → get k ds ≡ some x
        → k ≢ d.id
        → (x.username ≢ d.username) × (x.password ≢ d.password))
    → IsStorable (insert d.id d ds)
insert-IsStorable ds d h wide alone = record {
  width = λ k x e. elim (inserted ds d x k e) [
    | inl (_, same) ↦ subst StorableDomain same wide
    | inr (_, old) ↦ h.width k x old
  ];
  apart = λ k k' x x' e e' ne. elim (inserted ds d x k e) [
    | inl (at, same) ↦ elim (inserted ds d x' k' e') [
      | inl (at', same') ↦ absurd (ne (sym at ∙ at'))
      | inr (other, old) ↦
          let (names, hashes) = alone k' x' old (λ p. other (sym p)) in
          (
            (λ p. names (sym p ∙ sym (ap (λ y. y.username) same))),
            (λ p. hashes (sym p ∙ sym (ap (λ y. y.password) same))),
          )
    ]
    | inr (other, old) ↦ elim (inserted ds d x' k' e') [
      | inl (at', same') ↦
          let (names, hashes) = alone k x old (λ p. other (sym p)) in
          (
            (λ p. names (p ∙ sym (ap (λ y. y.username) same'))),
            (λ p. hashes (p ∙ sym (ap (λ y. y.password) same'))),
          )
      | inr (_, old') ↦ h.apart k k' x x' old old' ne
    ]
  ];
}

pub IsNew-IsStorable :
    (m : Memory) (d : Domain)
    → IsNew m d
    → IsStorable m.domains
    → IsStorable (create_domain d m).domains
unfolding create_domain
IsNew-IsStorable m d new h = insert-IsStorable m.domains d h new.width (λ k x e ne. new.alone k x e)

pub IsVersion-IsStorable :
    (m : Memory) (d : Domain)
    → IsVersion m d
    → IsStorable m.domains
    → IsStorable (create_domain d m).domains
unfolding create_domain
IsVersion-IsStorable m d v h = insert-IsStorable m.domains d h v.width v.alone

-- The update of a stored domain leaves it stored.
pub create_domain-IsVersion :
    (m : Memory) (d : Domain) → IsVersion m d → IsVersion (create_domain d m) d
unfolding create_domain
create_domain-IsVersion m d v = record {
  width = v.width;
  there = λ e. cc (get-insert_self d.id d m.domains);
  alone = λ k x e ne. elim (inserted m.domains d x k e) [
    | inl (at, same) ↦ absurd (ne (sym at))
    | inr (_, old) ↦ v.alone k x old ne
  ];
}

module _ (order : Order) (env : Env) where
  start_unstarted-IsStorable :
      (ds : Map String Domain)
      → CanStart env (unstarted ds)
      → IsStorable ds
      → IsStorable (start_missing env (unstarted ds)).1.domains
  start_unstarted-IsStorable ds can h = elim (Outcome-cases (new_domain env)) [
    | inl (d, made) ↦ rw (start_missing-ok env ds d made) (
        let new = can.new refl d made in
        insert-IsStorable ds d h new.width (λ k x e ne. new.alone k x e))
    | inr (inl (cause, failed)) ↦ rw (start_missing-err env (unstarted ds) cause failed) h
    | inr (inr failed) ↦ rw (start_missing-panic env (unstarted ds) failed) h
  ]

  start_single-IsStorable :
      (c : _) (ds : Map String Domain)
      → IsStorable ds
      → IsStorable (start_cert order env (single c ds)).1.domains
  start_single-IsStorable c ds h = rw (start_cert-single order env ds c) (ground arith)

  pub start_cert-IsStorable :
      (m : Memory)
      → IsConsistent m
      → CanStart env m
      → IsStorable m.domains
      → IsStorable (start_cert order env m).1.domains
  start_cert-IsStorable m h can storable = elim (IsConsistent-cases m h) [
    | inl shape ↦
        subst (λ m'. CanStart env m' → IsStorable (start_cert order env m').1.domains) (sym shape)
          (λ can'.
            rw (start_cert-unstarted order env m.domains)
              (start_unstarted-IsStorable m.domains can' storable))
          can
    | inr (c, shape) ↦
        subst (λ m'. IsStorable (start_cert order env m').1.domains) (sym shape)
          (start_single-IsStorable c m.domains storable)
  ]
