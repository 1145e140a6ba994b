-- ===== src/Facade/Postgres/Sim.antt =====
-- When the tables hold what the in-memory facade holds, and which writes keep it so.
use acme_dns_rust.Base.{
  ◌≡◌, refl, sym, ap, subst, ◌∙◌, inl, inr, false, Bool-cases, some, [], ◌∷◌, if◌then◌else◌, String,
  str_eq, eq_iff, eq_refl,
}
use acme_dns_rust.Base.Map.{Map, get, insert, get-insert, string_key}
use acme_dns_rust.Sql.Text.{IsChar}
use acme_dns_rust.Facade.{Cert, Domain}
use acme_dns_rust.Facade.Memory.{Memory}
use acme_dns_rust.Facade.Single.{single, IsConsistent}
use acme_dns_rust.Facade.Postgres.Tables.{
  View, CertTexts, StorableCert, FitsCert, SetsCert, SetsDomain,
}

pub record Sim (view : View) (m : Memory) : Type 0 where
  pub certs : (k : String) → view.cert_at k ≡ get k m.certs
  pub domains : (k : String) → view.domain_at k ≡ get k m.domains
  pub width : (k : String) (c : Cert) → get k m.certs ≡ some c → StorableCert c

pub get_single : (k : String) (c x : Cert) → get k ((c.id, c) ∷ []) ≡ some x → (c ≡ x) × (c.id ≡ k)
get_single k c x e = elim (Bool-cases (str_eq c.id k)) [
  | inl same ↦ let e' = rw same at e in (cc, (eq_iff c.id k).0 same)
  | inr other ↦ let e' = rw other at e in cc
]

pub get_own : (c : Cert) → get c.id ((c.id, c) ∷ []) ≡ some c
get_own c = rw (eq_refl c.id) refl

module _ (view view' : View) where
  -- A new version of the only certificate.
  pub Sim-single :
      (c c' : Cert) (ds : Map String Domain)
      → c'.id ≡ c.id
      → StorableCert c'
      → SetsCert c' view view'
      → Sim view (single c ds)
      → Sim view' (single c' ds)
  Sim-single c c' ds same width (set, kept) sim = record {
    certs = λ k. set k ∙ certs_at k;
    domains = λ k. kept k ∙ sim.domains k;
    width = λ k x e. subst StorableCert (get_single k c' x e).0 width;
  }
    where
      certs_at :
          (k : String)
          → (if str_eq c'.id k then some c' else view.cert_at k) ≡ get k ((c'.id, c') ∷ [])
      certs_at k = elim (Bool-cases (str_eq c'.id k)) [
        | inl hit ↦ rw hit refl
        | inr miss ↦
            rw miss (
              sim.certs k
              ∙ (let miss' = subst (λ i. str_eq i k ≡ false) same miss in rw miss' refl))
      ]

  -- A certificate under its id.
  pub Sim-cert :
      (c : Cert) (m : Memory)
      → StorableCert c
      → SetsCert c view view'
      → Sim view m
      → Sim view' (record m { certs = insert c.id c m.certs })
  Sim-cert c m width (set, kept) sim = record {
    certs = λ k.
        set k
        ∙ ap (λ o. if str_eq c.id k then some c else o) (sim.certs k)
        ∙ sym (get-insert c.id k c m.certs);
    domains = λ k. kept k ∙ sim.domains k;
    width = λ k x e. inserted_width k x (sym (get-insert c.id k c m.certs) ∙ e);
  }
    where
      inserted_width :
          (k : String) (x : Cert)
          → (if str_eq c.id k then some c else get k m.certs) ≡ some x
          → StorableCert x
      inserted_width k x e = elim (Bool-cases (str_eq c.id k)) [
        | inl hit ↦ let same : c ≡ x = (let e' = rw hit at e in cc) in subst StorableCert same width
        | inr miss ↦ sim.width k x (rw miss at e)
      ]

  -- A domain under its id, new or not.
  pub Sim-domain :
      (d : Domain) (m : Memory)
      → SetsDomain d view view'
      → Sim view m
      → Sim view' (record m { domains = insert d.id d m.domains })
  Sim-domain d m (set, kept) sim = record {
    certs = λ k. kept k ∙ sim.certs k;
    domains = λ k.
        set k
        ∙ ap (λ o. if str_eq d.id k then some d else o) (sim.domains k)
        ∙ sym (get-insert d.id k d m.domains);
    width = sim.width;
  }

module _ (view : View) (ds : Map String Domain) where
  -- What the row that the database selects is.
  pub SelectsCert-single :
      (c : Cert) (x : Cert) → Sim view (single c ds) → view.cert_at x.id ≡ some x → x ≡ c
  SelectsCert-single c x sim e = sym (get_single x.id c x (sym (sim.certs x.id) ∙ e)).0

  -- The only certificate of a consistent store fits the tables, whatever else is changed in it.
  pub FitsCert-single :
      (c c' : Cert)
      → IsConsistent (single c ds)
      → Sim view (single c ds)
      → c'.id ≡ c.id
      → c'.domain ≡ c.domain
      → CertTexts c'
      → FitsCert view c'
  FitsCert-single c c' h sim same bound texts = record {
    width =
        (let width = sim.width c.id c (get_own c) in
          (subst (IsChar 32) (sym same) width.0, subst (IsChar 32) (sym bound) width.1, texts));
    known = λ e. h.held.1 (sym (sim.domains c.domain) ∙ ap view.domain_at (sym bound) ∙ e);
    alone = λ k x e b. sym (get_single k c x (sym (sim.certs k) ∙ e)).1 ∙ sym same;
  }
