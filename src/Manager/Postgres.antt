-- ===== src/Manager/Postgres.antt =====
-- The certificate manager of src/cert.rs on Postgres and in memory, next to each other.
pub mod Storable
pub mod Loop
pub mod Keeps
pub mod Refines
mod Tests
use acme_dns_rust.Sql.Text.{IsText}
use acme_dns_rust.Base.{◌≡◌, refl, String}
use acme_dns_rust.Base.Map.{get, string_key}
use acme_dns_rust.Facade.Memory.{Memory}
use acme_dns_rust.Facade.Postgres.Tables.{View}
use acme_dns_rust.Facade.Postgres.Sim.{Sim}
use acme_dns_rust.Base.Outcome.{Outcome, ok}
use acme_dns_rust.Manager.{Acme}

-- What the tables would hold.
abbrev pub view_of : Memory → View
view_of m = record { cert_at = λ k. get k m.certs; domain_at = λ k. get k m.domains }

pub Sim-view_of : (view : View) (m : Memory) → Sim view m → view ≡ view_of m
Sim-view_of view m sim =
    λ i. record { cert_at = λ k. sim.certs k i; domain_at = λ k. sim.domains k i }

-- An authority that knows of a store what the name server reads there.
abbrev pub acme_on :
    {S NewOrder Auth Csr : Type 0}
    → (S → View)
    → Acme View NewOrder Auth Csr
    → Acme S NewOrder Auth Csr
acme_on view acme = record {
  new_order = acme.new_order;
  confirm_validations = acme.confirm_validations;
  authorizations = acme.authorizations;
  dns_proof = acme.dns_proof;
  validate = λ auth s. acme.validate auth (view s);
  refresh = acme.refresh;
  finalize = acme.finalize;
}

-- The proofs, the keys and the chains of an authority are texts that the database can hold.
pub record SuppliesTexts {Auth Csr : Type 0} (dns_proof : Auth → String)
    (finalize : Csr → Outcome (String × String)) : Type 0 where
  pub proofs : (auth : Auth) → IsText (dns_proof auth)
  pub issued :
      (csr : Csr) (key chain : String) → finalize csr ≡ ok (key, chain) → IsText key × IsText chain
