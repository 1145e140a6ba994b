-- ===== src/Facade.antt =====
-- src/facade/mod.rs, and the data of src/facade/cert.rs and src/facade/domain.rs: certificates,
-- domains, and the interface that the other parts of the program use them through.
pub mod Memory
pub mod Single
pub mod Lease
pub mod Jobs
pub mod Consistency
pub mod Workers
pub mod Postgres
mod Tests
use acme_dns_rust.Base.{ℕ, Bool, true, false, ◌&&◌, Option, none, some, String, str_eq}
use acme_dns_rust.Base.Int.{ℤ}
use acme_dns_rust.Base.Outcome.{Outcome, ◌>>=◌}
use acme_dns_rust.Util.{to_i64}

pub data State : Type 0 where
  ok updating : State

pub record Cert : Type 0 where
  pub id : String
  pub update : ℤ
  pub state : State
  pub cert : Option String
  pub private : Option String
  pub domain : String

pub record DomainDto : Type 0 where
  pub id : String
  pub username : String
  pub password : String

pub record Domain : Type 0 where
  pub id : String
  pub username : String
  pub password : String
  pub txt : Option String

abbrev pub option_eq : Option String → Option String → Bool
option_eq none none = true
option_eq (some a) (some b) = str_eq a b
option_eq _ _ = false

-- `impl PartialEq for Cert`: the time, the state and the domain do not count.
unfoldable pub cert_eq : Cert → Cert → Bool
cert_eq a b = str_eq a.id b.id && option_eq a.cert b.cert && option_eq a.private b.private

-- What a call reads from outside: the clock, the random uuids in the order in which they are
-- drawn, and bcrypt.
pub record Env : Type 0 where
  pub now : ℕ
  pub uuid : ℕ → String
  pub hash : String → Outcome String

-- `DomainDTO::default`
unfoldable pub default_dto : Env → DomainDto
default_dto env = record { id = env.uuid 0; username = env.uuid 1; password = env.uuid 2 }

-- `Domain::try_from(DomainDTO)`
unfoldable pub try_from : Env → DomainDto → Outcome Domain
try_from env input = do
  password ← env.hash input.password
  Outcome.ok (record { id = input.id; username = input.username; password = password; txt = none })

-- `Domain::new`: the password's uuid is drawn first.
unfoldable pub new_domain : Env → Outcome Domain
new_domain env = do
  password ← env.hash (env.uuid 0)
  Outcome.ok (record { id = env.uuid 1; username = env.uuid 2; password = password; txt = none })

-- `Cert::new`, which draws the uuid after those of `Domain::new`.
unfoldable pub new_cert : Env → Domain → Cert
new_cert env domain = record {
  id = env.uuid 3;
  update = to_i64 env.now;
  state = State.updating;
  cert = none;
  private = none;
  domain = domain.id;
}

-- The traits `DomainFacade` and `CertFacade` over a state `S`. `stop_cert` changes the
-- certificate that it is given, so it returns it.
pub record Facade (S : Type 0) : Type 0 where
  pub find_domain_by_id : String → S → Outcome (Option Domain) × S
  pub create_domain : Domain → S → Outcome (Unit {0}) × S
  pub update_domain : Domain → S → Outcome (Unit {0}) × S
  pub first_cert : S → Outcome (Option Cert) × S
  pub update_cert : Cert → S → Outcome (Unit {0}) × S
  pub create_cert : Cert → S → Outcome (Unit {0}) × S
  pub start_cert : Env → S → Outcome (Option Cert) × S
  pub stop_cert : Cert → S → Outcome Cert × S
