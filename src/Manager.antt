-- ===== src/Manager.antt =====
-- src/cert.rs: the certificate manager. The client of the certificate authority (the crate
-- acme-lib) is a parameter.
pub mod Loop
pub mod Renewal
pub mod Postgres
pub mod Start
mod Tests
use acme_dns_rust.Base.{
  ℕ, zero, suc, Bool, true, false, Option, none, some, List, [], ◌∷◌, if◌then◌else◌, String,
}
use acme_dns_rust.Base.Outcome.{Outcome, ok, err, panic, Error, ◌>>=◌, ◌>>◌}
use acme_dns_rust.Facade.{Cert, Domain, Env, Facade}

-- What the source calls of acme-lib. `validate` asks the authority to look at the name server,
-- whose answers depend on the store. `finalize` stands for `finalize_pkey` and
-- `download_and_save_cert`, and gives the private key and the certificate.
pub record Acme (S NewOrder Auth Csr : Type 0) : Type 0 where
  pub new_order : Outcome NewOrder
  pub confirm_validations : NewOrder → Option Csr
  pub authorizations : NewOrder → Outcome (List Auth)
  pub dns_proof : Auth → String
  pub validate : Auth → S → NewOrder → Outcome NewOrder
  pub refresh : NewOrder → Outcome NewOrder
  pub finalize : Csr → Outcome (String × String)

-- `list.get(0).ok_or_else(…)`
abbrev pub get_first : {A : Type 0} → List A → String → Outcome A
get_first [] text = err (Error.message text)
get_first (x ∷ l) text = ok x

-- The `JoinError` of a task that has panicked.
abbrev pub task_panicked : Error
task_panicked = Error.message "task panicked"

-- What a run of a loop on fuel gives: its result, or that the fuel ran out.
pub data Run (A : Type 0) : Type 0 where
  done : Outcome A → Run A
  out_of_fuel : Run A

module _ {S NewOrder Auth Csr : Type 0} (acme : Acme S NewOrder Auth Csr) (facade : Facade S) where
  unfoldable pub first_auth : NewOrder → Outcome Auth
  first_auth order = do auths ← acme.authorizations order; get_first auths "couldn't unpack auths"

  abbrev pub with_proof : Domain → Auth → Domain
  with_proof domain auth = record domain { txt = some (acme.dns_proof auth) }

  -- The end of a round: `chall.validate(5000)?` and `order.refresh()?`.
  unfoldable pub next_order : Auth → S → NewOrder → Outcome NewOrder
  next_order auth s order = do validated ← acme.validate auth s order; acme.refresh validated

  abbrev pub go_on : Outcome NewOrder × S → (NewOrder → S → Run Csr × S) → Run Csr × S
  go_on (ok order, s) again = again order s
  go_on (err e, s) again = (done (err e), s)
  go_on (panic, s) again = (done panic, s)

  -- One round's calls: the proof is stored, then the authority is asked.
  abbrev pub after_update : Outcome (Unit {0}) × S → Auth → NewOrder → Outcome NewOrder × S
  after_update (updated, s) auth order = (updated >> next_order auth s order, s)

  abbrev pub run_round :
      Outcome Auth → Domain → NewOrder → S → (Domain → NewOrder → S → Run Csr × S) → Run Csr × S
  run_round (ok auth) domain order s again =
      go_on (after_update (facade.update_domain (with_proof domain auth) s) auth order)
        (again (with_proof domain auth))
  run_round (err e) domain order s again = (done (err e), s)
  run_round panic domain order s again = (done panic, s)

  -- The loop of `validate`, on fuel.
  unfoldable pub confirm_loop : ℕ → Domain → NewOrder → S → Run Csr × S
  confirm_loop zero domain order s = (out_of_fuel, s)
  confirm_loop (suc fuel) domain order s = elim (acme.confirm_validations order) [
    | some csr ↦ (done (ok csr), s)
    | none ↦ run_round (first_auth order) domain order s (confirm_loop fuel)
  ]

  unfoldable pub issue : Cert → Csr → Outcome Cert
  issue memory_cert csr = do
    (private, cert) ← acme.finalize csr
    ok (record memory_cert { private = some private; cert = some cert })

  abbrev pub issue_after : Cert → Run Csr × S → Run Cert × S
  issue_after memory_cert (done (ok csr), s) = (done (issue memory_cert csr), s)
  issue_after memory_cert (done (err e), s) = (done (err e), s)
  issue_after memory_cert (done panic, s) = (done panic, s)
  issue_after memory_cert (out_of_fuel, s) = (out_of_fuel, s)

  unfoldable pub validate : ℕ → Cert → Domain → NewOrder → S → Run Cert × S
  validate fuel memory_cert domain order s =
      issue_after memory_cert (confirm_loop fuel domain order s)

  abbrev pub ignore : Outcome Cert × S → Run (Unit {0}) × S
  ignore (ok cert, s) = (done (ok tt), s)
  ignore (err e, s) = (done (err e), s)
  ignore (panic, s) = (done panic, s)

  -- `.await??` on the blocking task, whose panic is an error here, and then `stop_cert`.
  abbrev pub stop_after : Run Cert × S → Run (Unit {0}) × S
  stop_after (done (ok cert), s) = ignore (facade.stop_cert cert s)
  stop_after (done (err e), s) = (done (err e), s)
  stop_after (done panic, s) = (done (err task_panicked), s)
  stop_after (out_of_fuel, s) = (out_of_fuel, s)

  -- With the job and its domain: an order is placed, validated, and the job finished.
  abbrev pub order_for : ℕ → Cert → Domain → Outcome NewOrder → S → Run (Unit {0}) × S
  order_for fuel memory_cert domain (ok order) s =
      stop_after (validate fuel memory_cert domain order s)
  order_for fuel memory_cert domain (err e) s = stop_after (done (err e), s)
  order_for fuel memory_cert domain panic s = stop_after (done panic, s)

  abbrev pub with_domain : ℕ → Cert → Outcome (Option Domain) × S → Run (Unit {0}) × S
  with_domain fuel memory_cert (ok none, s) =
      (done (err (Error.message "Could not find domain")), s)
  with_domain fuel memory_cert (ok (some domain), s) =
      order_for fuel memory_cert domain acme.new_order s
  with_domain fuel memory_cert (err e, s) = (done (err e), s)
  with_domain fuel memory_cert (panic, s) = (done panic, s)

  abbrev pub with_job : ℕ → Outcome (Option Cert) × S → Run (Unit {0}) × S
  with_job fuel (ok none, s) = (done (ok tt), s)
  with_job fuel (ok (some memory_cert), s) =
      with_domain fuel memory_cert (facade.find_domain_by_id memory_cert.domain s)
  with_job fuel (err e, s) = (done (err e), s)
  with_job fuel (panic, s) = (done panic, s)

  -- `manage`
  unfoldable pub manage : ℕ → Env → S → Run (Unit {0}) × S
  manage fuel env s = with_job fuel (facade.start_cert env s)

  -- One tick of the interval in `spawn`: the test is the constant `true`, so `manage` is skipped.
  unfoldable pub tick : ℕ → Env → S → S
  unfolding manage
  tick fuel env s = if true then s else (manage fuel env s).1
