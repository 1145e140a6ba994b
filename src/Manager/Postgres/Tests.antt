-- ===== src/Manager/Postgres/Tests.antt =====
-- A renewal on an empty database, with an authority that asks for one proof.
use acme_dns_rust.Base.{◌≡◌, refl, ap, subst, ℕ, zero, suc, none, some, [], ◌∷◌, String}
use acme_dns_rust.Base.Outcome.{ok, err, Error, ok_injective}
use acme_dns_rust.Facade.Memory.{memory_facade}
use acme_dns_rust.Facade.Single.{unstarted}
use acme_dns_rust.Facade.Postgres.{postgres_facade}
use acme_dns_rust.Facade.Postgres.Tables.{View}
use acme_dns_rust.Facade.Postgres.Rows.{rows_postgres, rows_tables}
use acme_dns_rust.Facade.Postgres.Samples.{
  order, env, domain, no_rows, no_rows-Sim, nothing-IsConsistent, env-CanStart,
}
use acme_dns_rust.Sql.Text.{IsText}
use acme_dns_rust.Manager.{Acme, manage}
use acme_dns_rust.Manager.Postgres.{SuppliesTexts}
use acme_dns_rust.Manager.Postgres.Storable.{IsStorable}
use acme_dns_rust.Manager.Postgres.Loop.{db_acme, memory_acme, RunAgrees}
use acme_dns_rust.Manager.Postgres.Refines.{manage-Agrees}

abbrev pred : ℕ → ℕ
pred zero = zero
pred (suc n) = n

-- An order is the number of proofs that are still wanted; a proof has to be stored.
abbrev acme : Acme View ℕ (Unit {0}) String
acme = record {
  new_order = ok 1;
  confirm_validations = λ n. elim n [ zero ↦ some "request" | suc m ↦ none ];
  authorizations = λ n. ok (tt ∷ []);
  dns_proof = λ auth. "proof";
  validate = λ auth view n. elim (view.domain_at domain.id) [
    | none ↦ err (Error.message "no domain")
    | some d ↦ ok n
  ];
  refresh = λ n. ok (pred n);
  finalize = λ csr. ok ("key", "chain");
}

nothing-IsStorable : IsStorable (unstarted []).domains
nothing-IsStorable = record { width = λ k d e. cc; apart = λ k k' d d' e e' ne. cc }

acme-SuppliesTexts : SuppliesTexts acme.dns_proof acme.finalize
acme-SuppliesTexts = record {
  proofs = λ auth. refl;
  issued = λ csr key chain e.
      let p : ("key", "chain") ≡ (key, chain) = ok_injective e in
      (subst IsText (ap (λ x. x.0) p) refl, subst IsText (ap (λ x. x.1) p) refl);
}

manage-Agrees_example :
    RunAgrees rows_postgres rows_tables order acme
      (manage
        (db_acme rows_postgres rows_tables order acme)
        (postgres_facade rows_postgres)
        3
        env
        no_rows)
      (manage
        (memory_acme rows_postgres rows_tables order acme)
        (memory_facade order)
        3
        env
        (unstarted []))
manage-Agrees_example =
    manage-Agrees rows_postgres rows_tables order acme acme-SuppliesTexts 3 env no_rows
      (unstarted []) nothing-IsConsistent nothing-IsStorable env-CanStart no_rows-Sim
