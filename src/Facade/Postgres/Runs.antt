-- ===== src/Facade/Postgres/Runs.antt =====
-- Any sequence of calls that the program makes has the same answers on both facades.
use acme_dns_rust.Base.{◌≡◌, refl, sym, ap, subst, ◌∙◌, inl, inr, Option, List, [], ◌∷◌, String}
use acme_dns_rust.Base.Map.{get, string_key}
use acme_dns_rust.Base.Outcome.{Outcome, ok, err, panic}
use acme_dns_rust.Sql.Text.{IsText}
use acme_dns_rust.Sql.{Postgres}
use acme_dns_rust.Facade.{Cert, Domain, Env, Facade}
use acme_dns_rust.Facade.Memory.{
  Memory, Order, memory_facade, stop_cert as memory_stop_cert, first_cert as memory_first_cert,
  find_domain_by_id as memory_find_domain_by_id,
}
use acme_dns_rust.Facade.Jobs.{first_cert-single}
use acme_dns_rust.Facade.Single.{IsConsistent, IsConsistent-cases}
use acme_dns_rust.Facade.Consistency.{
  create_domain-IsConsistent, update_domain-IsConsistent, start_cert-IsConsistent,
  stop_cert-IsConsistent,
}
use acme_dns_rust.Facade.Postgres.{postgres_facade}
use acme_dns_rust.Facade.Postgres.Tables.{Tables}
use acme_dns_rust.Facade.Postgres.Sim.{Sim}
use acme_dns_rust.Facade.Postgres.Refines.{Agrees}
use acme_dns_rust.Facade.Postgres.Starts.{IsNew, CanStart, start_cert-Agrees}
use acme_dns_rust.Facade.Postgres.Calls.{
  IsJob, IsVersion, memory_unstarted, stop_cert-Agrees, first_cert-Agrees, create_domain-Agrees,
  find_domain_by_id-Agrees, update_domain-Agrees,
}

-- The calls that the name server, the API and the certificate manager make.
pub data Call : Type 0 where
  find : String → Call
  create update : Domain → Call
  first : Call
  start : Env → Call
  stop : Cert → Call

pub data Answer : Type 0 where
  done : Answer
  domain : Option Domain → Answer
  cert : Option Cert → Answer
  stopped : Cert → Answer

abbrev pub map_ok : {A B : Type 0} → (A → B) → Outcome A → Outcome B
map_ok f (ok a) = ok (f a)
map_ok f (err e) = err e
map_ok f panic = panic

abbrev pub answer_with : {S A : Type 0} → (A → Answer) → Outcome A × S → Outcome Answer × S
answer_with f (result, s) = (map_ok f result, s)

unfoldable pub run_call : {S : Type 0} → Facade S → Call → S → Outcome Answer × S
run_call facade (find id) s = answer_with domain (facade.find_domain_by_id id s)
run_call facade (create d) s = answer_with (λ _. done) (facade.create_domain d s)
run_call facade (update d) s = answer_with (λ _. done) (facade.update_domain d s)
run_call facade first s = answer_with cert (facade.first_cert s)
run_call facade (start env) s = answer_with cert (facade.start_cert env s)
run_call facade (stop c) s = answer_with stopped (facade.stop_cert c s)

unfoldable pub run_calls : {S : Type 0} → Facade S → List Call → S → List (Outcome Answer) × S
unfolding run_call
run_calls facade [] s = ([], s)
run_calls facade (c ∷ calls) s =
    let (answer, s') = run_call facade c s in
    let (answers, s'') = run_calls facade calls s' in (answer ∷ answers, s'')

module _ (order : Order) where
  -- The end of a job keeps the store consistent.
  pub stop_keeps :
      (c : Cert) (m : Memory)
      → IsConsistent m
      → IsJob order m c
      → IsConsistent (memory_stop_cert order c m).1
  stop_keeps c m h job = elim (IsConsistent-cases m h) [
    | inl shape ↦
        subst (λ m'. IsConsistent m' → IsConsistent (memory_stop_cert order c m').1) (sym shape)
          (λ h'. rw (memory_unstarted order c m.domains) h') h
    | inr (x, shape) ↦
        let (same, bound) =
          job.0 x (ap (memory_first_cert order) shape ∙ first_cert-single order x m.domains) in
        subst (λ m'. IsConsistent m' → IsConsistent (memory_stop_cert order c m').1) (sym shape)
          (λ h'.
            stop_cert-IsConsistent order c x m.domains h' same
              (λ e. h'.held.1 (ap (λ k. get k m.domains) (sym bound) ∙ e)))
          h
  ]

module _ (order : Order) where
  -- A call that the tables have room for.
  abbrev pub CanCall : Memory → Call → Type 0
  CanCall m (find id) = IsText id
  CanCall m (create d) = IsNew m d
  CanCall m (update d) = IsVersion m d
  CanCall m first = Unit {0}
  CanCall m (start env) = CanStart env m
  CanCall m (stop c) = IsJob order m c

  abbrev pub CanRun : Memory → List Call → Type 0
  CanRun m [] = Unit {0}
  CanRun m (c ∷ calls) = CanCall m c × CanRun (run_call (memory_facade order) c m).1 calls

  run_call-IsConsistent :
      (c : Call) (m : Memory)
      → IsConsistent m
      → CanCall m c
      → IsConsistent (run_call (memory_facade order) c m).1
  unfolding run_call memory_facade memory_find_domain_by_id
  run_call-IsConsistent (find id) m h can = h
  run_call-IsConsistent (create d) m h can = create_domain-IsConsistent d m h
  run_call-IsConsistent (update d) m h can = update_domain-IsConsistent d m h
  run_call-IsConsistent first m h can = h
  run_call-IsConsistent (start env) m h can = start_cert-IsConsistent order env m h
  run_call-IsConsistent (stop c) m h can = stop_keeps order c m h can

module _ (order : Order) {Db : Type 0} (pg : Postgres Db) (tables : Tables pg) where
  answer-Agrees :
      {A : Type 0} (f : A → Answer) (r : Outcome A × Db) (r' : Outcome A × Memory)
      → Agrees pg tables r r'
      → Agrees pg tables (answer_with f r) (answer_with f r')
  answer-Agrees f r r' (same, sim) = (ap (map_ok f) same, sim)

  run_call-Agrees :
      (c : Call) (db : Db) (m : Memory)
      → IsConsistent m
      → CanCall order m c
      → Sim (tables.view db) m
      → Agrees pg tables (run_call (postgres_facade pg) c db) (run_call (memory_facade order) c m)
  unfolding run_call memory_facade postgres_facade
  run_call-Agrees (find id) db m h can sim =
      answer-Agrees domain _ _ (find_domain_by_id-Agrees pg tables id db m can sim)
  run_call-Agrees (create d) db m h can sim =
      answer-Agrees (λ _. done) _ _ (create_domain-Agrees pg tables d db m can sim)
  run_call-Agrees (update d) db m h can sim =
      answer-Agrees (λ _. done) _ _ (update_domain-Agrees pg tables d db m can sim)
  run_call-Agrees first db m h can sim =
      answer-Agrees cert _ _ (first_cert-Agrees pg tables order db m h sim)
  run_call-Agrees (start env) db m h can sim =
      answer-Agrees cert _ _ (start_cert-Agrees pg tables order env db m h can sim)
  run_call-Agrees (stop c) db m h can sim =
      answer-Agrees stopped _ _ (stop_cert-Agrees pg tables order c db m h can sim)

  -- Any sequence of calls of the facade (finding, creating and updating domains, the first
  -- certificate, starts and stops) that the program can make from a consistent store has on
  -- Postgres, in working order and with the same rows, the same answers as in memory, and leaves
  -- the same rows: identifiers that are looked up are texts that the database can hold, new
  -- domains are new and fit the columns, updated ones are stored and keep the unique columns
  -- unique, and a certificate that is stopped has the id and domain of the stored one and a chain
  -- and a key that the database can hold.
  pub run_calls-refines :
      (calls : List Call) (db : Db) (m : Memory)
      → IsConsistent m
      → CanRun order m calls
      → Sim (tables.view db) m
      → ((run_calls (postgres_facade pg) calls db).0 ≡ (run_calls (memory_facade order) calls m).0)
        × Sim
            (tables.view (run_calls (postgres_facade pg) calls db).1)
            (run_calls (memory_facade order) calls m).1
  unfolding run_calls
  run_calls-refines [] db m h can sim = (refl, sim)
  run_calls-refines (c ∷ calls) db m h (can, later) sim =
      let (same, sim') = run_call-Agrees c db m h can sim in
      let (rest, sim'') =
        run_calls-refines calls _ _ (run_call-IsConsistent order c m h can) later sim' in
      (λ i. same i ∷ rest i, sim'')
