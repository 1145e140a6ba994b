-- ===== src/Dns/Handler.antt =====
-- src/dns/handler.rs: the requests to the name server are timed under the name that they ask for.
-- The catalogue of trust-dns, which answers them, is a parameter.
use acme_dns_rust.Base.{
  ℕ, ◌+◌, ◌≡◌, refl, ◌⊎◌, inl, inr, List, [], ◌∷◌, if◌then◌else◌, String, str_eq,
}
use acme_dns_rust.Base.Outcome.{Outcome, ok, err, panic}

-- The names of the queries of a request, in order, and the rest of it.
pub record Request (Message : Type 0) : Type 0 where
  pub queries : List String
  pub message : Message

-- How many requests have been timed under each name: the histogram `dns_request_duration_seconds`
-- without the durations.
abbrev pub Counts : Type 0
Counts = String → ℕ

abbrev pub observe : String → Counts → Counts
observe name counts k = if str_eq k name then counts k + 1 else counts k

-- `queries().first()`, as a slice of at most one label.
abbrev pub labels_of : List String → List String
labels_of [] = []
labels_of (name ∷ names) = name ∷ []

-- `with_label_values`, which panics unless there is a value for each label; this histogram has one.
abbrev pub with_label_values : List String → Outcome String
with_label_values (name ∷ []) = ok name
with_label_values _ = panic

module _ {S Message Response : Type 0} (catalog : Request Message → S → Outcome Response × S) where
  -- The timer observes at the end, in `end_timer` or when it is dropped.
  abbrev pub timed : String → Outcome Response × S → Counts → Outcome Response × (S × Counts)
  timed name (response, s) counts = (response, (s, observe name counts))

  abbrev pub with_timer :
      Outcome String → Request Message → S → Counts → Outcome Response × (S × Counts)
  with_timer (ok name) request s counts = timed name (catalog request s) counts
  with_timer (err e) request s counts = (err e, (s, counts))
  with_timer panic request s counts = (panic, (s, counts))

  unfoldable pub handle_request : Request Message → S → Counts → Outcome Response × (S × Counts)
  handle_request request s counts =
      with_timer (with_label_values (labels_of request.queries)) request s counts

  -- A request with a query is answered as the catalogue does, and timed under the name of its first
  -- query; one without a query panics and changes nothing.
  pub handle_request-answered :
      (request : Request Message) (s : S) (counts : Counts)
      → (request.queries ≡ []) × (handle_request request s counts ≡ (panic, (s, counts)))
        ⊎ ((name : String) × (rest : List String) × (request.queries ≡ name ∷ rest)
            × (handle_request request s counts
                ≡ ((catalog request s).0, ((catalog request s).1, observe name counts))))
  unfolding handle_request
  handle_request-answered request s counts = by_queries request.queries refl
    where
      by_queries :
          (names : List String)
          → request.queries ≡ names
          → (request.queries ≡ []) × (handle_request request s counts ≡ (panic, (s, counts)))
            ⊎ ((name : String) × (rest : List String) × (request.queries ≡ name ∷ rest)
                × (handle_request request s counts
                    ≡ ((catalog request s).0, ((catalog request s).1, observe name counts))))
      by_queries [] e = inl (e, rw e refl)
      by_queries (name ∷ rest) e = inr (name, rest, e, rw e refl)
