-- ===== src/Api/Server/Counted.antt =====
-- What the counters say of the connections.
use acme_dns_rust.Base.{
  ℕ, suc, ◌+◌, ◌≡◌, refl, ap, subst, ◌∙◌, some, Option-cases, inl, inr, List, [], ◌∷◌, arith,
}
use acme_dns_rust.Base.Int.{pos}
use acme_dns_rust.Api.Server.{
  gauge_inc, gauge_dec, Event, connection, failed_connection, end_of_stream, task_done,
  task_panicked, Loop, waiting, Server, started, on_next, on_task, serve, serve_all,
}

abbrev pub is_panic : Event → ℕ
is_panic task_panicked = 1
is_panic _ = 0

abbrev pub is_done : Event → ℕ
is_done task_done = 1
is_done _ = 0

-- The tasks that have panicked, and those that have ended, among the events.
abbrev pub panics : List Event → ℕ
panics [] = 0
panics (e ∷ events) = is_panic e + panics events

abbrev pub ends : List Event → ℕ
ends [] = 0
ends (e ∷ events) = is_done e + ends events

-- With `p` panics and `d` ends so far.
pub record IsCounted (p d : ℕ) (s : Server) : Type 0 where
  pub gauge : s.opened ≡ pos (s.running + p)
  pub counter : s.total ≡ s.running + p + d

some_value : {A : Type 0} {a b : A} → some a ≡ some b → a ≡ b
some_value e = cc

recount : (p d q r : ℕ) (s : Server) → IsCounted p d s → p ≡ q → d ≡ r → IsCounted q r s
recount p d q r s h same_p same_d = record {
  gauge = h.gauge ∙ ap pos (omega arith);
  counter = h.counter ∙ omega arith;
}

on_next-IsCounted :
    (p d : ℕ) (e : Event) (s s' : Server) (loop : Loop)
    → IsCounted p d s
    → on_next e s loop ≡ some s'
    → IsCounted (is_panic e + p) (is_done e + d) s'
unfolding on_next gauge_inc
on_next-IsCounted p d connection s s' waiting h e =
    subst (IsCounted (0 + p) (0 + d)) (some_value e)
      (record { gauge = rw h.gauge (ap pos (omega arith)); counter = rw h.counter (omega arith) })
on_next-IsCounted p d failed_connection s s' waiting h e =
    subst (IsCounted (0 + p) (0 + d)) (some_value e)
      (recount p d (0 + p) (0 + d) s h (omega arith) (omega arith))
on_next-IsCounted p d end_of_stream s s' waiting h e =
    subst (IsCounted (0 + p) (0 + d)) (some_value e)
      (record { gauge = h.gauge ∙ ap pos (omega arith); counter = h.counter ∙ omega arith })
on_next-IsCounted p d _ s s' _ h e = cc

suc_add : (n p : ℕ) → suc n + p ≡ suc (n + p)
suc_add n p = omega arith

on_task-IsCounted :
    (p d : ℕ) (e : Event) (s s' : Server) (n : ℕ)
    → s.running ≡ n
    → IsCounted p d s
    → on_task e s n ≡ some s'
    → IsCounted (is_panic e + p) (is_done e + d) s'
unfolding on_task gauge_dec
on_task-IsCounted p d task_done s s' (suc n) r h e =
    subst (IsCounted (0 + p) (1 + d)) (some_value e) (record {
      gauge =
          ap gauge_dec (h.gauge ∙ ap (λ k. pos (k + p)) r ∙ ap pos (suc_add n p))
          ∙ ap pos (omega arith);
      counter = h.counter ∙ rw r (omega arith);
    })
on_task-IsCounted p d task_panicked s s' (suc n) r h e =
    subst (IsCounted (1 + p) (0 + d)) (some_value e) (record {
      gauge = h.gauge ∙ rw r (ap pos (omega arith));
      counter = h.counter ∙ rw r (omega arith);
    })
on_task-IsCounted p d _ s s' _ r h e = cc

serve-IsCounted :
    (p d : ℕ) (e : Event) (s s' : Server)
    → IsCounted p d s
    → serve e s ≡ some s'
    → IsCounted (is_panic e + p) (is_done e + d) s'
unfolding serve
serve-IsCounted p d connection s s' h e = on_next-IsCounted p d connection s s' s.loop h e
serve-IsCounted p d failed_connection s s' h e =
    on_next-IsCounted p d failed_connection s s' s.loop h e
serve-IsCounted p d end_of_stream s s' h e = on_next-IsCounted p d end_of_stream s s' s.loop h e
serve-IsCounted p d task_done s s' h e = on_task-IsCounted p d task_done s s' s.running refl h e
serve-IsCounted p d task_panicked s s' h e =
    on_task-IsCounted p d task_panicked s s' s.running refl h e

run-IsCounted :
    (p d : ℕ) (events : List Event) (s s' : Server)
    → IsCounted p d s
    → serve_all events s ≡ some s'
    → IsCounted (panics events + p) (ends events + d) s'
unfolding serve_all
run-IsCounted p d [] s s' h e =
    recount p d (0 + p) (0 + d) s' (subst (IsCounted p d) (some_value e) h) (omega arith)
      (omega arith)
run-IsCounted p d (event ∷ events) s s' h e = elim (Option-cases (serve event s)) [
  | inl stuck ↦ let e' = rw (stuck, serve_all) at e in cc
  | inr (next, step) ↦
      let rest =
        run-IsCounted (is_panic event + p) (is_done event + d) events next s'
          (serve-IsCounted p d event s next h step) (rw (step, serve_all) at e) in
      record { gauge = rest.gauge ∙ ap pos (omega arith); counter = rest.counter ∙ omega arith }
]

-- After every sequence of events that can happen from the start of serve, the counter of all
-- connections is the number of the tasks that run, have ended or have panicked, and the gauge of
-- open connections is the number of those that run or have panicked: a task that panics is never
-- counted as closed.
pub serve_all-IsCounted :
    (events : List Event) (s : Server)
    → serve_all events started ≡ some s
    → IsCounted (panics events) (ends events) s
serve_all-IsCounted events s e =
    let run = run-IsCounted 0 0 events started s (record { gauge = refl; counter = refl }) e in
    record { gauge = run.gauge ∙ ap pos (omega arith); counter = run.counter ∙ omega arith }
