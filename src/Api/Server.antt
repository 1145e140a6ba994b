-- ===== src/Api/Server.antt =====
-- src/api/mod.rs, `serve`: the connections of one endpoint, their tasks, and the two counters.
pub mod Counted
mod Tests
use acme_dns_rust.Base.{ℕ, zero, suc, ◌+◌, Option, none, some, List, [], ◌∷◌}
use acme_dns_rust.Base.Int.{ℤ, pos, negsuc}

-- `IntGauge::inc` and `dec`.
unfoldable pub gauge_inc : ℤ → ℤ
gauge_inc (pos n) = pos (suc n)
gauge_inc (negsuc zero) = pos zero
gauge_inc (negsuc (suc n)) = negsuc n

unfoldable pub gauge_dec : ℤ → ℤ
gauge_dec (pos zero) = negsuc zero
gauge_dec (pos (suc n)) = pos n
gauge_dec (negsuc n) = negsuc (suc n)

-- What the loop and the tasks that it has spawned see: the stream gives a connection, an error or
-- its end; a task ends with its `Result`, or it panics.
pub data Event : Type 0 where
  connection failed_connection end_of_stream : Event
  task_done task_panicked : Event

pub data Loop : Type 0 where
  waiting ended : Loop

-- `opened` and `total` are the values of the gauge and of the counter under the endpoint's label.
pub record Server : Type 0 where
  pub loop : Loop
  pub running : ℕ
  pub total : ℕ
  pub opened : ℤ

abbrev pub started : Server
started = record { loop = waiting; running = 0; total = 0; opened = pos 0 }

-- A connection is counted twice and gets a task; an error is only logged.
unfoldable pub on_next : Event → Server → Loop → Option Server
unfolding gauge_inc
on_next connection s waiting =
    some (record s { running = s.running + 1; total = s.total + 1; opened = gauge_inc s.opened })
on_next failed_connection s waiting = some s
on_next end_of_stream s waiting = some (record s { loop = ended })
on_next _ s _ = none

-- The end of a task: `inspect` lowers the gauge, whatever the result. A panic does not reach it.
unfoldable pub on_task : Event → Server → ℕ → Option Server
unfolding gauge_dec
on_task task_done s (suc n) = some (record s { running = n; opened = gauge_dec s.opened })
on_task task_panicked s (suc n) = some (record s { running = n })
on_task _ s _ = none

-- One event, or `none` where it cannot happen.
unfoldable pub serve : Event → Server → Option Server
unfolding on_next on_task
serve task_done s = on_task task_done s s.running
serve task_panicked s = on_task task_panicked s s.running
serve event s = on_next event s s.loop

unfoldable pub serve_all : List Event → Server → Option Server
unfolding serve
serve_all [] s = some s
serve_all (event ∷ events) s = elim (serve event s) [ none ↦ none | some s' ↦ serve_all events s' ]
