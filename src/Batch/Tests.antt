-- ===== src/Batch/Tests.antt =====
-- Runs of src/backend/bridge/batch_manager.js, and the theorem at a concrete run.
use gaia_email_libs_and_more.Common.{
  ℕ, ◌+◌, ◌==◌, if◌then◌else◌, ◌≡◌, ◌≢◌, refl, Option, none, some, List, [], ◌∷◌, ◌++◌, has, add,
  delete, for_each,
}
use gaia_email_libs_and_more.Batch.{
  create_batch, regular, soon, clear_timeout, send_one, flush_pending, schedule,
  register_dirty_view, timer_fired, promise_runs,
}
use gaia_email_libs_and_more.Batch.Scheduled.{
  Event, dirty, runs, happen, timers_of, WillFlush, run-WillFlush,
}

program : Unit {0}
unfolding has add delete for_each clear_timeout send_one flush_pending schedule register_dirty_view
    timer_fired promise_runs happen
program = tt

-- The proxy 3 has nothing to send.
abbrev payload : ℕ → Option ℕ
payload n = if n == 3 then none else some (n + 10)

-- Proxy 1 waits for a timer, and proxy 2 is in more of a hurry.
abbrev hurried : List Event
hurried = dirty 1 regular ∷ dirty 2 soon ∷ []

hurried_run :
    (for_each (happen payload) create_batch (hurried ++ runs ∷ [])).sent ≡ (1, 11) ∷ (2, 12) ∷ []
unfolding program
hurried_run = refl

no_timer_run : (for_each (happen payload) create_batch hurried).timers ≡ []
unfolding program
no_timer_run = refl

run-WillFlush_example :
    ((for_each (happen payload) create_batch hurried).pending_proxies ≢ []
      → WillFlush payload (for_each (happen payload) create_batch hurried))
    × ((for_each (happen payload) create_batch hurried).timers
        ≡ timers_of (for_each (happen payload) create_batch hurried).timer)
run-WillFlush_example = run-WillFlush payload hurried
