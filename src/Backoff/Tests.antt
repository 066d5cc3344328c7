-- ===== src/Backoff/Tests.antt =====
-- Runs of src/backend/errbackoff.js, and the theorems at concrete inputs.
use gaia_email_libs_and_more.Common.{ℕ, ◌-◌, ◌≡◌, refl, true, [], ◌∷◌}
use gaia_email_libs_and_more.Backoff.{
  Endpoint, healthy, unreachable, create_endpoint, set_state, note_connect_failure_maybe_retry,
  schedule_connect_attempt,
}
use gaia_email_libs_and_more.Backoff.Retries.{failed_round, rounds}

abbrev half : ℕ → ℕ
half n = n - 1

abbrev server : Endpoint
server = record {
  state = healthy;
  next_backoff = 0;
  bad_resources = (7, record { count = 1; last = 20 }) ∷ [];
  has_listener = true;
  heard = [];
}

listener_hears : (rounds half 4 (create_endpoint true)).heard ≡ unreachable ∷ []
unfolding rounds failed_round create_endpoint schedule_connect_attempt
    note_connect_failure_maybe_retry set_state
listener_hears = refl
