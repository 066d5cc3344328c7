-- ===== src/Backoff/Retries.antt =====
-- How often a server that cannot be reached is tried, and how long the delays are.
use gaia_email_libs_and_more.Common.{
  ℕ, zero, suc, ◌+◌, ◌≡◌, ◌≢◌, Bool, false, ltb, if◌then◌else◌, arith, min, ◌∙◌,
}
use gaia_email_libs_and_more.Backoff.{
  healthy, unreachable, broken, shutdown, Endpoint, set_state, note_connect_success,
  note_connect_failure_maybe_retry, note_broken_connection, Attempt, ignored, at_once, after_ms,
  schedule_connect_attempt, shut_down,
}

-- A round: the connection is scheduled and cannot be made.
unfoldable pub failed_round : (ℕ → ℕ) → Endpoint → Attempt × Bool × Endpoint
failed_round random e =
    let (attempt, e₁) = schedule_connect_attempt random e in
    let (again, e₂) = note_connect_failure_maybe_retry false e₁ in (attempt, again, e₂)

unfoldable pub rounds : (ℕ → ℕ) → ℕ → Endpoint → Endpoint
rounds random zero e = e
rounds random (suc n) e = rounds random n (failed_round random e).2

-- The round from an endpoint that has used `n` of the delays.
module _ (random : ℕ → ℕ) (e : Endpoint) (up : e.state ≢ shutdown) where
  failed_round_lem :
      ((failed_round random e).2.next_backoff
        ≡ (if ltb e.next_backoff 3 then e.next_backoff + 1 else e.next_backoff))
      × ((failed_round random e).1 ≡ ltb (e.next_backoff + 1) 3)
      × ((failed_round random e).2.state ≡ unreachable)
  unfolding failed_round schedule_connect_attempt note_connect_failure_maybe_retry set_state
  failed_round_lem = ground arith

-- The attempt of a round, by the number of rounds before it.
abbrev pub attempt_of : (ℕ → ℕ) → ℕ → Attempt
attempt_of random zero = after_ms (0 + random 0)
attempt_of random (suc zero) = after_ms (800 + random 400)
attempt_of random (suc (suc zero)) = after_ms (4500 + random 1000)
attempt_of random (suc (suc (suc n))) = at_once

attempt_lem :
    (random : ℕ → ℕ) (n : ℕ) (e : Endpoint)
    → e.state ≢ shutdown
    → e.next_backoff ≡ min n 3
    → (failed_round random e).0 ≡ attempt_of random n
unfolding failed_round schedule_connect_attempt
attempt_lem random zero e up h = ground arith
attempt_lem random (suc zero) e up h = ground arith
attempt_lem random (suc (suc zero)) e up h = ground arith
attempt_lem random (suc (suc (suc n))) e up h =
    let full : e.next_backoff ≡ 3 = omega arith in ground arith

module _ (random : ℕ → ℕ) where
  rounds_from :
      (n m : ℕ) (e : Endpoint)
      → e.state ≢ shutdown
      → e.next_backoff ≡ min m 3
      → (rounds random n e).state ≢ shutdown × ((rounds random n e).next_backoff ≡ min (m + n) 3)
  unfolding rounds
  rounds_from zero m e up h = (up, omega arith)
  rounds_from (suc n) m e up h =
      let step = failed_round_lem random e up in
      let (up', h') =
        rounds_from n (suc m) (failed_round random e).2 (λ down. cc step.2)
          (ground (arith, step)) in
      (up', omega arith)

  -- From any endpoint that is not shut down and has used no delay, with a server that is never
  -- reached: the first three attempts have the delays of the table and the later ones are made at
  -- once; just the first two failures ask for another try; and already after the first failure the
  -- endpoint is unreachable.
  pub failed_round-table :
      (n : ℕ) (e : Endpoint)
      → e.state ≢ shutdown
      → e.next_backoff ≡ 0
      → ((failed_round random (rounds random n e)).0 ≡ attempt_of random n)
        × ((failed_round random (rounds random n e)).1 ≡ ltb n 2)
        × ((failed_round random (rounds random n e)).2.state ≡ unreachable)
  failed_round-table n e up h =
      let (up', h') = rounds_from n 0 e up (omega arith) in
      let step = failed_round_lem random (rounds random n e) up' in
      (attempt_lem random n (rounds random n e) up' (omega arith), step.1 ∙ ground arith, step.2)

-- Once an endpoint is shut down a failure asks for no retry and changes nothing, and no attempt is
-- made; but a success makes it healthy again, and a broken connection makes it broken.
pub shut_down-ignores :
    (random : ℕ → ℕ) (reachable : Bool) (e : Endpoint)
    → (note_connect_failure_maybe_retry reachable (shut_down e) ≡ (false, shut_down e))
      × (schedule_connect_attempt random (shut_down e) ≡ (ignored, shut_down e))
      × ((note_connect_success (shut_down e)).state ≡ healthy)
      × ((note_broken_connection (shut_down e)).state ≡ broken)
unfolding note_connect_failure_maybe_retry schedule_connect_attempt note_connect_success
    note_broken_connection shut_down set_state
shut_down-ignores random reachable e = ground arith
