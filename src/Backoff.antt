-- ===== src/Backoff.antt =====
-- src/backend/errbackoff.js: the state of a server connection, and when to try it again.
pub mod Retries
mod Tests
use gaia_email_libs_and_more.Common.{
  ℕ, zero, suc, ◌+◌, ◌≡◌, ◌≤◌, ◌<◌, Bool, true, false, Option, none, some, List, [], ◌∷◌, ◌++◌,
  length, get_elem?, ltb, leb, if◌then◌else◌, get, put,
}

pub data EndpointState : Type 0 where
  healthy unreachable broken shutdown : EndpointState

-- An entry of `BACKOFF_DURATIONS`.
pub record Duration : Type 0 where
  pub fixed_ms : ℕ
  pub random_ms : ℕ

abbrev pub backoff_durations : List Duration
backoff_durations =
    record { fixed_ms = 0; random_ms = 0 }
    ∷ record { fixed_ms = 800; random_ms = 400 }
    ∷ record { fixed_ms = 4500; random_ms = 1000 }
    ∷ []

-- `{ count, last }` of a bad resource.
pub record BadResource : Type 0 where
  pub count : ℕ
  pub last : ℕ

-- `heard` is what the listener was told, if there is one.
pub record Endpoint : Type 0 where
  pub state : EndpointState
  pub next_backoff : ℕ
  pub bad_resources : List (ℕ × BadResource)
  pub has_listener : Bool
  pub heard : List EndpointState

abbrev pub same_state : EndpointState → EndpointState → Bool
same_state healthy healthy = true
same_state unreachable unreachable = true
same_state broken broken = true
same_state shutdown shutdown = true
same_state _ _ = false

-- `new BackoffEndpoint(name, listener)`.
unfoldable pub create_endpoint : Bool → Endpoint
create_endpoint has_listener = record {
  state = healthy;
  next_backoff = 0;
  bad_resources = [];
  has_listener = has_listener;
  heard = [];
}

-- `_setState`.
unfoldable pub set_state : EndpointState → Endpoint → Endpoint
set_state new_state e = if same_state e.state new_state then e else record e {
  state = new_state;
  heard = if e.has_listener then e.heard ++ new_state ∷ [] else e.heard;
}

unfoldable pub note_connect_success : Endpoint → Endpoint
note_connect_success e = record (set_state healthy e) { next_backoff = 0 }

-- `noteConnectFailureMaybeRetry`: whether to try again, and the endpoint.
unfoldable pub note_connect_failure_maybe_retry : Bool → Endpoint → Bool × Endpoint
note_connect_failure_maybe_retry reachable e =
    if same_state e.state shutdown
    then (false, e)
    else if reachable
    then (false, set_state broken e)
    else (
      ltb e.next_backoff (length backoff_durations),
      if ltb 0 e.next_backoff then set_state unreachable e else e,
    )

unfoldable pub note_broken_connection : Endpoint → Endpoint
note_broken_connection e = record (set_state broken e) { next_backoff = length backoff_durations }

-- What `scheduleConnectAttempt` does with the function that it is given.
pub data Attempt : Type 0 where
  ignored at_once : Attempt
  after_ms : ℕ → Attempt

-- `random n` stands for `Math.floor(Math.random() * n)`. Beyond the table there is no duration.
module _ (random : ℕ → ℕ) where
  unfoldable pub schedule_connect_attempt : Endpoint → Attempt × Endpoint
  schedule_connect_attempt e =
      if same_state e.state shutdown
      then (ignored, e)
      else elim (get_elem? backoff_durations e.next_backoff) [
        | none ↦ (at_once, e)
        | some backoff ↦ (
          after_ms (backoff.fixed_ms + random backoff.random_ms),
          record e { next_backoff = e.next_backoff + 1 },
        )
      ]

unfoldable pub note_bad_resource : ℕ → ℕ → Endpoint → Endpoint
note_bad_resource now resource_id e = elim (get resource_id e.bad_resources) [
  | none ↦ record e {
    bad_resources = put resource_id (record { count = 1; last = now }) e.bad_resources;
  }
  | some info ↦ record e {
    bad_resources = put resource_id (record { count = info.count + 1; last = now }) e.bad_resources;
  }
]

-- `resourceIsOkayToUse`: for a resource that was noted as bad the function ends without a `return`,
-- and its result is undefined: `none`.
unfoldable pub resource_is_okay_to_use : ℕ → Endpoint → Option Bool
resource_is_okay_to_use resource_id e = elim (get resource_id e.bad_resources) [
  | none ↦ some true
  | some info ↦ none
]

unfoldable pub shut_down : Endpoint → Endpoint
shut_down e = set_state shutdown e
