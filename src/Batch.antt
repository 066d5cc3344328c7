-- ===== src/Batch.antt =====
-- src/backend/bridge/batch_manager.js: when the changes of the views are sent to the page.
pub mod Scheduled
mod Tests
use gaia_email_libs_and_more.Common.{
  ℕ, zero, suc, ◌+◌, ◌-◌, Bool, true, false, not, ◌==◌, if◌then◌else◌, Option, none, some, List, [],
  ◌∷◌, ◌++◌, has, add, delete, for_each,
}

-- `_timer`: null, `true` for a promise, or the handle of a timer, which is not 0.
pub data Timer : Type 0 where
  unset promised : Timer
  handle : ℕ → Timer

pub data FlushMode : Type 0 where
  regular soon immediate : FlushMode

-- `timers` are the timers that are outstanding, and `promises` the number of resolved promises whose
-- function has not run. `sent` are the messages with the proxy of each.
pub record Batch : Type 0 where
  pub pending_proxies : List ℕ
  pub timer : Timer
  pub timers : List ℕ
  pub promises : ℕ
  pub next_handle : ℕ
  pub sent : List (ℕ × ℕ)

abbrev pub create_batch : Batch
create_batch = record {
  pending_proxies = [];
  timer = unset;
  timers = [];
  promises = 0;
  next_handle = 1;
  sent = [];
}

-- `clearTimeout`: what is no handle of a timer is passed over.
unfoldable pub clear_timeout : Timer → List ℕ → List ℕ
clear_timeout unset timers = timers
clear_timeout promised timers = timers
clear_timeout (handle h) timers = delete h timers

-- `payload` is what `proxy.flush()` gives.
module _ (payload : ℕ → Option ℕ) where
  -- The body of the loop of `_flushPending`.
  unfoldable pub send_one : List (ℕ × ℕ) → ℕ → List (ℕ × ℕ)
  send_one sent proxy = elim (payload proxy) [
    | none ↦ sent
    | some update ↦ sent ++ (proxy, update) ∷ []
  ]

  -- `_flushPending`.
  unfoldable pub flush_pending : Bool → Batch → Batch
  flush_pending timer_fired b = record b {
    timers = if not timer_fired then clear_timeout b.timer b.timers else b.timers;
    timer = unset;
    sent = for_each send_one b.sent b.pending_proxies;
    pending_proxies = [];
  }

  abbrev is_promised : Timer → Bool
  is_promised promised = true
  is_promised unset = false
  is_promised (handle h) = false

  abbrev is_unset : Timer → Bool
  is_unset unset = true
  is_unset promised = false
  is_unset (handle h) = false

  -- The conditionals of `registerDirtyView`.
  unfoldable pub schedule : FlushMode → Batch → Batch
  schedule immediate b = flush_pending false b
  schedule soon b = if is_promised b.timer then b else record b {
    timers = clear_timeout b.timer b.timers;
    promises = b.promises + 1;
    timer = promised;
  }
  schedule regular b =
      if is_unset b.timer
      then record b {
        timer = handle b.next_handle;
        timers = b.timers ++ b.next_handle ∷ [];
        next_handle = b.next_handle + 1;
      }
      else b

  -- `registerDirtyView`.
  unfoldable pub register_dirty_view : ℕ → FlushMode → Batch → Batch
  register_dirty_view proxy mode b =
      schedule mode (record b { pending_proxies = add proxy b.pending_proxies })

  -- A timer fires, and the function of a promise runs.
  unfoldable pub timer_fired : ℕ → Batch → Batch
  timer_fired h b =
      if has h b.timers then flush_pending true (record b { timers = delete h b.timers }) else b

  unfoldable pub promise_runs : Batch → Batch
  promise_runs b = elim b.promises [
    | zero ↦ b
    | suc n ↦ flush_pending false (record b { promises = n })
  ]
