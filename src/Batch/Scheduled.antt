-- ===== src/Batch/Scheduled.antt =====
-- Whatever is pending will be flushed.
use gaia_email_libs_and_more.Common.{
  ℕ, zero, suc, ◌<◌, ◌≡◌, ◌≢◌, refl, true, false, Option, List, [], ◌∷◌, has, add, delete, for_each,
  arith, Bool-cases, inl, inr, ◌⊎◌,
}
use gaia_email_libs_and_more.Batch.{
  Timer, unset, promised, handle, FlushMode, regular, soon, immediate, Batch, create_batch,
  clear_timeout, flush_pending, schedule, register_dirty_view, timer_fired, promise_runs,
}

-- What can happen.
pub data Event : Type 0 where
  dirty : ℕ → FlushMode → Event
  fires : ℕ → Event
  runs cache_drops : Event

abbrev pub timers_of : Timer → List ℕ
timers_of unset = []
timers_of promised = []
timers_of (handle h) = h ∷ []

-- What the timer stands for is outstanding, and no other timer is; and as long as something is
-- pending there is a timer or a promise.
abbrev pub IsOutstanding : Timer → ℕ → List ℕ → Type 0
IsOutstanding unset promises pending = pending ≡ []
IsOutstanding promised promises pending = 0 < promises
IsOutstanding (handle h) promises pending = Unit

pub record IsScheduled (b : Batch) : Type 0 where
  pub only_timer : b.timers ≡ timers_of b.timer
  pub outstanding : IsOutstanding b.timer b.promises b.pending_proxies

delete-timers_of :
    (h : ℕ) (timer : Timer) → has h (timers_of timer) ≡ true → delete h (timers_of timer) ≡ []
unfolding delete has
delete-timers_of h unset e = refl
delete-timers_of h promised e = refl
delete-timers_of h (handle x) e = ground arith

module _ (payload : ℕ → Option ℕ) where
  unfoldable pub happen : Batch → Event → Batch
  happen b (dirty proxy mode) = register_dirty_view payload proxy mode b
  happen b (fires h) = timer_fired payload h b
  happen b runs = promise_runs payload b
  happen b cache_drops = flush_pending payload false b

  abbrev of_fields : Timer → (pending timers : List ℕ) (promises next : ℕ) → List (ℕ × ℕ) → Batch
  of_fields t pending ts n next sent = record {
    pending_proxies = pending;
    timer = t;
    timers = ts;
    promises = n;
    next_handle = next;
    sent = sent;
  }

  flushed_lem :
      (timer : Timer) (pending timers : List ℕ) (promises next : ℕ) (sent : List (ℕ × ℕ))
      → timers ≡ timers_of timer
      → IsScheduled
          (flush_pending payload false (of_fields timer pending timers promises next sent))
  unfolding flush_pending clear_timeout delete
  flushed_lem unset pending timers promises next sent e = record {
    only_timer = e;
    outstanding = refl;
  }
  flushed_lem promised pending timers promises next sent e = record {
    only_timer = e;
    outstanding = refl;
  }
  flushed_lem (handle h) pending timers promises next sent e = record {
    only_timer = rw e (ground arith);
    outstanding = refl;
  }

  schedule_lem :
      (mode : FlushMode) (timer : Timer) (pending before timers : List ℕ) (promises next : ℕ)
      (sent : List (ℕ × ℕ))
      → timers ≡ timers_of timer
      → IsOutstanding timer promises before
      → IsScheduled (schedule payload mode (of_fields timer pending timers promises next sent))
  unfolding schedule clear_timeout delete
  schedule_lem immediate timer pending before timers promises next sent e o =
      flushed_lem timer pending timers promises next sent e
  schedule_lem soon unset pending before timers promises next sent e o = record {
    only_timer = e;
    outstanding = omega arith;
  }
  schedule_lem soon promised pending before timers promises next sent e o = record {
    only_timer = e;
    outstanding = o;
  }
  schedule_lem soon (handle h) pending before timers promises next sent e o = record {
    only_timer = rw e (ground arith);
    outstanding = omega arith;
  }
  schedule_lem regular unset pending before timers promises next sent e o = record {
    only_timer = rw e refl;
    outstanding = tt;
  }
  schedule_lem regular promised pending before timers promises next sent e o = record {
    only_timer = e;
    outstanding = o;
  }
  schedule_lem regular (handle h) pending before timers promises next sent e o = record {
    only_timer = e;
    outstanding = tt;
  }

  fired_lem :
      (h : ℕ) (timer : Timer) (pending timers : List ℕ) (promises next : ℕ) (sent : List (ℕ × ℕ))
      → timers ≡ timers_of timer
      → IsOutstanding timer promises pending
      → IsScheduled (timer_fired payload h (of_fields timer pending timers promises next sent))
  unfolding timer_fired flush_pending delete has
  fired_lem h timer pending timers promises next sent e o = elim (Bool-cases (has h timers)) [
    | inl there ↦ rw there (record {
      only_timer = rw e (delete-timers_of h timer (rw e at there));
      outstanding = refl;
    })
    | inr idle ↦ rw idle (record { only_timer = e; outstanding = o })
  ]

  promise_runs-IsScheduled : (b : Batch) → IsScheduled b → IsScheduled (promise_runs payload b)
  unfolding promise_runs
  promise_runs-IsScheduled b h = promise_lem b.promises refl
    where
      promise_lem :
          (n : ℕ)
          → b.promises ≡ n
          → IsScheduled (elim n [
            | zero ↦ b
            | suc n ↦ flush_pending payload false (record b { promises = n })
          ])
      promise_lem zero e = h
      promise_lem (suc n) e =
          flushed_lem b.timer b.pending_proxies b.timers n b.next_handle b.sent h.only_timer

  happen-IsScheduled : (e : Event) (b : Batch) → IsScheduled b → IsScheduled (happen b e)
  unfolding happen register_dirty_view
  happen-IsScheduled (dirty proxy mode) b h =
      schedule_lem mode b.timer (add proxy b.pending_proxies) b.pending_proxies b.timers b.promises
        b.next_handle b.sent h.only_timer h.outstanding
  happen-IsScheduled (fires x) b h =
      fired_lem x b.timer b.pending_proxies b.timers b.promises b.next_handle b.sent h.only_timer
        h.outstanding
  happen-IsScheduled runs b h = promise_runs-IsScheduled b h
  happen-IsScheduled cache_drops b h =
      flushed_lem b.timer b.pending_proxies b.timers b.promises b.next_handle b.sent h.only_timer

  run_from-IsScheduled :
      (events : List Event) (b : Batch) → IsScheduled b → IsScheduled (for_each happen b events)
  unfolding for_each
  run_from-IsScheduled [] b h = h
  run_from-IsScheduled (e ∷ events) b h =
      run_from-IsScheduled events (happen b e) (happen-IsScheduled e b h)

  -- A timer is outstanding whose firing sends all that is pending, or such a promise is.
  abbrev pub WillFlush : Batch → Type 0
  WillFlush b =
      ((h : ℕ) × (has h b.timers ≡ true) × ((timer_fired payload h b).pending_proxies ≡ []))
      ⊎ ((0 < b.promises) × ((promise_runs payload b).pending_proxies ≡ []))

  will_flush_lem :
      (timer : Timer) (b : Batch)
      → b.timer ≡ timer
      → IsScheduled b
      → b.pending_proxies ≢ []
      → WillFlush b
  unfolding timer_fired promise_runs flush_pending has
  will_flush_lem unset b is h full = absurd (full (rw is at h.outstanding))
  will_flush_lem promised b is h full =
      let some_promise : 0 < b.promises = rw is at h.outstanding in
      inr (some_promise, ground (arith, some_promise))
  will_flush_lem (handle x) b is h full =
      let there : has x b.timers ≡ true = rw (h.only_timer, is) (ground arith) in
      inl (x, there, rw there refl)

  -- Whatever views become dirty, timers fire, promises run and caches are dropped from the start: a
  -- timer or a promise is outstanding that will flush what is pending, if anything is; and no timer
  -- is outstanding but the one that the manager knows of.
  pub run-WillFlush :
      (events : List Event)
      → ((for_each happen create_batch events).pending_proxies ≢ []
          → WillFlush (for_each happen create_batch events))
        × ((for_each happen create_batch events).timers
            ≡ timers_of (for_each happen create_batch events).timer)
  run-WillFlush events =
      let start : IsScheduled create_batch = record { only_timer = refl; outstanding = refl } in
      let h = run_from-IsScheduled events create_batch start in
      (will_flush_lem (for_each happen create_batch events).timer _ refl h, h.only_timer)
