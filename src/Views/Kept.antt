-- ===== src/Views/Kept.antt =====
-- Each happening leaves the page up to date.
use gaia_email_libs_and_more.Common.{
  ℕ, zero, suc, ◌-◌, ◌≡◌, refl, sym, ◌∙◌, Bool, true, false, Option, none, some, List, [], ◌∷◌, has,
  delete, has-delete, length, IsUnique, arith, min, pos, take, drop,
}
use mathlib.Core.Path.{subst}
use gaia_email_libs_and_more.Batch.{FlushMode}
use gaia_email_libs_and_more.Toc.{Key, slice_ids}
use gaia_email_libs_and_more.Toc.Window.{get_data_for_slice_range-members}
use gaia_email_libs_and_more.Views.{
  Proxy, Request, to_top, to_bottom, to_focus, to_focus_index, to_coordinates, bogus, seek, dirtied,
  changed_id, on_change, on_overlay_push, on_toc_meta_change, on_broadcast_event, Indices,
  slice_from, flush_range, flush,
}
use gaia_email_libs_and_more.Views.Page.{View, update_view}
use gaia_email_libs_and_more.Views.Current.{IsCurrent, IsCoherent, flush_range-IsCurrent}
use gaia_email_libs_and_more.Views.Bounds.{can_flush, ordering_key-some, indices-some}
use gaia_email_libs_and_more.Views.Session.{
  ids_of, Session, set_at, Happening, stored, overlaid, listed, meta_changed, broadcast, page_seeks,
  flushed, happen, is_bogus, IsSound, IsUpToDate,
}

-- Dirtying leaves the valid ids alone.
dirtied-valid :
    (p : Proxy)
    → ((dirtied p).0.valid_data_set ≡ p.valid_data_set)
      × ((dirtied p).0.valid_overlay_set ≡ p.valid_overlay_set)
      × (can_flush (dirtied p).0 ≡ can_flush p)
unfolding dirtied
dirtied-valid p = ground arith

-- A proxy that takes no more ids for valid is as current.
fewer-IsCurrent :
    (db resolve : ℕ → ℕ) (p q : Proxy) (v : View)
    → IsCurrent db resolve p v
    → q.valid_data_set ≡ p.valid_data_set
    → q.valid_overlay_set ≡ p.valid_overlay_set
    → IsCurrent db resolve q v
fewer-IsCurrent db resolve p q v i e f = record {
  states = λ id h. i.states id (ground (arith, e, h));
  overlays = λ id h. i.overlays id (ground (arith, f, h));
}

stored-IsCurrent :
    (id item : ℕ) (data_only : Bool) (s : Session)
    → IsCurrent s.db s.resolve s.proxy s.view
    → IsCurrent
        (set_at id item s.db)
        s.resolve
        (on_change (changed_id id) data_only s.proxy).0
        s.view
unfolding on_change
stored-IsCurrent id item data_only s i = record {
  states = λ j h. ground (
    arith,
    h,
    dirtied-valid (record s.proxy { valid_data_set = delete id s.proxy.valid_data_set }),
    has-delete j id s.proxy.valid_data_set,
    i.states j,
  );
  overlays = λ j h. ground (
    arith,
    h,
    dirtied-valid (record s.proxy { valid_data_set = delete id s.proxy.valid_data_set }),
    i.overlays j,
  );
}

overlaid-IsCurrent :
    (id x : ℕ) (s : Session)
    → IsCurrent s.db s.resolve s.proxy s.view
    → IsCurrent s.db (set_at id x s.resolve) (on_overlay_push id s.proxy).0 s.view
unfolding on_overlay_push
overlaid-IsCurrent id x s i = record {
  states = λ j h. ground (
    arith,
    h,
    dirtied-valid (record s.proxy { valid_overlay_set = delete id s.proxy.valid_overlay_set }),
    i.states j,
  );
  overlays = λ j h. ground (
    arith,
    h,
    dirtied-valid (record s.proxy { valid_overlay_set = delete id s.proxy.valid_overlay_set }),
    has-delete j id s.proxy.valid_overlay_set,
    i.overlays j,
  );
}

-- A seek of a mode that exists leaves the valid ids alone, and a focused proxy has a key.
seek-valid :
    (top_key : Key) (l : List Key) (r : Request) (p : Proxy)
    → is_bogus r ≡ false
    → (q : Proxy) × (mode : FlushMode) × (seek top_key l r p ≡ some (q, mode))
      × (q.valid_data_set ≡ p.valid_data_set)
      × (q.valid_overlay_set ≡ p.valid_overlay_set)
      × (can_flush q ≡ true)
unfolding seek
seek-valid top_key l (to_top a b) p h = (_, _, refl, refl, refl, refl)
seek-valid top_key l (to_bottom a b) p h = (_, _, refl, refl, refl, refl)
seek-valid top_key l (to_focus k a b c d) p h = (_, _, refl, refl, refl, refl)
seek-valid top_key l (to_focus_index x a b c d) p h =
    (_, _, refl, refl, refl, ordering_key-some top_key x l)
seek-valid top_key l (to_coordinates x a b c) p h =
    (_, _, refl, refl, refl, ordering_key-some top_key x l)
seek-valid top_key l bogus p h = cc

has-take : (x n : ℕ) (l : List Key) → has x (ids_of l) ≡ false → has x (ids_of (take n l)) ≡ false
unfolding has
has-take x zero l h = refl
has-take x (suc n) [] h = refl
has-take x (suc n) (k ∷ l) h = ground (arith, has-take x n l)

take-IsUnique : (n : ℕ) (l : List Key) → IsUnique (ids_of l) → IsUnique (ids_of (take n l))
take-IsUnique zero l u = tt
take-IsUnique (suc n) [] u = tt
take-IsUnique (suc n) (k ∷ l) u = (has-take k.id n l u.0, take-IsUnique n l u.1)

drop-IsUnique : (n : ℕ) (l : List Key) → IsUnique (ids_of l) → IsUnique (ids_of (drop n l))
drop-IsUnique zero l u = u
drop-IsUnique (suc n) [] u = tt
drop-IsUnique (suc n) (k ∷ l) u = drop-IsUnique n l u.1

slice_from-IsUnique :
    (resolve : ℕ → ℕ) (cached : ℕ → Option ℕ) (begin : Option ℕ) (end : ℕ) (known overlays : List ℕ)
    (l : List Key)
    → IsUnique (ids_of l)
    → IsUnique (slice_from resolve cached begin end known overlays l).ids
unfolding slice_from slice_ids
slice_from-IsUnique resolve cached none end known overlays l u = tt
slice_from-IsUnique resolve cached (some begin) end known overlays l u =
    subst IsUnique
      (sym
        (get_data_for_slice_range-members resolve cached known overlays (pos begin) (pos end) l
          0).0)
      (take-IsUnique (min end (length l) - begin) (drop begin l) (drop-IsUnique begin l u))

abbrev after_flush : (ℕ → Option ℕ) → Indices → Session → Session
after_flush cached x s = record s {
  proxy = (flush_range s.resolve cached x s.list s.proxy).0;
  view = update_view (flush_range s.resolve cached x s.list s.proxy).1 s.view;
}

flushed-IsUpToDate :
    (cached : ℕ → Option ℕ) (s : Session)
    → IsUpToDate s
    → IsCoherent s.db cached
    → (t : Session) × (happen (flushed cached) s ≡ some t) × IsUpToDate t
unfolding happen flush
flushed-IsUpToDate cached s u c =
    let (x, f) = indices-some s.list s.proxy u.sorted u.keyed in
    (
      after_flush cached x s,
      rw (happen, flush, f) refl,
      record {
        current = flush_range-IsCurrent s.db s.resolve cached c x s.list s.proxy s.view u.current (
            unfold flush_range in
            slice_from-IsUnique s.resolve cached x.begin_buffered_inclusive x.end_buffered_exclusive
              s.proxy.valid_data_set s.proxy.valid_overlay_set s.list u.unique);
        unique = u.unique;
        sorted = u.sorted;
        keyed = unfold flush_range in u.keyed;
      },
    )

change-keyed :
    (id : ℕ) (data_only : Bool) (p : Proxy)
    → can_flush p ≡ true
    → can_flush (on_change (changed_id id) data_only p).0 ≡ true
unfolding on_change
change-keyed id data_only p h =
    ground (arith, h, dirtied-valid (record p { valid_data_set = delete id p.valid_data_set }))

overlay-keyed :
    (id : ℕ) (p : Proxy) → can_flush p ≡ true → can_flush (on_overlay_push id p).0 ≡ true
unfolding on_overlay_push
overlay-keyed id p h =
    ground
      (arith, h, dirtied-valid (record p { valid_overlay_set = delete id p.valid_overlay_set }))

-- Each sound happening succeeds and leaves the page up to date.
pub happen-IsUpToDate :
    (h : Happening) (s : Session)
    → IsUpToDate s
    → IsSound h s
    → (t : Session) × (happen h s ≡ some t) × IsUpToDate t
unfolding happen on_change on_toc_meta_change on_broadcast_event
happen-IsUpToDate (stored id item data_only) s u k = (
  _,
  refl,
  record {
    current = stored-IsCurrent id item data_only s u.current;
    unique = u.unique;
    sorted = u.sorted;
    keyed = change-keyed id data_only s.proxy u.keyed;
  },
)
happen-IsUpToDate (overlaid id overlays) s u k = (
  _,
  refl,
  record {
    current = overlaid-IsCurrent id overlays s u.current;
    unique = u.unique;
    sorted = u.sorted;
    keyed = overlay-keyed id s.proxy u.keyed;
  },
)
happen-IsUpToDate (listed l) s u k =
    let (same, same_overlays, same_key) = dirtied-valid s.proxy in
    (
      _,
      refl,
      record {
        current =
            fewer-IsCurrent s.db s.resolve s.proxy (dirtied s.proxy).0 s.view u.current same
              same_overlays;
        unique = k.0;
        sorted = k.1;
        keyed = same_key ∙ u.keyed;
      },
    )
happen-IsUpToDate meta_changed s u k =
    let (same, same_overlays, same_key) = dirtied-valid (record s.proxy { dirty_meta = true }) in
    (
      _,
      refl,
      record {
        current = fewer-IsCurrent s.db s.resolve s.proxy _ s.view u.current same same_overlays;
        unique = u.unique;
        sorted = u.sorted;
        keyed = same_key ∙ u.keyed;
      },
    )
happen-IsUpToDate (broadcast event) s u k = (
  _,
  refl,
  record {
    current = fewer-IsCurrent s.db s.resolve s.proxy _ s.view u.current refl refl;
    unique = u.unique;
    sorted = u.sorted;
    keyed = u.keyed;
  },
)
happen-IsUpToDate (page_seeks top_key request) s u k =
    let (q, mode, e, same, same_overlays, keyed) = seek-valid top_key s.list request s.proxy k in
    (
      record s { proxy = q },
      rw (happen, e) refl,
      record {
        current = fewer-IsCurrent s.db s.resolve s.proxy q s.view u.current same same_overlays;
        unique = u.unique;
        sorted = u.sorted;
        keyed = keyed;
      },
    )
happen-IsUpToDate (flushed cached) s u k = flushed-IsUpToDate cached s u k
