-- ===== src/Views/Current.antt =====
-- The page's items are what the back end has, for all ids that the proxy takes for valid.
use gaia_email_libs_and_more.Common.{
  ℕ, ◌≡◌, refl, Bool, true, false, not, ◌&&◌, ◌||◌, Option, none, some, List, ◌==◌, get, has,
  length, IsUnique, arith, min, pos, Option-cases, Bool-cases, inl, inr,
}
use gaia_email_libs_and_more.Toc.{
  Key, Entry, overlays_only, whole, Slice, slice_ids, get_data_for_slice_range,
}
use gaia_email_libs_and_more.Toc.Window.{
  is_some, is_known, carries, get_data_for_slice_range-members, get_data_for_slice_range-carries,
}
use gaia_email_libs_and_more.Views.{Proxy, create_proxy, Indices, Update, slice_from, flush_range}
use gaia_email_libs_and_more.Views.Page.{Item, View, create_view, construct, refresh, update_view}
use gaia_email_libs_and_more.Views.Shown.{shown, update_view-shown}

-- Whether an item of the page has the state given.
abbrev pub has_state : ℕ → Option Item → Bool
has_state d none = false
has_state d (some o) = elim o.state [ none ↦ false | some s ↦ s == d ]

abbrev pub has_overlays : ℕ → Option Item → Bool
has_overlays r none = false
has_overlays r (some o) = o.overlays == r

-- `db` is what is stored of each id, `resolve` its overlays.
pub record IsCurrent (db resolve : ℕ → ℕ) (p : Proxy) (v : View) : Type 0 where
  pub states :
      (id : ℕ) → has id p.valid_data_set ≡ true → has_state (db id) (get id v.items_by_id) ≡ true
  pub overlays :
      (id : ℕ)
      → has id p.valid_overlay_set ≡ true
      → has_overlays (resolve id) (get id v.items_by_id) ≡ true

pub create_view-IsCurrent : (db resolve : ℕ → ℕ) → IsCurrent db resolve create_proxy create_view
unfolding has
create_view-IsCurrent db resolve = record { states = λ id h. cc; overlays = λ id h. cc }

-- The cache has nothing but what is stored.
abbrev pub IsCoherent : (ℕ → ℕ) → (ℕ → Option ℕ) → Type 0
IsCoherent db cached = (id item : ℕ) → cached id ≡ some item → item ≡ db id

carried :
    (d r : ℕ) (o : Option Item) (e : Option Entry)
    → carries d r e ≡ true
    → (has_state d (shown o e) && has_overlays r (shown o e)) ≡ true
unfolding construct refresh
carried d r o none h = cc
carried d r o (some (overlays_only x)) h = cc
carried d r none (some (whole item x m)) h = ground arith
carried d r (some o) (some (whole item x m)) h = ground arith

kept : (o : Option Item) (e : Option Entry) → is_some e ≡ false → shown o e ≡ o
kept none none h = refl
kept (some o) none h = refl
kept o (some e) h = cc

module _ (db resolve : ℕ → ℕ) (cached : ℕ → Option ℕ) (coherent : IsCoherent db cached) where
  -- The ids of which the page has the data and the overlays, or no data while the cache has it.
  abbrev pub is_ready : Proxy → ℕ → Bool
  is_ready p id =
      is_known resolve cached p.valid_data_set p.valid_overlay_set id
      || not (has id p.valid_data_set) && is_some (cached id)

  module _ (begin end : ℕ) (l : List Key) (p : Proxy) (v : View) where
    abbrev the_slice : Slice
    the_slice =
        get_data_for_slice_range resolve cached p.valid_data_set p.valid_overlay_set (pos begin)
          (pos end) l

    in_window :
        (id : ℕ)
        → has id the_slice.ids ≡ true
        → has id (slice_ids begin (min end (length l)) l) ≡ true
    in_window id inside =
        rw
          (get_data_for_slice_range-members resolve cached p.valid_data_set p.valid_overlay_set
            (pos begin) (pos end) l id).0
          at inside

    unsent :
        (id : ℕ)
        → has id p.valid_data_set ≡ true
        → is_ready p id ≡ true
        → is_some (get id the_slice.send_state) ≡ false
    unsent id valid ready =
        let facts =
          get_data_for_slice_range-members resolve cached p.valid_data_set p.valid_overlay_set
            (pos begin) (pos end) l id in
        ground (arith, valid, ready, facts.2)

    valid_ready :
        (id : ℕ)
        → has id the_slice.new_known_set ≡ true
        → (has id the_slice.ids && is_ready p id) ≡ true
    valid_ready id h =
        let facts =
          get_data_for_slice_range-members resolve cached p.valid_data_set p.valid_overlay_set
            (pos begin) (pos end) l id in
        rw facts.0 (ground (arith, h, facts.1))

    -- A ready id of the window is shown with its data and its overlays.
    shown_ready :
        (id : ℕ)
        → IsCurrent db resolve p v
        → has id the_slice.ids ≡ true
        → is_ready p id ≡ true
        → (has_state (db id) (shown (get id v.items_by_id) (get id the_slice.send_state))
            && has_overlays
                (resolve id)
                (shown (get id v.items_by_id) (get id the_slice.send_state)))
          ≡ true
    shown_ready id i inside ready = elim (Bool-cases (has id p.valid_data_set)) [
      | inl valid ↦
          rw (kept (get id v.items_by_id) (get id the_slice.send_state) (unsent id valid ready))
            (ground (arith, valid, ready, i.states id, i.overlays id))
      | inr invalid ↦ elim (Option-cases (cached id)) [
        | inl absent ↦ absurd (ground (arith, invalid, absent, ready))
        | inr (item, present) ↦
            carried (db id) (resolve id) (get id v.items_by_id) (get id the_slice.send_state) (
              ground (
                arith,
                coherent id item present,
                in_window id inside,
                get_data_for_slice_range-carries resolve cached p.valid_data_set p.valid_overlay_set
                    (pos begin) (pos end) l id item present invalid,
              ))
      ]
    ]

  abbrev slice_of : Option ℕ → ℕ → List Key → Proxy → Slice
  slice_of begin end l p =
      slice_from resolve cached begin end p.valid_data_set p.valid_overlay_set l

  slice_shows :
      (begin : Option ℕ) (end : ℕ) (l : List Key) (p : Proxy) (v : View) (id : ℕ)
      → IsCurrent db resolve p v
      → has id (slice_of begin end l p).ids ≡ true
      → is_ready p id ≡ true
      → (has_state
            (db id)
            (shown (get id v.items_by_id) (get id (slice_of begin end l p).send_state))
          && has_overlays
              (resolve id)
              (shown (get id v.items_by_id) (get id (slice_of begin end l p).send_state)))
        ≡ true
  unfolding slice_from has
  slice_shows none end l p v id i inside ready = cc
  slice_shows (some begin) end l p v id i inside ready =
      shown_ready begin end l p v id i inside ready

  slice_valid :
      (begin : Option ℕ) (end : ℕ) (l : List Key) (p : Proxy) (v : View) (id : ℕ)
      → has id (slice_of begin end l p).new_known_set ≡ true
      → (has id (slice_of begin end l p).ids && is_ready p id) ≡ true
  unfolding slice_from has
  slice_valid none end l p v id h = cc
  slice_valid (some begin) end l p v id h = valid_ready begin end l p v id h

  module _ (x : Indices) (l : List Key) (p : Proxy) (v : View) where
    abbrev sent : Update
    sent = (flush_range resolve cached x l p).1

    -- When the page was current and the window has each id once, the page then shows the stored data and
    -- the overlays of every id of the window that was valid with its overlays, or whose data was not
    -- valid and is in the cache. Nothing is said of an id with valid data and other overlays.
    pub flush_range-shows :
        (id : ℕ)
        → IsCurrent db resolve p v
        → IsUnique sent.ids
        → has id sent.ids ≡ true
        → is_ready p id ≡ true
        → (has_state (db id) (get id (update_view sent v).items_by_id)
            && has_overlays (resolve id) (get id (update_view sent v).items_by_id))
          ≡ true
    unfolding flush_range
    flush_range-shows id i unique inside ready =
        rw (update_view-shown id sent v unique, inside)
          (slice_shows x.begin_buffered_inclusive x.end_buffered_exclusive l p v id i inside ready)

    pub flush_range-IsCurrent :
        IsCurrent db resolve p v
        → IsUnique sent.ids
        → IsCurrent db resolve (flush_range resolve cached x l p).0 (update_view sent v)
    unfolding flush_range
    flush_range-IsCurrent i unique = record {
      states = λ id h. ground (
        arith,
        slice_valid x.begin_buffered_inclusive x.end_buffered_exclusive l p v id h,
        flush_range-shows id i unique,
      );
      overlays = λ id h. ground (
        arith,
        slice_valid x.begin_buffered_inclusive x.end_buffered_exclusive l p v id h,
        flush_range-shows id i unique,
      );
    }
