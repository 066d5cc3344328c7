-- ===== src/Toc/Window.antt =====
-- `getDataForSliceRange`: what is told, what is sent and what is read for a window of the list.
use gaia_email_libs_and_more.Common.{
  ℕ, ◌≡◌, sym, ap, Bool, true, false, not, ◌&&◌, ◌||◌, ◌==◌, Option, none, some, List, [], ◌∷◌,
  ◌++◌, map, append_assoc, append-nil, length, has, get, has-add, get-put, for_each, ℤ, pos_part,
  min, arith, Option-cases, inl, inr,
}
use gaia_email_libs_and_more.Toc.{
  Key, Entry, Slice, overlays_only, whole, no_slice, slice, slice_ids, slice_step,
  get_data_for_slice_range,
}

abbrev pub is_some {ℓ} : {A : Type ℓ} → Option A → Bool
is_some none = false
is_some (some x) = true

abbrev pub ids_of : List Key → List ℕ
ids_of = map (λ k. k.id)

has-snoc :
    (y : ℕ) (e : ℕ × ℕ) (l : List (ℕ × ℕ))
    → has y (map (λ p. p.0) (l ++ e ∷ [])) ≡ (has y (map (λ p. p.0) l) || e.0 == y)
unfolding has
has-snoc y e [] = ground arith
has-snoc y e (p ∷ l) = ground (arith, has-snoc y e l)

-- Whether what is sent is the data and the overlays given.
abbrev pub carries : ℕ → ℕ → Option Entry → Bool
carries d r none = false
carries d r (some (overlays_only overlays)) = false
carries d r (some (whole item overlays match_info)) = item == d && overlays == r

module _ (resolve : ℕ → ℕ) (cached : ℕ → Option ℕ) (known_data known_overlays : List ℕ) where
  -- The view has the data and the overlays already.
  abbrev pub is_known : ℕ → Bool
  is_known y = has y known_data && has y known_overlays

  -- The data has to be read from the database.
  abbrev pub is_missing : ℕ → Bool
  is_missing y = not (has y known_data) && not (is_some (cached y))

  walk : Slice → List Key → Slice
  walk = for_each (slice_step resolve cached known_data known_overlays)

  ids-walk : (l : List Key) (s : Slice) → (walk s l).ids ≡ s.ids ++ ids_of l
  unfolding walk for_each slice_step
  ids-walk [] s = sym (append-nil s.ids)
  ids-walk (k ∷ l) s = ground (
    arith,
    ids-walk l (slice_step resolve cached known_data known_overlays s k),
    append_assoc s.ids (k.id ∷ []) (ids_of l),
  )

  known-walk :
      (y : ℕ) (l : List Key) (s : Slice)
      → has y (walk s l).new_known_set ≡ (
          has y s.new_known_set
          || has y (ids_of l) && (is_known y || not (has y known_data) && is_some (cached y)))
  unfolding walk for_each slice_step has
  known-walk y [] s = ground arith
  known-walk y (k ∷ l) s = ground (
    arith,
    known-walk y l (slice_step resolve cached known_data known_overlays s k),
    has-add y k.id s.new_known_set,
  )

  need-walk :
      (y : ℕ) (l : List Key) (s : Slice)
      → has y (map (λ e. e.0) (walk s l).need_data)
        ≡ (has y (map (λ e. e.0) s.need_data) || has y (ids_of l) && is_missing y)
  unfolding walk for_each slice_step has
  need-walk y [] s = ground arith
  need-walk y (k ∷ l) s = ground (
    arith,
    need-walk y l (slice_step resolve cached known_data known_overlays s k),
    has-snoc y (k.id, k.date) s.need_data,
  )

  sent-step :
      (y : ℕ) (k : Key) (s : Slice)
      → is_some (get y (slice_step resolve cached known_data known_overlays s k).send_state)
        ≡ (is_some (get y s.send_state) || k.id == y && not (is_known y) && not (is_missing y))
  unfolding slice_step
  sent-step y k s = elim (Option-cases (cached k.id)) [
    | inl absent ↦
        ground (arith, absent, get-put y k.id (overlays_only (resolve k.id)) s.send_state)
    | inr (item, present) ↦ ground (
      arith,
      present,
      get-put y k.id (overlays_only (resolve k.id)) s.send_state,
      get-put y k.id (whole item (resolve k.id) k.match_info) s.send_state,
    )
  ]

  sent-walk :
      (y : ℕ) (l : List Key) (s : Slice)
      → is_some (get y (walk s l).send_state) ≡ (
          is_some (get y s.send_state)
          || has y (ids_of l) && not (is_known y) && not (is_missing y))
  unfolding walk for_each has
  sent-walk y [] s = ground arith
  sent-walk y (k ∷ l) s = ground (
    arith,
    sent-walk y l (slice_step resolve cached known_data known_overlays s k),
    sent-step y k s,
  )

  sent_whole-walk :
      (y item : ℕ) (l : List Key) (s : Slice)
      → cached y ≡ some item
      → has y known_data ≡ false
      → carries item (resolve y) (get y (walk s l).send_state)
        ≡ (carries item (resolve y) (get y s.send_state) || has y (ids_of l))
  unfolding walk for_each slice_step has
  sent_whole-walk y item [] s c n = ground arith
  sent_whole-walk y item (k ∷ l) s c n = elim (Option-cases (cached k.id)) [
    | inl absent ↦ ground (
      arith,
      absent,
      c,
      sent_whole-walk y item l (slice_step resolve cached known_data known_overlays s k) c n,
      get-put y k.id (overlays_only (resolve k.id)) s.send_state,
      ap cached,
    )
    | inr (other, present) ↦ ground (
      arith,
      present,
      c,
      sent_whole-walk y item l (slice_step resolve cached known_data known_overlays s k) c n,
      get-put y k.id (overlays_only (resolve k.id)) s.send_state,
      get-put y k.id (whole other (resolve k.id) k.match_info) s.send_state,
    )
  ]

  module _ (begin end : ℤ) (l : List Key) where
    window : List Key
    window = slice (pos_part begin) (min (pos_part end) (length l)) l

    -- The slice names the ids of the window in order. Of these ids, exactly those that the view
    -- has with their overlays, or that the cache can provide anew, are valid afterwards; exactly
    -- those that are neither known whole nor to be read are sent; and exactly those that the view
    -- has not and the cache has not are read.
    pub get_data_for_slice_range-members :
        (y : ℕ)
        → ((get_data_for_slice_range resolve cached known_data known_overlays begin end l).ids
            ≡ slice_ids (pos_part begin) (min (pos_part end) (length l)) l)
          × (has y
                (get_data_for_slice_range resolve cached known_data known_overlays begin end
                  l).new_known_set
              ≡ (has y (slice_ids (pos_part begin) (min (pos_part end) (length l)) l)
                  && (is_known y || not (has y known_data) && is_some (cached y))))
          × (is_some (
                get y
                  (get_data_for_slice_range resolve cached known_data known_overlays begin end
                    l).send_state)
              ≡ (has y (slice_ids (pos_part begin) (min (pos_part end) (length l)) l)
                  && not (is_known y)
                  && not (is_missing y)))
          × (has y (
                map
                  (λ e. e.0)
                  (get_data_for_slice_range resolve cached known_data known_overlays begin end
                    l).need_data)
              ≡ (has y (slice_ids (pos_part begin) (min (pos_part end) (length l)) l)
                  && is_missing y))
    unfolding get_data_for_slice_range slice_ids walk window has get
    get_data_for_slice_range-members y = (
      ids-walk window no_slice,
      known-walk y window no_slice,
      sent-walk y window no_slice,
      need-walk y window no_slice,
    )

    -- Of an id that the view has not and the cache has, the data and the overlays are sent exactly if
    -- it is in the window.
    pub get_data_for_slice_range-carries :
        (y item : ℕ)
        → cached y ≡ some item
        → has y known_data ≡ false
        → carries item (resolve y) (
            get y
              (get_data_for_slice_range resolve cached known_data known_overlays begin end
                l).send_state)
          ≡ has y (slice_ids (pos_part begin) (min (pos_part end) (length l)) l)
    unfolding get_data_for_slice_range slice_ids walk window has get
    get_data_for_slice_range-carries y item c n = sent_whole-walk y item window no_slice c n

    -- An id in the window of which the view has the data and not the overlays is sent its
    -- overlays, and is dropped from the set of valid ids all the same.
    pub get_data_for_slice_range-forgets :
        (y : ℕ)
        → has y (slice_ids (pos_part begin) (min (pos_part end) (length l)) l) ≡ true
        → has y known_data ≡ true
        → has y known_overlays ≡ false
        → (is_some (
              get y
                (get_data_for_slice_range resolve cached known_data known_overlays begin end
                  l).send_state)
            ≡ true)
          × (has y
                (get_data_for_slice_range resolve cached known_data known_overlays begin end
                  l).new_known_set
              ≡ false)
    get_data_for_slice_range-forgets y inside with_data no_overlays =
        ground (arith, get_data_for_slice_range-members y)
