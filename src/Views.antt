-- ===== src/Views.antt =====
-- src/backend/bridge/windowed_list_proxy.js: the window of a list that the back end keeps for the page.
-- The table of contents is that of a conversation's messages, `Toc`. The page's side is `Views.Page`.
pub mod Shown
pub mod Current
pub mod Bounds
pub mod Session
pub mod Kept
pub mod Runs
pub mod Page
mod Tests
use gaia_email_libs_and_more.Common.{
  ℕ, zero, suc, ◌+◌, ◌-◌, ◌≡◌, Bool, true, false, not, ◌&&◌, Option, none, some, List, [], ◌∷◌,
  ◌++◌, ◌==◌, if◌then◌else◌, get, put, erase, has, add, delete, for_each, length, max, min, ℤ, pos,
}
use gaia_email_libs_and_more.Batch.{FlushMode, regular, soon, immediate}
use gaia_email_libs_and_more.Toc.{
  Key, Entry, overlays_only, whole, Slice, no_slice, get_ordering_key_for_index,
  find_index_for_ordering_key, get_data_for_slice_range,
}

-- `mode`: undefined, or one of the modes that a table without heights is sought in.
pub data Mode : Type 0 where
  unsought top bottom focus : Mode

-- The proxy. Meta data is not modelled but for its dirtiness; events are opaque.
pub record Proxy : Type 0 where
  pub dirty : Bool
  pub dirty_meta : Bool
  pub valid_data_set : List ℕ
  pub pending_broadcast_events : List ℕ
  pub valid_overlay_set : List ℕ
  pub mode : Mode
  pub focus_key : Option Key
  pub buffer_above : ℕ
  pub visible_above : ℕ
  pub visible_below : ℕ
  pub buffer_below : ℕ

abbrev pub create_proxy : Proxy
create_proxy = record {
  dirty = false;
  dirty_meta = true;
  valid_data_set = [];
  pending_broadcast_events = [];
  valid_overlay_set = [];
  mode = unsought;
  focus_key = none;
  buffer_above = 0;
  visible_above = 0;
  visible_below = 0;
  buffer_below = 0;
}

-- The request of `seek`; `bogus` is any other mode.
pub data Request : Type 0 where
  to_top : (visible_desired buffer_desired : ℕ) → Request
  to_bottom : (visible_desired buffer_desired : ℕ) → Request
  to_focus : (focus_key : Key) (buffer_above visible_above visible_below buffer_below : ℕ) → Request
  to_focus_index : (index : ℤ) (buffer_above visible_above visible_below buffer_below : ℕ) → Request
  to_coordinates : (offset : ℤ) (before visible after : ℕ) → Request
  bogus : Request

abbrev pub sought : Mode → Option Key → ℕ → ℕ → ℕ → ℕ → Proxy → Proxy
sought mode key ba va vb bb p = record p {
  dirty = true;
  mode = mode;
  focus_key = key;
  buffer_above = ba;
  visible_above = va;
  visible_below = vb;
  buffer_below = bb;
}

-- `seek`, which also registers the proxy for an immediate flush. `none` is the exception. `top_key` is
-- what `getTopOrderingKey` gives.
unfoldable pub seek : Key → List Key → Request → Proxy → Option (Proxy × FlushMode)
seek top_key l (to_top visible buffer) p = some (sought top none 0 0 visible buffer p, immediate)
seek top_key l (to_bottom visible buffer) p =
    some (sought bottom none buffer visible 0 0 p, immediate)
seek top_key l (to_focus key ba va vb bb) p =
    some (sought focus (some key) ba va vb bb p, immediate)
seek top_key l (to_focus_index index ba va vb bb) p =
    some (sought focus (get_ordering_key_for_index top_key index l) ba va vb bb p, immediate)
seek top_key l (to_coordinates offset before visible after) p =
    some (
      sought focus (get_ordering_key_for_index top_key offset l) before 0 visible after p,
      immediate,
    )
seek top_key l bogus p = none

-- The tail of the handlers: an already dirty proxy is not registered again.
unfoldable pub dirtied : Proxy → Proxy × Option FlushMode
dirtied p = if p.dirty then (p, none) else (record p { dirty = true }, some regular)

-- The first argument of `onChange`: an id, null, or true.
pub data Changed : Type 0 where
  changed_id : ℕ → Changed
  reordered all_changed : Changed

unfoldable pub on_change : Changed → Bool → Proxy → Proxy × Option FlushMode
on_change all_changed data_only p = dirtied (record p { valid_data_set = [] })
on_change reordered data_only p = dirtied p
on_change (changed_id id) data_only p =
    if not (has id p.valid_data_set) && data_only
    then (p, none)
    else dirtied (record p { valid_data_set = delete id p.valid_data_set })

unfoldable pub on_overlay_push : ℕ → Proxy → Proxy × Option FlushMode
on_overlay_push id p =
    if not (has id p.valid_overlay_set)
    then (p, none)
    else dirtied (record p { valid_overlay_set = delete id p.valid_overlay_set })

unfoldable pub on_toc_meta_change : Proxy → Proxy × Option FlushMode
on_toc_meta_change p = dirtied (record p { dirty_meta = true })

unfoldable pub on_broadcast_event : ℕ → Proxy → Proxy × Option FlushMode
on_broadcast_event event p = (
  record p { pending_broadcast_events = p.pending_broadcast_events ++ event ∷ []; dirty = true },
  some soon,
)

-- The indices that `flush` computes; `none` is NaN or undefined.
pub record Indices : Type 0 where
  pub begin_buffered_inclusive : Option ℕ
  pub begin_visible_inclusive : ℕ
  pub end_visible_exclusive : ℕ
  pub end_buffered_exclusive : ℕ

abbrev pub no_indices : Indices
no_indices = record {
  begin_buffered_inclusive = none;
  begin_visible_inclusive = 0;
  end_visible_exclusive = 0;
  end_buffered_exclusive = 0;
}

-- `n` is the length of the table.
abbrev pub top_indices : ℕ → Proxy → Indices
top_indices n p =
    let end_visible = min n (p.visible_below + 1) in
    record {
      begin_buffered_inclusive = some 0;
      begin_visible_inclusive = 0;
      end_visible_exclusive = end_visible;
      end_buffered_exclusive = min n (end_visible + p.buffer_below);
    }

-- `this.bufferedAbove` is read, which no code sets: the subtraction gives NaN, and so does `Math.max`.
abbrev pub bottom_indices : ℕ → Proxy → Indices
bottom_indices n p = record {
  begin_buffered_inclusive = none;
  begin_visible_inclusive = n - p.visible_above;
  end_visible_exclusive = n;
  end_buffered_exclusive = n;
}

abbrev pub focus_indices : ℕ → ℕ → Proxy → Indices
focus_indices focus_index n p =
    let begin_visible = focus_index - p.visible_above in
    let end_visible = min n (focus_index + p.visible_below + 1) in
    record {
      begin_buffered_inclusive = some (begin_visible - p.buffer_above);
      begin_visible_inclusive = begin_visible;
      end_visible_exclusive = end_visible;
      end_buffered_exclusive = min n (end_visible + p.buffer_below);
    }

-- `none` is a search without a key or one that has not ended.
unfoldable pub indices : List Key → Proxy → Option Indices
indices l p = elim p.mode [
  | unsought ↦ some no_indices
  | top ↦ some (top_indices (length l) p)
  | bottom ↦ some (bottom_indices (length l) p)
  | focus ↦ elim p.focus_key [
    | none ↦ none
    | some key ↦ elim (find_index_for_ordering_key key l) [
      | none ↦ none
      | some focus_index ↦ some (focus_indices focus_index (length l) p)
    ]
  ]
]

-- What `flush` sends, but for the heights, which are those of a list of equal items.
pub record Update : Type 0 where
  pub offset : Option ℕ
  pub total_count : ℕ
  pub has_toc_meta : Bool
  pub ids : List ℕ
  pub values : List (ℕ × Entry)
  pub events : List ℕ

-- `resolve` gives the overlays of an id, `cached` looks it up in the message cache.
module _ (resolve : ℕ → ℕ) (cached : ℕ → Option ℕ) where
  -- The loop of `getDataForSliceRange` from NaN on is over at once.
  unfoldable pub slice_from : Option ℕ → ℕ → List ℕ → List ℕ → List Key → Slice
  slice_from none end known overlays l = no_slice
  slice_from (some begin) end known overlays l =
      get_data_for_slice_range resolve cached known overlays (pos begin) (pos end) l

  -- `flush`, with whether a read is issued at whose end the proxy is registered again. A table of a
  -- conversation has no `flush` of its own.
  unfoldable pub flush_range : Indices → List Key → Proxy → Proxy × Update × Bool
  flush_range i l p =
      let s : Slice =
        slice_from i.begin_buffered_inclusive i.end_buffered_exclusive p.valid_data_set
          p.valid_overlay_set l in
      let p' : Proxy = record p {
        dirty = false;
        valid_data_set = s.new_known_set;
        valid_overlay_set = s.new_known_set;
        dirty_meta = false;
        pending_broadcast_events = [];
      } in
      let u : Update = record {
        offset = i.begin_buffered_inclusive;
        total_count = length l;
        has_toc_meta = p.dirty_meta;
        ids = s.ids;
        values = s.send_state;
        events = p.pending_broadcast_events;
      } in
      (p', u, not (length s.need_data == 0))

  unfoldable pub flush : List Key → Proxy → Option (Proxy × Update × Bool)
  flush l p = elim (indices l p) [ none ↦ none | some i ↦ some (flush_range i l p) ]
