-- ===== src/Views/Session.antt =====
-- Sessions: changes of what is stored, of the overlays and of the list, seeks and flushes, in any order.
use gaia_email_libs_and_more.Common.{
  ℕ, ◌≡◌, Bool, true, false, Option, none, some, List, ◌==◌, if◌then◌else◌, IsUnique, map,
}
use gaia_email_libs_and_more.Toc.{compare_keys, Key}
use gaia_email_libs_and_more.Bsearch.Order.{IsSorted}
use gaia_email_libs_and_more.Views.{
  Proxy, Request, bogus, seek, changed_id, reordered, on_change, on_overlay_push,
  on_toc_meta_change, on_broadcast_event, flush,
}
use gaia_email_libs_and_more.Views.Page.{View, update_view}
use gaia_email_libs_and_more.Views.Current.{IsCurrent, IsCoherent}
use gaia_email_libs_and_more.Views.Bounds.{can_flush}

abbrev pub ids_of : List Key → List ℕ
ids_of = map (λ k. k.id)

-- The stored items, the overlays, the table of contents, its proxy and the page's view.
pub record Session : Type 0 where
  pub db : ℕ → ℕ
  pub resolve : ℕ → ℕ
  pub list : List Key
  pub proxy : Proxy
  pub view : View

abbrev pub set_at : ℕ → ℕ → (ℕ → ℕ) → ℕ → ℕ
set_at id x f j = if id == j then x else f j

-- An item is stored and the table says so, with or without a change of the order; an overlay is pushed;
-- the list changes; the meta data changes; an event is broadcast; the page seeks; a flush is done, with
-- what is in the cache, and the page takes it.
pub data Happening : Type 0 where
  stored : (id item : ℕ) → Bool → Happening
  overlaid : (id overlays : ℕ) → Happening
  listed : List Key → Happening
  meta_changed : Happening
  broadcast : ℕ → Happening
  page_seeks : Key → Request → Happening
  flushed : (ℕ → Option ℕ) → Happening

unfoldable pub happen : Happening → Session → Option Session
happen (stored id item data_only) s =
    some (record s {
      db = set_at id item s.db;
      proxy = (on_change (changed_id id) data_only s.proxy).0;
    })
happen (overlaid id overlays) s =
    some
      (record s { resolve = set_at id overlays s.resolve; proxy = (on_overlay_push id s.proxy).0 })
happen (listed l) s = some (record s { list = l; proxy = (on_change reordered false s.proxy).0 })
happen meta_changed s = some (record s { proxy = (on_toc_meta_change s.proxy).0 })
happen (broadcast event) s = some (record s { proxy = (on_broadcast_event event s.proxy).0 })
happen (page_seeks top_key request) s = elim (seek top_key s.list request s.proxy) [
  | none ↦ none
  | some (p, mode) ↦ some (record s { proxy = p })
]
happen (flushed cached) s = elim (flush s.resolve cached s.list s.proxy) [
  | none ↦ none
  | some (p, u, reads) ↦ some (record s { proxy = p; view = update_view u s.view })
]

abbrev pub is_bogus : Request → Bool
is_bogus bogus = true
is_bogus r = false

-- A list is sorted and has each id once, a seek is of a mode that exists, and a cache has nothing but what is stored.
abbrev pub IsSound : Happening → Session → Type 0
IsSound (stored id item data_only) s = Unit
IsSound (overlaid id overlays) s = Unit
IsSound (listed l) s = IsUnique (ids_of l) × IsSorted compare_keys l
IsSound meta_changed s = Unit
IsSound (broadcast event) s = Unit
IsSound (page_seeks top_key request) s = is_bogus request ≡ false
IsSound (flushed cached) s = IsCoherent s.db cached

-- The page is current, the list has each id once and is sorted, and a focused proxy has a key.
pub record IsUpToDate (s : Session) : Type 0 where
  pub current : IsCurrent s.db s.resolve s.proxy s.view
  pub unique : IsUnique (ids_of s.list)
  pub sorted : IsSorted compare_keys s.list
  pub keyed : can_flush s.proxy ≡ true
