-- ===== src/Views/Tests.antt =====
-- Runs of a proxy and its view, and the theorems at concrete inputs.
use gaia_email_libs_and_more.Common.{
  ℕ, zero, suc, ◌≡◌, refl, true, ◌&&◌, Option, none, some, List, [], ◌∷◌, get, put, erase, has, add,
  delete, for_each, arith, ◌+◌, ◌==◌, if◌then◌else◌,
}
use gaia_email_libs_and_more.Bsearch.{probe, bsearch_for_insert}
use gaia_email_libs_and_more.Bsearch.Order.{IsSorted}
use gaia_email_libs_and_more.Comparators.{conversation_message_comparator}
use gaia_email_libs_and_more.Toc.{
  Key, compare_keys, get_ordering_key_for_index, find_index_for_ordering_key, slice_step,
  get_data_for_slice_range,
}
use gaia_email_libs_and_more.Views.{
  top, Proxy, create_proxy, to_top, sought, seek, dirtied, on_change, on_overlay_push, Indices,
  top_indices, indices, slice_from, flush_range, flush,
}
use gaia_email_libs_and_more.Views.Page.{
  Item, create_view, construct, refresh, update_step, update_view,
}
use gaia_email_libs_and_more.Views.Current.{
  has_state, has_overlays, IsCurrent, create_view-IsCurrent, flush_range-shows,
}
use gaia_email_libs_and_more.Views.Bounds.{IsWindow, indices-IsWindow}
use gaia_email_libs_and_more.Views.Session.{
  Session, Happening, stored, page_seeks, flushed, happen, IsUpToDate,
}
use gaia_email_libs_and_more.Views.Runs.{happen_all, IsSoundRun, happen_all-IsUpToDate}

program : Unit {0}
unfolding probe bsearch_for_insert conversation_message_comparator compare_keys
    get_ordering_key_for_index find_index_for_ordering_key slice_step get_data_for_slice_range seek
    dirtied on_change on_overlay_push indices slice_from flush_range flush construct refresh
    update_step update_view happen happen_all get put erase has add delete for_each
program = tt

abbrev key : ℕ → ℕ → Key
key date id = record { date = date; id = id; match_info = none }

abbrev messages : List Key
messages = key 30 3 ∷ key 20 2 ∷ []

messages-IsSorted : IsSorted compare_keys messages
unfolding compare_keys conversation_message_comparator
messages-IsSorted zero zero x y p e f = absurd (omega arith)
messages-IsSorted zero (suc zero) x y p e f = ground arith
messages-IsSorted (suc i) zero x y p e f = absurd (omega arith)
messages-IsSorted (suc i) (suc zero) x y p e f = absurd (omega arith)
messages-IsSorted i (suc (suc j)) x y p e f = cc

-- Item i is stored as 100 + i.
abbrev db : ℕ → ℕ
db id = 100 + id

abbrev cached : ℕ → Option ℕ
cached id = some (100 + id)

abbrev begun : Session
begun = record {
  db = db;
  resolve = λ id. 7;
  list = messages;
  proxy = create_proxy;
  view = create_view;
}

begun-IsUpToDate : IsUpToDate begun
unfolding has
begun-IsUpToDate = record {
  current = create_view-IsCurrent db (λ id. 7);
  unique = (refl, (refl, tt));
  sorted = messages-IsSorted;
  keyed = refl;
}

-- The page seeks to the top, is told, item 3 is changed, and the page is told again.
abbrev news : List Happening
news =
    page_seeks (key 99 0) (to_top 1 0)
    ∷ flushed cached
    ∷ stored 3 55 true
    ∷ flushed (λ id. if id == 3 then some 55 else some (100 + id))
    ∷ []

items_of : Option Session → List (ℕ × Item)
items_of none = []
items_of (some s) = s.view.items_by_id

told :
    items_of (happen_all news begun)
    ≡ (3, record { state = some 55; overlays = 7 })
      ∷ (2, record { state = some 102; overlays = 7 })
      ∷ []
unfolding program items_of
told = refl

news_sound : IsSoundRun news begun
unfolding program
news_sound = (refl, (λ id item e. ground (arith, e), (tt, (λ id item e. ground (arith, e), tt))))

happen_all-IsUpToDate_example : (t : Session) × (happen_all news begun ≡ some t) × IsUpToDate t
happen_all-IsUpToDate_example = happen_all-IsUpToDate news begun begun-IsUpToDate news_sound

-- The proxy behind the seek.
abbrev at_top : Proxy
at_top = sought top none 0 0 1 0 create_proxy

at_top-IsCurrent : IsCurrent db (λ id. 7) at_top create_view
unfolding has
at_top-IsCurrent = record { states = λ id h. cc; overlays = λ id h. cc }

flush_range-shows_example :
    (has_state (db 3) (
        get 3
          (update_view
            (flush_range (λ id. 7) cached (top_indices 2 at_top) messages at_top).1
            create_view).items_by_id)
      && has_overlays 7 (
          get 3
            (update_view
              (flush_range (λ id. 7) cached (top_indices 2 at_top) messages at_top).1
              create_view).items_by_id))
    ≡ true
unfolding program
flush_range-shows_example =
    flush_range-shows db (λ id. 7) cached (λ id item e. ground (arith, e)) (top_indices 2 at_top)
      messages at_top create_view 3 at_top-IsCurrent (refl, (refl, tt)) refl refl

indices-IsWindow_example : (x : Indices) × (indices messages at_top ≡ some x) × IsWindow 2 x
indices-IsWindow_example = indices-IsWindow messages at_top messages-IsSorted refl
