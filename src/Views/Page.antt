-- ===== src/Views/Page.antt =====
-- src/clientapi/windowed_list_view.js: the page's side of a window.
use gaia_email_libs_and_more.Common.{
  ℕ, Option, none, some, List, [], ◌∷◌, ◌++◌, get, put, erase, for_each,
}
use gaia_email_libs_and_more.Toc.{Entry, overlays_only, whole}
use gaia_email_libs_and_more.Views.{Update}

-- An item of the page; `state` is `none` for one that was made of null.
pub record Item : Type 0 where
  pub state : Option ℕ
  pub overlays : ℕ

pub record View : Type 0 where
  pub items : List (Option ℕ)
  pub items_by_id : List (ℕ × Item)
  pub offset : Option ℕ
  pub total_count : ℕ

abbrev pub create_view : View
create_view = record { items = []; items_by_id = []; offset = none; total_count = 0 }

-- `new this._itemConstructor(...)`, and `obj.__update` with `obj.__updateOverlays`.
unfoldable pub construct : Entry → Item
construct (overlays_only overlays) = record { state = none; overlays = overlays }
construct (whole item overlays match_info) = record { state = some item; overlays = overlays }

unfoldable pub refresh : Entry → Item → Item
refresh (overlays_only overlays) o = record o { overlays = overlays }
refresh (whole item overlays match_info) o = record { state = some item; overlays = overlays }

-- The variables of the loop of `__update`: the items known before, the new map and the new list.
pub record Walk : Type 0 where
  pub existing : List (ℕ × Item)
  pub new_set : List (ℕ × Item)
  pub new_items : List (Option ℕ)

unfoldable pub update_step : List (ℕ × Entry) → Walk → ℕ → Walk
update_step new_states w id = elim (get id w.existing) [
  | some o ↦ record {
    existing = erase id w.existing;
    new_set = put id (elim (get id new_states) [ none ↦ o | some e ↦ refresh e o ]) w.new_set;
    new_items = w.new_items ++ some id ∷ [];
  }
  | none ↦ elim (get id new_states) [
    | some e ↦ record w {
      new_set = put id (construct e) w.new_set;
      new_items = w.new_items ++ some id ∷ [];
    }
    | none ↦ record w { new_items = w.new_items ++ none ∷ [] }
  ]
]

-- `__update`. In the list of items an item stands as its id.
unfoldable pub update_view : Update → View → View
update_view u v =
    let w : Walk =
      for_each (update_step u.values)
        (record { existing = v.items_by_id; new_set = []; new_items = [] }) u.ids in
    record {
      items = w.new_items;
      items_by_id = w.new_set;
      offset = u.offset;
      total_count = u.total_count;
    }
