-- ===== src/FolderToc/Offsets.antt =====
-- From an offset to the conversation that covers it.
use gaia_email_libs_and_more.Common.{
  ℕ, suc, ◌+◌, ◌≤◌, ◌<◌, ◌≡◌, some, List, [], ◌∷◌, get_elem?, ltb, arith, Bool-cases, inl, inr,
}
use gaia_email_libs_and_more.FolderToc.{Sized}
use gaia_email_libs_and_more.FolderToc.Heights.{
  OffsetInfo, info_from, get_info_for_offset, get_height_offset_for_index,
}

-- The height of the whole list.
unfoldable pub height_sum : List Sized → ℕ
height_sum [] = 0
height_sum (k ∷ l) = k.height + height_sum l

-- The info is of the entry at an index that covers the offset.
abbrev pub IsCover : List Sized → ℕ → ℕ → OffsetInfo → Type 0
IsCover l start desired info =
    (i : ℕ) × (get_elem? l i ≡ some info.ordering_key)
    × (info.offset ≡ start + get_height_offset_for_index i l)
    × (info.cumulative_height ≡ start + get_height_offset_for_index (suc i) l)
    × (info.offset ≤ desired)
    × (desired < info.cumulative_height)

info_from-IsCover :
    (l : List Sized) (start desired : ℕ) (last : Sized)
    → start ≤ desired
    → desired < start + height_sum l
    → IsCover l start desired (info_from desired start last l)
unfolding info_from height_sum get_height_offset_for_index
info_from-IsCover [] start desired last low high = absurd (omega (arith, low, high))
info_from-IsCover (k ∷ l) start desired last low high =
    elim (Bool-cases (ltb desired (start + k.height))) [
      | inl here ↦ (
        0,
        ground (arith, here),
        ground (arith, here),
        ground (arith, here),
        ground (arith, here, low),
        ground (arith, here),
      )
      | inr on ↦
          let (i, e, begins, ends, below, above) =
            info_from-IsCover l (start + k.height) desired k (ground (arith, on))
              (omega (arith, high)) in
          (
            suc i,
            ground (arith, on, e),
            ground (arith, on, begins),
            ground (arith, on, ends),
            ground (arith, on, below),
            ground (arith, on, above),
          )
    ]

-- For an offset within the heights of the list: the key is that of the entry that covers the offset,
-- between where it starts, which is the height of the entries before it, and where it ends.
pub get_info_for_offset-IsCover :
    (top_key : Sized) (desired : ℕ) (l : List Sized)
    → desired < height_sum l
    → IsCover l 0 desired (get_info_for_offset top_key desired l)
get_info_for_offset-IsCover top_key desired l high =
    info_from-IsCover l 0 desired top_key (omega arith) (omega (arith, high))
