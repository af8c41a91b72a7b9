-- ===== src/Palette/Keys.antt =====
-- frontend/src/components/command/command-palette.tsx: the selection by keys.
use enterprise_crm.Common.{
  ◌≡◌, refl, ℕ, zero, suc, ◌+◌, ◌-◌, ◌<◌, min, true, List, [], ◌∷◌, length, is_some, arith,
}
use enterprise_crm.Palette.{
  Palette, PaletteItem, selected_index, arrow_down, arrow_up, item_at, enter_item,
}

item_at-is_some :
    (n : ℕ) (items : List PaletteItem) → n < length items → is_some (item_at n items) ≡ true
unfolding item_at
item_at-is_some n [] h = absurd (omega arith)
item_at-is_some zero (item ∷ items) h = refl
item_at-is_some (suc n) (item ∷ items) h = item_at-is_some n items (omega arith)

enter_some :
    (items : List PaletteItem) (palette : Palette)
    → is_some (item_at (selected_index items palette) items) ≡ true
    → is_some (enter_item items palette) ≡ true
unfolding enter_item
enter_some items palette h = ground arith

-- While the palette offers something, one item is selected, whatever has happened to the list, and
-- Enter opens its page. The arrows move the selection by one, and stay at the ends of the list; the
-- arrow up does if the selection is not of the last item for want of further ones.
pub keys-select :
    (items : List PaletteItem) (palette : Palette)
    → 0 < length items
    → (selected_index items palette < length items)
      × (is_some (enter_item items palette) ≡ true)
      × (selected_index items (arrow_down items palette)
          ≡ min (selected_index items palette + 1) (length items - 1))
      × (selected_index items (arrow_up palette)
          ≡ min (palette.active_index - 1) (length items - 1))
unfolding selected_index arrow_down arrow_up
keys-select items palette h = (
  omega arith,
  enter_some items palette (item_at-is_some (selected_index items palette) items (omega arith)),
  omega arith,
  omega arith,
)
