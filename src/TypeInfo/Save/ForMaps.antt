-- ===== src/TypeInfo/Save/ForMaps.antt =====
-- The loop that finds elements by address visits them in order.
use tssdgo.Prelude.{List, ℕ, ◌+◌, ◌≡◌, refl, sym, ap, Option, some, arith}
use mathlib.Core.Path.{fun_ext}
use tssdgo.Wire.{Result, ◌>>=◌}
use tssdgo.Buffer.{Buffer}
use tssdgo.TypeInfo.{
  TypeInfo, element_index, Value, Items, no_items, item, item_count, append_items,
}
use tssdgo.TypeInfo.Lists.{item_at-append, append_items_one, item_count-append}
use tssdgo.TypeInfo.Typed.{FindsElements}
use tssdgo.TypeInfo.Save.{element, save_items, map_save_items, save}

-- Where each element is found at its own offset, the loop by address visits them in order.
pub save_items-in_order :
    (one : Value → Buffer → Result Buffer) (at : ℕ → Option ℕ) (us vs : Items) (b : Buffer)
    → ((i : ℕ) → at i ≡ some i)
    → save_items one at (item_count vs) (item_count us) (append_items us vs) b
      ≡ map_save_items one vs b
unfolding save_items map_save_items
save_items-in_order one at us no_items b found = refl
save_items-in_order one at us (item v vs) b found =
    let next = append_items us (item v no_items) in
    let count : item_count us + 1 ≡ item_count next =
      omega (arith, item_count-append us (item v no_items)) in
    rw (found, item_at-append us v vs, element, count, append_items_one us v vs)
      (bind_same (one v b) (λ b'. save_items-in_order one at next vs b' found))
  where
    bind_same :
        (r : Result Buffer) {f g : Buffer → Result Buffer}
        → ((b' : Buffer) → f b' ≡ g b')
        → (r >>= f) ≡ (r >>= g)
    bind_same r h = ap (λ k. r >>= k) (fun_ext h)

module _ (format : ℕ → List ℕ) where
  pub visits :
      (t : TypeInfo) (vs : Items)
      → FindsElements t
      → map_save_items (save format t) vs
        ≡ save_items (save format t) (element_index t) (item_count vs) 0 vs
  visits t vs found =
      fun_ext λ b. sym (save_items-in_order (save format t) (element_index t) no_items vs b found)
