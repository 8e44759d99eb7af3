-- ===== src/TypeInfo/Lists.antt =====
-- The lists of values inside a value.
use tssdgo.Prelude.{◌+◌, ◌≡◌, refl, ap, some, arith}
use tssdgo.TypeInfo.{Value, Items, no_items, item, item_count, append_items, item_at, set_item}

pub item_at-append :
    (us : Items) (v : Value) (vs : Items)
    → item_at (append_items us (item v vs)) (item_count us) ≡ some v
item_at-append no_items v vs = refl
item_at-append (item u us) v vs = item_at-append us v vs

pub append_items_one :
    (us : Items) (v : Value) (vs : Items)
    → append_items us (item v vs) ≡ append_items (append_items us (item v no_items)) vs
append_items_one no_items v vs = refl
append_items_one (item u us) v vs = ap (λ t. item u t) (append_items_one us v vs)

pub item_count-append :
    (us vs : Items) → item_count (append_items us vs) ≡ item_count us + item_count vs
item_count-append no_items vs = omega arith
item_count-append (item u us) vs = omega (arith, item_count-append us vs)

pub set_item-append :
    (us : Items) (v w : Value) (vs : Items)
    → set_item (append_items us (item v vs)) (item_count us) w ≡ append_items us (item w vs)
set_item-append no_items v w vs = refl
set_item-append (item u us) v w vs = ap (λ t. item u t) (set_item-append us v w vs)

pub append_items_none : (us : Items) → append_items us no_items ≡ us
append_items_none no_items = refl
append_items_none (item u us) = ap (λ t. item u t) (append_items_none us)
