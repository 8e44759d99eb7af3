-- ===== src/TypeInfo/Shaped.antt =====
-- What Go's type checker guarantees of the value in a destination, and of what lies behind the
-- length of a slice: that it is of the type, with nothing about the bytes it would be saved as.
use tssdgo.Prelude.{ℕ, zero, suc, ◌*◌, ◌≡◌, refl, ap, some, List, length, length-replicate}
use mathlib.Core.Path.{subst}
use tssdgo.TypeInfo.{
  TypeInfo, simple, str, time, pointer, object, array, slice, merge_array, merge_slice, dict, Infos,
  no_infos, info, Value, bytes, text, instant, nil_pointer, pointee, fields, elements, nil_slice,
  items, raw, nil_map, entries, Items, no_items, item, Entries, no_entries, pair, item_count,
  item_at, set_item, append_items, take_items, drop_items, repeat_item,
}
use tssdgo.TypeInfo.Dump.{zero_value, zero_fields}

mutual
  pub data Shaped : TypeInfo → Value → Type 0 where
    of_simple : {t n : ℕ} {bs : List ℕ} → length bs ≡ n → Shaped (simple t n) (bytes bs)
    of_str : {s : List ℕ} → Shaped str (text s)
    of_time : {t : ℕ} → Shaped time (instant t)
    of_nil_pointer : {t : TypeInfo} → Shaped (pointer t) nil_pointer
    of_pointee : {t : TypeInfo} {v : Value} → Shaped t v → Shaped (pointer t) (pointee v)
    of_object : {ts : Infos} {vs : Items} → ShapedFields ts vs → Shaped (object ts) (fields vs)
    of_array :
        {n e : ℕ} {t : TypeInfo} {vs : Items}
        → item_count vs ≡ n
        → ShapedItems t vs
        → Shaped (array n e t) (elements vs)
    of_nil_slice : {t : TypeInfo} → Shaped (slice t) nil_slice
    of_slice :
        {t : TypeInfo} {vs spare : Items}
        → ShapedItems t vs
        → ShapedItems t spare
        → Shaped (slice t) (items vs spare)
    of_merge_array :
        {n t e : ℕ} {bs : List ℕ} → length bs ≡ e * n → Shaped (merge_array n t e) (bytes bs)
    of_nil_merge_slice : {t e : ℕ} → Shaped (merge_slice t e) nil_slice
    of_merge_slice :
        {n t e : ℕ} {bs spare : List ℕ}
        → length bs ≡ n * e
        → Shaped (merge_slice t e) (raw n bs spare)
    of_nil_map : {k v : TypeInfo} → Shaped (dict k v) nil_map
    of_map : {k v : TypeInfo} {es : Entries} → ShapedEntries k v es → Shaped (dict k v) (entries es)

  pub data ShapedFields : Infos → Items → Type 0 where
    of_no_fields : ShapedFields no_infos no_items
    of_field :
        {t : TypeInfo} {ts : Infos} {v : Value} {vs : Items}
        → Shaped t v
        → ShapedFields ts vs
        → ShapedFields (info t ts) (item v vs)

  pub data ShapedItems : TypeInfo → Items → Type 0 where
    of_no_items : {t : TypeInfo} → ShapedItems t no_items
    of_item :
        {t : TypeInfo} {v : Value} {vs : Items}
        → Shaped t v
        → ShapedItems t vs
        → ShapedItems t (item v vs)

  pub data ShapedEntries : TypeInfo → TypeInfo → Entries → Type 0 where
    of_no_entries : {k v : TypeInfo} → ShapedEntries k v no_entries
    of_entry :
        {k v : TypeInfo} {x y : Value} {es : Entries}
        → Shaped k x
        → Shaped v y
        → ShapedEntries k v es
        → ShapedEntries k v (pair x y es)

pub repeat_item-Shaped :
    (t : TypeInfo) (v : Value) (n : ℕ) → Shaped t v → ShapedItems t (repeat_item n v)
repeat_item-Shaped t v zero h = of_no_items
repeat_item-Shaped t v (suc n) h = of_item h (repeat_item-Shaped t v n h)

pub item_count-repeat : (n : ℕ) (v : Value) → item_count (repeat_item n v) ≡ n
item_count-repeat zero v = refl
item_count-repeat (suc n) v = ap (λ k. suc k) (item_count-repeat n v)

pub append_items-Shaped :
    (t : TypeInfo) (us vs : Items)
    → ShapedItems t us
    → ShapedItems t vs
    → ShapedItems t (append_items us vs)
append_items-Shaped t no_items vs of_no_items k = k
append_items-Shaped t (item u us) vs (of_item h hs) k = of_item h (append_items-Shaped t us vs hs k)

pub take_items-Shaped :
    (t : TypeInfo) (n : ℕ) (vs : Items) → ShapedItems t vs → ShapedItems t (take_items n vs)
take_items-Shaped t zero vs h = of_no_items
take_items-Shaped t (suc n) no_items h = of_no_items
take_items-Shaped t (suc n) (item v vs) (of_item h hs) = of_item h (take_items-Shaped t n vs hs)

pub drop_items-Shaped :
    (t : TypeInfo) (n : ℕ) (vs : Items) → ShapedItems t vs → ShapedItems t (drop_items n vs)
drop_items-Shaped t zero vs h = h
drop_items-Shaped t (suc n) no_items h = h
drop_items-Shaped t (suc n) (item v vs) (of_item h hs) = drop_items-Shaped t n vs hs

pub set_item-Shaped :
    (t : TypeInfo) (vs : Items) (j : ℕ) (w : Value)
    → ShapedItems t vs
    → Shaped t w
    → ShapedItems t (set_item vs j w)
set_item-Shaped t no_items j w h k = h
set_item-Shaped t (item v vs) zero w (of_item h hs) k = of_item k hs
set_item-Shaped t (item v vs) (suc j) w (of_item h hs) k = of_item h (set_item-Shaped t vs j w hs k)

pub item_count-set_item :
    (vs : Items) (j : ℕ) (w : Value) → item_count (set_item vs j w) ≡ item_count vs
item_count-set_item no_items j w = refl
item_count-set_item (item v vs) zero w = refl
item_count-set_item (item v vs) (suc j) w = ap (λ k. suc k) (item_count-set_item vs j w)

pub item_at-Shaped :
    (t : TypeInfo) (vs : Items) (j : ℕ) (v : Value)
    → ShapedItems t vs
    → item_at vs j ≡ some v
    → Shaped t v
item_at-Shaped t no_items j v h e = absurd (cc)
item_at-Shaped t (item v vs) zero w (of_item h hs) e = subst (λ u. Shaped t u) (cc) h
item_at-Shaped t (item v vs) (suc j) w (of_item h hs) e = item_at-Shaped t vs j w hs e

mutual
  unfolding zero_value

  pub zero_value-Shaped : (t : TypeInfo) → Shaped t (zero_value t)
  zero_value-Shaped (simple t n) = of_simple (length-replicate {A = ℕ} n 0)
  zero_value-Shaped str = of_str
  zero_value-Shaped time = of_time
  zero_value-Shaped (pointer t) = of_nil_pointer
  zero_value-Shaped (object ts) = of_object (zero_fields-Shaped ts)
  zero_value-Shaped (array n e t) =
      of_array (item_count-repeat n (zero_value t))
        (repeat_item-Shaped t (zero_value t) n (zero_value-Shaped t))
  zero_value-Shaped (slice t) = of_nil_slice
  zero_value-Shaped (merge_array n t e) = of_merge_array (length-replicate {A = ℕ} (e * n) 0)
  zero_value-Shaped (merge_slice t e) = of_nil_merge_slice
  zero_value-Shaped (dict k v) = of_nil_map

  zero_fields-Shaped : (ts : Infos) → ShapedFields ts (zero_fields ts)
  zero_fields-Shaped no_infos = of_no_fields
  zero_fields-Shaped (info t ts) = of_field (zero_value-Shaped t) (zero_fields-Shaped ts)
