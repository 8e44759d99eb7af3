-- ===== src/TypeInfo/Typed.antt =====
-- The values of a Go type, as far as its typeInfo tells: what Go's type checker guarantees, and
-- that the loops over elements find element `i` at offset `i` (`element_index`), which is so
-- unless the elements are themselves slices, or arrays of elements larger than a byte.
use tssdgo.Prelude.{ℕ, ◌*◌, ◌<◌, ◌≡◌, some, List, length}
use tssdgo.TypeInfo.{
  TypeInfo, simple, str, time, pointer, object, array, slice, merge_array, merge_slice, dict, Infos,
  no_infos, info, element_index, Value, bytes, text, instant, nil_pointer, pointee, fields,
  elements, nil_slice, items, raw, nil_map, entries, Items, no_items, item, Entries, no_entries,
  pair, item_count,
}

abbrev pub FindsElements : TypeInfo → Type 0
FindsElements t = (i : ℕ) → element_index t i ≡ some i

mutual
  pub data Typed : TypeInfo → Value → Type 0 where
    is_simple :
        {t n : ℕ} {bs : List ℕ} → 0 < t → t < 128 → length bs ≡ n → Typed (simple t n) (bytes bs)
    is_str : {s : List ℕ} → Typed str (text s)
    is_time : {t : ℕ} → Typed time (instant t)
    is_nil_pointer : {t : TypeInfo} → Typed (pointer t) nil_pointer
    is_pointee : {t : TypeInfo} {v : Value} → Typed t v → Typed (pointer t) (pointee v)
    is_object : {ts : Infos} {vs : Items} → TypedFields ts vs → Typed (object ts) (fields vs)
    is_array :
        {n e : ℕ} {t : TypeInfo} {vs : Items}
        → FindsElements t
        → item_count vs ≡ n
        → TypedItems t vs
        → Typed (array n e t) (elements vs)
    is_nil_slice : {t : TypeInfo} → Typed (slice t) nil_slice
    is_slice :
        {t : TypeInfo} {vs spare : Items}
        → FindsElements t
        → TypedItems t vs
        → Typed (slice t) (items vs spare)
    is_merge_array :
        {n t e : ℕ} {bs : List ℕ} → length bs ≡ e * n → Typed (merge_array n t e) (bytes bs)
    is_nil_merge_slice : {t e : ℕ} → Typed (merge_slice t e) nil_slice
    is_merge_slice :
        {n t e : ℕ} {bs spare : List ℕ}
        → length bs ≡ e * n
        → Typed (merge_slice t e) (raw n bs spare)
    is_nil_map : {k v : TypeInfo} → Typed (dict k v) nil_map
    is_map : {k v : TypeInfo} {es : Entries} → TypedEntries k v es → Typed (dict k v) (entries es)

  pub data TypedFields : Infos → Items → Type 0 where
    no_fields : TypedFields no_infos no_items
    next_field :
        {t : TypeInfo} {ts : Infos} {v : Value} {vs : Items}
        → Typed t v
        → TypedFields ts vs
        → TypedFields (info t ts) (item v vs)

  pub data TypedItems : TypeInfo → Items → Type 0 where
    no_more_items : {t : TypeInfo} → TypedItems t no_items
    next_item :
        {t : TypeInfo} {v : Value} {vs : Items}
        → Typed t v
        → TypedItems t vs
        → TypedItems t (item v vs)

  pub data TypedEntries : TypeInfo → TypeInfo → Entries → Type 0 where
    no_more_entries : {k v : TypeInfo} → TypedEntries k v no_entries
    next_entry :
        {k v : TypeInfo} {x y : Value} {es : Entries}
        → Typed k x
        → Typed v y
        → TypedEntries k v es
        → TypedEntries k v (pair x y es)
