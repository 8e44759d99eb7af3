-- ===== src/TypeInfo/Save.antt =====
-- tssd/typeinfo.go and tssd/typeinfo_map.go: the functions that write a value. Those of the first
-- file find the elements of an array by address; those of the second, for what lies in a map, by
-- `reflect.Value.Index`.
pub mod ForMaps
pub mod Runs
pub mod Refines
use tssdgo.Prelude.{
  ℕ, zero, suc, ◌+◌, ◌-◌, ◌*◌, Option, none, some, List, [], ◌∷◌, length, take, drop, ◌==◌,
  if◌then◌else◌,
}
use tssdgo.Wire.{Result, ok, panic, beyond, ◌>>=◌, negated}
use tssdgo.Wire.Code
use tssdgo.Buffer.{Buffer}
use tssdgo.Buffer.Write.{
  append, append_byte, append_size2, append_size4, append_string, write_pos, update_size,
}
use tssdgo.TypeInfo.{
  TypeInfo, simple, str, time, pointer, object, array, slice, merge_array, merge_slice, dict, Infos,
  no_infos, info, info_count, type_of, element_index, Value, bytes, text, instant, nil_pointer,
  pointee, fields, elements, nil_slice, items, raw, nil_map, entries, Items, no_items, item,
  Entries, no_entries, pair, item_count, entry_count, item_at,
}

-- What `objSave`, `sliceSave`, `dictSave` and their counterparts for maps share: four bytes are
-- kept for the size, the count and the body follow, and the size is then written over them.
unfoldable pub save_sized : ℕ → (Buffer → Result Buffer) → Buffer → Result Buffer
save_sized n body b = do
  (i, p) ← write_pos b
  b1 ← append_size4 0 b
  b2 ← append_size2 n b1
  b3 ← body b2
  update_size i p (b3.size - b.size - 4) b3

-- `memAppend`
unfoldable pub mem_append : ℕ → List ℕ → Buffer → Result Buffer
mem_append t bs b = append_byte t b >>= append bs

unfoldable pub save_text : ℕ → List ℕ → Buffer → Result Buffer
save_text t s b = append_byte t b >>= append_string s

-- The element that the address of `ti.info[0].save` points to.
abbrev pub element : Items → Option ℕ → Result Value
element vs none = beyond
element vs (some j) = elim (item_at vs j) [ none ↦ beyond | some v ↦ ok v ]

-- The loop of `sliceSave` over `n` elements from number `i` on, each found at its offset.
unfoldable pub save_items :
    (Value → Buffer → Result Buffer) → (ℕ → Option ℕ) → ℕ → ℕ → Items → Buffer → Result Buffer
save_items one at zero i vs b = ok b
save_items one at (suc n) i vs b =
    element vs (at i) >>= λ v. one v b >>= save_items one at n (i + 1) vs

-- `mergeSliceSave` for `n` elements of code `t`, size `e` each.
unfoldable pub merge_save : ℕ → ℕ → ℕ → List ℕ → Buffer → Result Buffer
merge_save n t e bs b = do
  b1 ← append_byte Code.arraym b
  b2 ← append_byte t b1
  b3 ← append_size4 (2 + e * n) b2
  b4 ← append_size2 n b3
  append bs b4

-- The loop of `mapMergeSliceValueSave`: the elements are appended one at a time. `simpleSave` has no
-- function for the code 0, that of uintptr, and calling it panics.
unfoldable pub map_merge_items : ℕ → ℕ → ℕ → List ℕ → Buffer → Result Buffer
map_merge_items t e zero bs b = ok b
map_merge_items t e (suc n) bs b =
    if t == 0 then panic else append (take e bs) b >>= map_merge_items t e n (drop e bs)

-- `mapMergeSliceValueSave`
unfoldable pub map_merge_save : ℕ → ℕ → ℕ → List ℕ → Buffer → Result Buffer
map_merge_save n t e bs b = do
  b1 ← append_byte Code.arraym b
  b2 ← append_byte t b1
  b3 ← append_size4 (2 + e * n) b2
  b4 ← append_size2 n b3
  map_merge_items t e n bs b4

-- The loop of `dictSave` and `mapMapValueSave`.
unfoldable pub save_entries :
    (Value → Buffer → Result Buffer)
    → (Value → Buffer → Result Buffer)
    → Entries
    → Buffer
    → Result Buffer
save_entries key val no_entries b = ok b
save_entries key val (pair k v es) b = do
  b1 ← append_byte Code.dictk b
  b2 ← key k b1
  b3 ← append_byte Code.dictv b2
  b4 ← val v b3
  save_entries key val es b4

-- The loop of `mapSliceValueSave`.
unfoldable pub map_save_items : (Value → Buffer → Result Buffer) → Items → Buffer → Result Buffer
map_save_items one no_items b = ok b
map_save_items one (item v vs) b = one v b >>= map_save_items one vs

-- `Format(time.RFC3339Nano)` of a time.
module _ (format : ℕ → List ℕ) where
  -- `timeSave`
  unfoldable pub time_save : ℕ → Buffer → Result Buffer
  time_save t b = append (Code.time ∷ Code.string ∷ []) b >>= append_string (format t)

  -- The clauses that Go's type checker rules out answer `beyond`.
  unfoldable mutual
    pub save : TypeInfo → Value → Buffer → Result Buffer
    save (simple t n) (bytes bs) b = mem_append t bs b
    save str (text s) b = save_text Code.string s b
    save time (instant t) b = time_save t b
    save (pointer t) nil_pointer b = append_byte (negated (type_of t)) b
    save (pointer t) (pointee v) b = save t v b
    save (object ts) (fields vs) b =
        append_byte Code.object b >>= save_sized (info_count ts) (save_fields ts vs)
    save (array n e t) (elements vs) b =
        append_byte Code.array b >>= save_sized n (save_items (save t) (element_index t) n 0 vs)
    save (slice t) nil_slice b = append_byte (negated Code.array) b
    save (slice t) (items vs spare) b =
        append_byte Code.array b
        >>= save_sized (item_count vs) (save_items (save t) (element_index t) (item_count vs) 0 vs)
    save (merge_array n t e) (bytes bs) b = merge_save n t e bs b
    save (merge_slice t e) nil_slice b = append_byte (negated Code.arraym) b
    save (merge_slice t e) (raw n bs spare) b = merge_save n t e bs b
    save (dict k v) nil_map b = append_byte (negated Code.dict) b
    save (dict k v) (entries es) b =
        append_byte Code.dict b
        >>= save_sized (entry_count es) (save_entries (map_save k) (map_save v) es)
    save _ _ b = beyond

    pub save_fields : Infos → Items → Buffer → Result Buffer
    save_fields (info t ts) (item v vs) b = save t v b >>= save_fields ts vs
    save_fields no_infos vs b = ok b
    save_fields _ _ b = beyond

    pub map_save : TypeInfo → Value → Buffer → Result Buffer
    map_save (simple t n) (bytes bs) b = if t == 0 then panic else mem_append t bs b
    map_save str (text s) b = save_text Code.string s b
    map_save time (instant t) b = time_save t b
    map_save (pointer t) nil_pointer b = append_byte (negated (type_of t)) b
    map_save (pointer t) (pointee v) b = save t v b
    map_save (object ts) (fields vs) b =
        append_byte Code.object b >>= save_sized (info_count ts) (map_save_fields ts vs)
    map_save (array n e t) (elements vs) b =
        append_byte Code.array b >>= save_sized (item_count vs) (map_save_items (map_save t) vs)
    map_save (slice t) nil_slice b = append_byte (negated Code.array) b
    map_save (slice t) (items vs spare) b =
        append_byte Code.array b >>= save_sized (item_count vs) (map_save_items (map_save t) vs)
    map_save (merge_array n t e) (bytes bs) b = map_merge_save n t e bs b
    map_save (merge_slice t e) nil_slice b = append_byte (negated Code.arraym) b
    map_save (merge_slice t e) (raw n bs spare) b = map_merge_save n t e bs b
    map_save (dict k v) nil_map b = append_byte (negated Code.dict) b
    map_save (dict k v) (entries es) b =
        append_byte Code.dict b
        >>= save_sized (entry_count es) (save_entries (map_save k) (map_save v) es)
    map_save _ _ b = beyond

    pub map_save_fields : Infos → Items → Buffer → Result Buffer
    map_save_fields (info t ts) (item v vs) b = map_save t v b >>= map_save_fields ts vs
    map_save_fields no_infos vs b = ok b
    map_save_fields _ _ b = beyond
