-- ===== src/TypeInfo/MapDump.antt =====
-- tssd/typeinfo_map.go: the functions that read what lies in a map into a new reflect.Value.
-- `none` is the invalid one, which is what they answer for a nil, and which `Set` panics on.
pub mod RoundTrip
use tssdgo.Prelude.{
  ℕ, zero, suc, ◌*◌, Option, none, some, List, [], ◌∷◌, ◌++◌, length, take, drop, replicate, leb,
  ◌==◌, Bool, true, false, ◌||◌, not, if◌then◌else◌, ℤ, pos, negsuc,
}
use tssdgo.Wire.{Result, ok, err, panic, beyond, invalid_data, ◌>>=◌}
use tssdgo.Wire.Code
use tssdgo.Buffer.{Buffer}
use tssdgo.Buffer.Read.{read, read_byte, check_dump_size, first_byte}
use tssdgo.TypeInfo.{
  TypeInfo, simple, str, time, pointer, object, array, slice, merge_array, merge_slice, dict, Infos,
  no_infos, info, info_count, Value, bytes, text, instant, pointee, fields, elements, nil_slice,
  items, raw, entries, Entries, Items, no_items, item, repeat_item,
}
use tssdgo.TypeInfo.Dump.{
  tag_of, same, negative, mismatch, zero_value, mem_dump, read_or, str_dump, time_dump,
  dump_entries, to_count, is_count, dump,
}

abbrev pub is_text : TypeInfo → Bool
is_text str = true
is_text _ = false

-- `Set` panics on the invalid value, and on one of another type. That is so of the plain string that
-- `mapStrDump` answers, if the type to set has a name of its own, which `str` does not tell: `assignable`
-- says that it has none.
abbrev pub settled : Bool → Option Value → Result Value
settled assignable none = panic
settled assignable (some v) = if assignable then ok v else beyond

-- The loop of `mapSliceValueDump`: `n` elements are set, from the first on; behind the last one
-- `Index` panics.
unfoldable pub map_dump_items :
    Bool → (Buffer → Result (Option Value × Buffer)) → ℕ → Items → Buffer → Result (Items × Buffer)
map_dump_items assignable one zero ds b = ok (ds, b)
map_dump_items assignable one (suc n) no_items b = one b >>= λ p. panic
map_dump_items assignable one (suc n) (item d ds) b = one b >>= λ (o, b1).
    settled assignable o >>= λ v.
    map_dump_items assignable one n ds b1 >>= λ (vs, b2). ok (item v vs, b2)

-- The loop of `mapMergeSliceValueDump` over elements of size `e`, each read into a new one, with
-- the error of `Read` dropped.
unfoldable pub map_merge_dump_items : ℕ → ℕ → List ℕ → Buffer → Result (List ℕ × Buffer)
map_merge_dump_items e zero old b = ok (old, b)
map_merge_dump_items e (suc n) old b = read_or (replicate e 0) e b >>= λ (x, b1).
    let rest = map_merge_dump_items e n (drop e old) b1 in
    if leb e (length old) then rest >>= (λ (xs, b2). ok (x ++ xs, b2)) else panic

-- `Grow` and `SetLen` of a nil slice: it stays nil for no elements.
abbrev pub made : ℕ → Items → Items → Value
made zero vs spare = nil_slice
made (suc n) vs spare = items vs spare

abbrev pub made_raw : ℕ → List ℕ → List ℕ → Value
made_raw zero bs spare = nil_slice
made_raw (suc n) bs spare = raw (suc n) bs spare

abbrev pub second_byte : List ℕ → ℕ
second_byte bs = first_byte (drop 1 bs)

-- The two codes and the sizes in front of a merged array: both codes are read at once. `none` is
-- for the code of a nil.
unfoldable pub map_merge_head : ℕ → Buffer → Result (Option ℤ × Buffer)
map_merge_head t b = read 2 b >>= λ (bs, b1). elim (tag_of (first_byte bs) Code.arraym) [
  | same ↦
      if second_byte bs == t
      then check_dump_size b1 >>= (λ (sizet, m, b2). ok (some m, b2))
      else err invalid_data
  | negative ↦ ok (none, b1)
  | mismatch ↦ err invalid_data
]

-- `mapSimpleDump`, `mapStrDump`
abbrev pub map_simple_dump : ℕ → ℕ → Buffer → Result (Option Value × Buffer)
map_simple_dump t n b = mem_dump t n b (zero_value (simple t n)) >>= λ (v, b1). ok (some v, b1)

abbrev pub map_str_dump : Buffer → Result (Option Value × Buffer)
map_str_dump b = str_dump b (text []) >>= λ (v, b1). ok (some v, b1)

-- `mapPointerDump`, with `dump` of what is pointed to into a new value.
abbrev pub map_pointer_dump :
    (Buffer → Result (Value × Buffer)) → Buffer → Result (Option Value × Buffer)
map_pointer_dump one b = one b >>= λ (v, b1). ok (some (pointee v), b1)

-- `mapStructDump`, with the number of fields and the loop over them.
abbrev pub map_struct_dump :
    ℕ → (Buffer → Result (Items × Buffer)) → Buffer → Result (Option Value × Buffer)
map_struct_dump count loop b = read_byte b >>= λ (x, b1). elim (tag_of x Code.object) [
  | same ↦ check_dump_size b1 >>= λ (sizet, n, b2).
      let read_fields = loop b2 >>= λ (vs, b3). ok (some (fields vs), b3) in
      if is_count n count then read_fields else err invalid_data
  | negative ↦ ok (none, b1)
  | mismatch ↦ err invalid_data
]

-- `mapSliceValueDump` of an array of `n`, with the zero value of an element.
abbrev pub map_array_dump :
    Bool
    → (Buffer → Result (Option Value × Buffer))
    → ℕ
    → Value
    → Buffer
    → Result (Option Value × Buffer)
map_array_dump assignable one n z b = read_byte b >>= λ (x, b1). elim (tag_of x Code.array) [
  | same ↦ check_dump_size b1 >>= λ (sizet, m, b2).
      map_dump_items assignable one (to_count m) (repeat_item n z) b2 >>= λ (vs, b3).
      ok (some (elements vs), b3)
  | negative ↦ ok (none, b1)
  | mismatch ↦ err invalid_data
]

-- The same of a slice; `room` is how many elements more than asked for `Grow` makes room for.
abbrev pub map_slice_dump :
    Bool
    → (Buffer → Result (Option Value × Buffer))
    → (ℕ → ℕ)
    → Value
    → Buffer
    → Result (Option Value × Buffer)
map_slice_dump assignable one room z b = read_byte b >>= λ (x, b1). elim (tag_of x Code.array) [
  | same ↦ check_dump_size b1 >>= λ (sizet, m, b2). elim m [
    | pos k ↦ map_dump_items assignable one k (repeat_item k z) b2 >>= λ (vs, b3).
        ok (some (made k vs (repeat_item (room k) z)), b3)
    | negsuc k ↦ panic
  ]
  | negative ↦ ok (none, b1)
  | mismatch ↦ err invalid_data
]

-- `mapMapValueDump`, with the loop of `makeDumpMap`.
abbrev pub map_map_dump :
    (ℕ → Buffer → Result (Entries × Buffer)) → Buffer → Result (Option Value × Buffer)
map_map_dump loop b = read_byte b >>= λ (x, b1). elim (tag_of x Code.dict) [
  | same ↦ check_dump_size b1 >>= λ (sizet, m, b2).
      loop (to_count m) b2 >>= λ (es, b3). ok (some (entries es), b3)
  | negative ↦ ok (none, b1)
  | mismatch ↦ err invalid_data
]

-- How many elements more than asked for `Grow` makes room for in a nil slice; and whether all string
-- types of fields and elements are `string` itself. For others `Set` is not followed.
module _ (parse : List ℕ → Option ℕ) (room : TypeInfo → ℕ → ℕ) (plain : Bool) where
  abbrev pub can_set : TypeInfo → Bool
  can_set t = plain || not (is_text t)

  -- `mapTimeDump`
  abbrev pub map_time_dump : Buffer → Result (Option Value × Buffer)
  map_time_dump b = time_dump parse b (instant 0) >>= λ (v, b1). ok (some v, b1)

  -- `mapMergeSliceValueDump` of an array and of a slice.
  unfoldable pub map_merge_array_dump : ℕ → ℕ → ℕ → Buffer → Result (Option Value × Buffer)
  map_merge_array_dump n t e b = map_merge_head t b >>= λ (o, b1). elim o [
    | none ↦ ok (none, b1)
    | some m ↦ map_merge_dump_items e (to_count m) (replicate (e * n) 0) b1 >>= λ (bs, b2).
        ok (some (bytes bs), b2)
  ]

  unfoldable pub map_merge_slice_dump : ℕ → ℕ → Buffer → Result (Option Value × Buffer)
  map_merge_slice_dump t e b = map_merge_head t b >>= λ (o, b1). elim o [
    | none ↦ ok (none, b1)
    | some m ↦ elim m [
      | pos k ↦ map_merge_dump_items e k (replicate (e * k) 0) b1 >>= λ (bs, b2).
          ok (some (made_raw k bs (replicate (e * room (simple t e) k) 0)), b2)
      | negsuc k ↦ panic
    ]
  ]

  -- The functions that `doParse` chooses.
  unfoldable mutual
    pub map_dump : TypeInfo → Buffer → Result (Option Value × Buffer)
    map_dump (simple t n) b = map_simple_dump t n b
    map_dump str b = map_str_dump b
    map_dump time b = map_time_dump b
    map_dump (pointer t) b = map_pointer_dump (λ b'. dump parse t b' (zero_value t)) b
    map_dump (object ts) b = map_struct_dump (info_count ts) (map_dump_fields ts) b
    map_dump (array n e t) b = map_array_dump (can_set t) (map_dump t) n (zero_value t) b
    map_dump (slice t) b = map_slice_dump (can_set t) (map_dump t) (room t) (zero_value t) b
    map_dump (merge_array n t e) b = map_merge_array_dump n t e b
    map_dump (merge_slice t e) b = map_merge_slice_dump t e b
    map_dump (dict k v) b =
        map_map_dump
          (dump_entries (λ b'. dump parse k b' (zero_value k))
            (λ b'. dump parse v b' (zero_value v)))
          b

    -- The loop of `mapStructDump`.
    pub map_dump_fields : Infos → Buffer → Result (Items × Buffer)
    map_dump_fields no_infos b = ok (no_items, b)
    map_dump_fields (info t ts) b = map_dump t b >>= λ (o, b1).
        settled (can_set t) o >>= λ v. map_dump_fields ts b1 >>= λ (vs, b2). ok (item v vs, b2)
