-- ===== src/TypeInfo/Dump.antt =====
-- tssd/typeinfo.go: the functions that read a value. `d` is what the destination holds before;
-- a type code with its sign changed leaves it, or makes it the zero value.
pub mod Parts
pub mod Bytes
pub mod Loops
pub mod Sound
pub mod Truncated
use tssdgo.Prelude.{
  ℕ, zero, suc, ◌+◌, ◌-◌, ◌*◌, Option, none, some, List, [], ◌∷◌, ◌++◌, length, take, drop,
  replicate, ltb, leb, ◌==◌, if◌then◌else◌, ℤ, pos, negsuc, Bool, true, false,
}
use tssdgo.Wire.{
  Result, ok, err, panic, beyond, stuck, insufficient_data, invalid_data, other, ◌>>=◌, negated,
}
use tssdgo.Wire.Code
use tssdgo.Buffer.{Buffer}
use tssdgo.Buffer.Read.{read, read_byte, peek_byte, check_dump_sizet, check_dump_size}
use tssdgo.TypeInfo.{
  TypeInfo, simple, str, time, pointer, object, array, slice, merge_array, merge_slice, dict, Infos,
  no_infos, info, info_count, type_of, element_index, Value, bytes, text, instant, nil_pointer,
  pointee, fields, elements, nil_slice, items, raw, nil_map, entries, Items, no_items, item,
  Entries, no_entries, pair, item_count, item_at, set_item, append_items, take_items, drop_items,
  repeat_item,
}

-- The cases of `switch int8(b)` against the code `t`.
pub data Tag : Type 0 where
  same negative mismatch : Tag

abbrev pub tag_of : ℕ → ℕ → Tag
tag_of b t = if b == t then same else if b == negated t then negative else mismatch

-- The zero value of a type, as `reflect.New` makes it.
unfoldable mutual
  pub zero_value : TypeInfo → Value
  zero_value (simple t n) = bytes (replicate n 0)
  zero_value str = text []
  zero_value time = instant 0
  zero_value (pointer t) = nil_pointer
  zero_value (object ts) = fields (zero_fields ts)
  zero_value (array n e t) = elements (repeat_item n (zero_value t))
  zero_value (slice t) = nil_slice
  zero_value (merge_array n t e) = bytes (replicate (e * n) 0)
  zero_value (merge_slice t e) = nil_slice
  zero_value (dict k v) = nil_map

  pub zero_fields : Infos → Items
  zero_fields no_infos = no_items
  zero_fields (info t ts) = item (zero_value t) (zero_fields ts)

abbrev pub mem_dump_as : Tag → ℕ → Buffer → Value → Result (Value × Buffer)
mem_dump_as same n b d =
    if ltb b.size n then err insufficient_data else (read n b >>= λ (bs, b'). ok (bytes bs, b'))
mem_dump_as negative n b d = ok (d, b)
mem_dump_as mismatch n b d = err invalid_data

-- `memDump`
unfoldable pub mem_dump : ℕ → ℕ → Buffer → Value → Result (Value × Buffer)
mem_dump t n b d = read_byte b >>= λ (x, b1). mem_dump_as (tag_of x t) n b1 d

-- What a `Read` leaves where the source drops its error: nothing is read then.
abbrev pub recover : List ℕ → Buffer → Result (List ℕ × Buffer) → Result (List ℕ × Buffer)
recover old b (ok p) = ok p
recover old b (err e) = ok (old, b)
recover old b panic = panic
recover old b beyond = beyond
recover old b stuck = stuck

abbrev pub read_or : List ℕ → ℕ → Buffer → Result (List ℕ × Buffer)
read_or old n b = recover old b (read n b)

-- `stringDump`: `make([]byte, sizet)` panics for a negative size.
unfoldable pub string_dump : Buffer → Result (List ℕ × Buffer)
string_dump b =
    check_dump_sizet b >>= λ (n, b1). elim n [ pos k ↦ read_or [] k b1 | negsuc k ↦ panic ]

unfoldable pub str_dump : Buffer → Value → Result (Value × Buffer)
str_dump b d = read_byte b >>= λ (x, b1). elim (tag_of x Code.string) [
  | same ↦ string_dump b1 >>= λ (s, b2). ok (text s, b2)
  | negative ↦ ok (d, b1)
  | mismatch ↦ err invalid_data
]

-- The loop of `sliceDump`: `n` elements from number `i` on, each read into the one at its offset.
abbrev pub slot : Items → Option ℕ → Result (ℕ × Value)
slot vs none = beyond
slot vs (some j) = elim (item_at vs j) [ none ↦ beyond | some v ↦ ok (j, v) ]

unfoldable pub dump_items :
    (Buffer → Value → Result (Value × Buffer))
    → (ℕ → Option ℕ)
    → ℕ
    → ℕ
    → Items
    → Buffer
    → Result (Items × Buffer)
dump_items one at zero i vs b = ok (vs, b)
dump_items one at (suc n) i vs b = slot vs (at i) >>= λ (j, d).
    one b d >>= λ (v, b'). dump_items one at n (i + 1) (set_item vs j v) b'

-- The elements that `sliceDump` reads into, with those behind the length: a new array of zero
-- values `z` if the old one has no room for `n`.
abbrev pub grown : ℕ → Value → Value → Items × Items
grown n z (items vs spare) =
    if ltb (item_count vs + item_count spare) n
    then (repeat_item n z, no_items)
    else (take_items n (append_items vs spare), drop_items n (append_items vs spare))
grown n z _ = (repeat_item n z, no_items)

-- The same for elements of a fixed length, as bytes.
abbrev pub grown_bytes : ℕ → Value → List ℕ × List ℕ
grown_bytes n (raw k bs spare) =
    if ltb (length bs + length spare) n
    then (replicate n 0, [])
    else (take n (bs ++ spare), drop n (bs ++ spare))
grown_bytes n _ = (replicate n 0, [])

-- `mergeSliceDump` behind the type code: the code of the elements and the sizes.
unfoldable pub merge_head : ℕ → Buffer → Result (ℤ × Buffer)
merge_head t b = do
  (x, b1) ← read_byte b
  if x == t then check_dump_size b1 >>= (λ (sizet, n, b2). ok (n, b2)) else err invalid_data

-- A read into the front of an array in memory; behind its end lies other memory.
abbrev pub read_into : List ℕ → ℕ → Buffer → Result (List ℕ × Buffer)
read_into old n b = read_or (take n old) n b >>= λ (bs, b').
    if leb (length bs) (length old) then ok (bs ++ drop (length bs) old, b') else beyond

unfoldable pub merge_array_dump : ℕ → ℕ → ℕ → Buffer → Value → Result (Value × Buffer)
merge_array_dump n t e b d = read_byte b >>= λ (x, b1). elim (tag_of x Code.arraym) [
  | same ↦ merge_head t b1 >>= λ (m, b2). elim m [
    | pos k ↦ elim d [
      | bytes old ↦ read_into old (k * e) b2 >>= λ (bs, b3). ok (bytes bs, b3)
      | _ ↦ beyond
    ]
    | negsuc k ↦ panic
  ]
  | negative ↦ ok (bytes (replicate (e * n) 0), b1)
  | mismatch ↦ err invalid_data
]

unfoldable pub merge_slice_dump : ℕ → ℕ → Buffer → Value → Result (Value × Buffer)
merge_slice_dump t e b d = read_byte b >>= λ (x, b1). elim (tag_of x Code.arraym) [
  | same ↦ merge_head t b1 >>= λ (m, b2). elim m [
    | pos k ↦
        let (old, spare) = grown_bytes (k * e) d in
        read_into old (k * e) b2 >>= λ (bs, b3). ok (raw k bs spare, b3)
    | negsuc k ↦ panic
  ]
  | negative ↦ ok (nil_slice, b1)
  | mismatch ↦ err invalid_data
]

-- The byte in front of a key or a value.
abbrev pub expect_byte : ℕ → Buffer → Result Buffer
expect_byte t b = read_byte b >>= λ (x, b'). if x == t then ok b' else err invalid_data

-- The loop of `makeDumpMap`, with the zero values that keys and values are read into.
unfoldable pub dump_entries :
    (Buffer → Result (Value × Buffer))
    → (Buffer → Result (Value × Buffer))
    → ℕ
    → Buffer
    → Result (Entries × Buffer)
dump_entries key val zero b = ok (no_entries, b)
dump_entries key val (suc n) b = expect_byte Code.dictk b >>= λ b1. key b1 >>= λ (k, b2).
    expect_byte Code.dictv b2 >>= λ b3.
    val b3 >>= λ (v, b4). dump_entries key val n b4 >>= λ (es, b5). ok (pair k v es, b5)

-- A capacity hint below 0 is as good as 0, and the loop then has no round.
abbrev pub to_count : ℤ → ℕ
to_count (pos n) = n
to_count (negsuc n) = 0

abbrev pub pointee_or : Value → Value → Value
pointee_or z (pointee v) = v
pointee_or z _ = z

abbrev pub fields_of : Value → Items
fields_of (fields vs) = vs
fields_of _ = no_items

abbrev pub elements_of : Value → Items
elements_of (elements vs) = vs
elements_of _ = no_items

abbrev pub is_count : ℤ → ℕ → Bool
is_count (pos n) k = n == k
is_count (negsuc n) k = false

-- `time.Parse(time.RFC3339Nano, ...)`; `none` is its error.
module _ (parse : List ℕ → Option ℕ) where
  unfoldable pub time_dump : Buffer → Value → Result (Value × Buffer)
  time_dump b d = read_byte b >>= λ (x, b1). elim (tag_of x Code.time) [
    | same ↦ expect_byte Code.string b1 >>= λ b2. string_dump b2 >>= λ (s, b3). elim (parse s) [
      | none ↦ err other
      | some t ↦ ok (instant t, b3)
    ]
    | negative ↦ ok (d, b1)
    | mismatch ↦ err invalid_data
  ]

  unfoldable mutual
    pub dump : TypeInfo → Buffer → Value → Result (Value × Buffer)
    dump (simple t n) b d = mem_dump t n b d
    dump str b d = str_dump b d
    dump time b d = time_dump b d
    dump (pointer t) b d = peek_byte b >>= λ (x, b1).
        let inner = dump t b1 (pointee_or (zero_value t) d) >>= λ (v, b2). ok (pointee v, b2) in
        let gone = read_byte b1 >>= λ (y, b2). ok (nil_pointer, b2) in
        if x == negated (type_of t) then gone else inner
    dump (object ts) b d = read_byte b >>= λ (x, b1). elim (tag_of x Code.object) [
      | same ↦ check_dump_size b1 >>= λ (sizet, n, b2).
          let read_fields = dump_fields ts (fields_of d) b2 >>= λ (vs, b3). ok (fields vs, b3) in
          if is_count n (info_count ts) then read_fields else err invalid_data
      | negative ↦ ok (d, b1)
      | mismatch ↦ err invalid_data
    ]
    dump (array n e t) b d = read_byte b >>= λ (x, b1). elim (tag_of x Code.array) [
      | same ↦ check_dump_size b1 >>= λ (sizet, m, b2).
          dump_items (dump t) (element_index t) (to_count m) 0 (elements_of d) b2 >>= λ (vs, b3).
          ok (elements vs, b3)
      | negative ↦ ok (elements (repeat_item n (zero_value t)), b1)
      | mismatch ↦ err invalid_data
    ]
    dump (slice t) b d = read_byte b >>= λ (x, b1). elim (tag_of x Code.array) [
      | same ↦ check_dump_size b1 >>= λ (sizet, m, b2). elim m [
        | pos n ↦
            let (old, spare) = grown n (zero_value t) d in
            dump_items (dump t) (element_index t) n 0 old b2 >>= λ (vs, b3). ok (items vs spare, b3)
        | negsuc n ↦ panic
      ]
      | negative ↦ ok (nil_slice, b1)
      | mismatch ↦ err invalid_data
    ]
    dump (merge_array n t e) b d = merge_array_dump n t e b d
    dump (merge_slice t e) b d = merge_slice_dump t e b d
    dump (dict k v) b d = read_byte b >>= λ (x, b1). elim (tag_of x Code.dict) [
      | same ↦ check_dump_size b1 >>= λ (sizet, m, b2).
          dump_entries (λ b'. dump k b' (zero_value k)) (λ b'. dump v b' (zero_value v))
            (to_count m) b2
          >>= λ (es, b3). ok (entries es, b3)
      | negative ↦ ok (nil_map, b1)
      | mismatch ↦ err invalid_data
    ]

    pub dump_fields : Infos → Items → Buffer → Result (Items × Buffer)
    dump_fields no_infos vs b = ok (no_items, b)
    dump_fields (info t ts) (item d ds) b =
        dump t b d >>= λ (v, b1). dump_fields ts ds b1 >>= λ (vs, b2). ok (item v vs, b2)
    dump_fields (info t ts) no_items b = beyond
