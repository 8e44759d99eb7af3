-- ===== src/TypeInfo.antt =====
-- tssd/typeinfo.go: the type typeInfo, and the Go values that it describes.
pub mod Save
pub mod Encode
pub mod Typed
pub mod Lists
pub mod Dump
pub mod Shaped
pub mod Fits
pub mod Saveable
pub mod RoundTrip
pub mod Marshal
pub mod MapDump
pub mod Print
pub mod Parse
use tssdgo.Prelude.{
  ℕ, zero, suc, ◌+◌, ◌*◌, ◌/◌, ◌%◌, Option, none, some, List, [], ◌∷◌, Bool, true, false, ◌==◌,
  if◌then◌else◌,
}
use tssdgo.Wire.Code

-- A typeInfo, by the pair of functions that `doParse` puts into its fields `save` and `dump`:
-- the type code and the size of a fixed-length type (`memAppend`), `n` for the length of an array
-- and `esize` for the size of its elements in memory. The elements of the two merged kinds are
-- fixed-length, and stand as their code and size.
mutual
  pub data TypeInfo : Type 0 where
    simple : ℕ → ℕ → TypeInfo
    str : TypeInfo
    time : TypeInfo
    pointer : TypeInfo → TypeInfo
    object : Infos → TypeInfo
    array : ℕ → ℕ → TypeInfo → TypeInfo
    slice : TypeInfo → TypeInfo
    merge_array : ℕ → ℕ → ℕ → TypeInfo
    merge_slice : ℕ → ℕ → TypeInfo
    dict : TypeInfo → TypeInfo → TypeInfo

  pub data Infos : Type 0 where
    no_infos : Infos
    info : TypeInfo → Infos → Infos

abbrev pub info_count : Infos → ℕ
info_count no_infos = 0
info_count (info t ts) = suc (info_count ts)

-- The field `Type`. `doParse` does not set it for a pointer.
abbrev pub type_of : TypeInfo → ℕ
type_of (simple t n) = t
type_of str = Code.string
type_of time = Code.time
type_of (pointer t) = 0
type_of (object ts) = Code.object
type_of (array n e t) = Code.array
type_of (slice t) = Code.array
type_of (merge_array n t e) = Code.arraym
type_of (merge_slice t e) = Code.arraym
type_of (dict k v) = Code.dict

-- The offset `ti.info[0].size * i` that the loops over elements use, as the index of the element
-- that stands there; `none` is an offset inside an element. For an array or a slice `doParse`
-- replaces `size`, the element's size in memory, by its length, which for a slice type is 0.
abbrev pub stride_index : ℕ → ℕ → ℕ → Option ℕ
stride_index stride real i = if stride * i % real == 0 then some (stride * i / real) else none

abbrev pub element_index : TypeInfo → ℕ → Option ℕ
element_index (slice t) i = some 0
element_index (merge_slice t e) i = some 0
element_index (array n e t) i = stride_index n (n * e) i
element_index (merge_array n t e) i = stride_index n (n * e) i
element_index _ i = some i

-- A Go value: the bytes in memory of a fixed-length value or of an array of such; the bytes of a
-- string; a time.Time, named by a number; what a pointer points to; the fields of a struct; the
-- elements of an array, and of a slice up to its length and behind it up to its capacity; for a
-- slice of fixed-length elements its length and the bytes in memory. A map is the list of the
-- assignments that made it, in the order in which they are visited.
mutual
  pub data Value : Type 0 where
    bytes : List ℕ → Value
    text : List ℕ → Value
    instant : ℕ → Value
    nil_pointer : Value
    pointee : Value → Value
    fields : Items → Value
    elements : Items → Value
    nil_slice : Value
    items : Items → Items → Value
    raw : ℕ → List ℕ → List ℕ → Value
    nil_map : Value
    entries : Entries → Value

  pub data Items : Type 0 where
    no_items : Items
    item : Value → Items → Items

  pub data Entries : Type 0 where
    no_entries : Entries
    pair : Value → Value → Entries → Entries

abbrev pub item_count : Items → ℕ
item_count no_items = 0
item_count (item v vs) = suc (item_count vs)

abbrev pub entry_count : Entries → ℕ
entry_count no_entries = 0
entry_count (pair k v es) = suc (entry_count es)

abbrev pub item_at : Items → ℕ → Option Value
item_at no_items i = none
item_at (item v vs) zero = some v
item_at (item v vs) (suc i) = item_at vs i

abbrev pub set_item : Items → ℕ → Value → Items
set_item no_items i w = no_items
set_item (item v vs) zero w = item w vs
set_item (item v vs) (suc i) w = item v (set_item vs i w)

abbrev pub append_items : Items → Items → Items
append_items no_items ws = ws
append_items (item v vs) ws = item v (append_items vs ws)

abbrev pub take_items : ℕ → Items → Items
take_items zero vs = no_items
take_items (suc n) no_items = no_items
take_items (suc n) (item v vs) = item v (take_items n vs)

abbrev pub drop_items : ℕ → Items → Items
drop_items zero vs = vs
drop_items (suc n) no_items = no_items
drop_items (suc n) (item v vs) = drop_items n vs

abbrev pub repeat_item : ℕ → Value → Items
repeat_item zero v = no_items
repeat_item (suc n) v = item v (repeat_item n v)

abbrev pub append_entries : Entries → Entries → Entries
append_entries no_entries fs = fs
append_entries (pair k v es) fs = pair k v (append_entries es fs)
