-- ===== src/TypeInfo/Parse.antt =====
-- tssd/typeinfo.go: `parse`, which chooses the functions for a Go type and writes the stream of type
-- codes that is hashed. What is parsed is the zero value of the type: its interfaces are nil, its
-- slices empty.
pub mod Shape
pub mod Stream
pub mod Unique
use tssdgo.Prelude.{
  ℕ, zero, suc, ◌+◌, Bool, true, false, ◌||◌, not, Option, none, some, List, [], ◌∷◌, ◌++◌, length,
  take, drop, ◌==◌, if◌then◌else◌,
}
use tssdgo.Wire.{Result, ok, panic, beyond, ◌>>=◌, le2}
use tssdgo.Wire.Code
use tssdgo.Buffer.Assemble.{same_text}
use tssdgo.TypeInfo.{
  TypeInfo, simple, str, time, pointer, object, array, slice, merge_array, merge_slice, dict, Infos,
  no_infos, info, info_count,
}
use tssdgo.Receiver.{starts_with}

-- The kinds of fixed length.
pub data Number : Type 0 where
  bool_kind int_kind int8_kind int16_kind int32_kind int64_kind : Number
  uint_kind uint8_kind uint16_kind uint32_kind uint64_kind uintptr_kind : Number
  float32_kind float64_kind : Number

-- What `reflect` shows of a field: whether it is exported, and its tag under the key tssd.
pub record FieldInfo : Type 0 where
  pub exported : Bool
  pub tag : List ℕ

-- A reflect.Type: its `String()` and its kind. `other_kind` are the kinds that are not supported.
mutual
  pub data GoType : Type 0 where
    go_type : List ℕ → Kind → GoType

  pub data Kind : Type 0 where
    number : Number → Kind
    string_kind : Kind
    pointer_kind : GoType → Kind
    struct_kind : GoFields → Kind
    array_kind : ℕ → GoType → Kind
    slice_kind : GoType → Kind
    map_kind : GoType → GoType → Kind
    interface_kind : Kind
    other_kind : Kind

  pub data GoFields : Type 0 where
    no_go_fields : GoFields
    go_field : FieldInfo → GoType → GoFields → GoFields

abbrev pub type_string : GoType → List ℕ
type_string (go_type name kind) = name

-- TSSD_FLAT_KIND
abbrev pub flat_kind : List ℕ
flat_kind = b't' ∷ b's' ∷ b's' ∷ b'd' ∷ b'.' ∷ b'F' ∷ b'l' ∷ b'a' ∷ b't' ∷ []

-- TSSD_TIME_KIND
abbrev pub time_kind : List ℕ
time_kind = b't' ∷ b'i' ∷ b'm' ∷ b'e' ∷ b'.' ∷ b'T' ∷ b'i' ∷ b'm' ∷ b'e' ∷ []

-- TSSD_FIELD_TAG_IGNORE
abbrev pub tag_ignore : List ℕ
tag_ignore = b'-' ∷ []

-- `toTSSDType`: uintptr falls to the default, which leaves 0.
abbrev pub to_tssd_type : Number → ℕ
to_tssd_type bool_kind = Code.bool
to_tssd_type int8_kind = Code.int8
to_tssd_type uint8_kind = Code.uint8
to_tssd_type int16_kind = Code.int16
to_tssd_type uint16_kind = Code.uint16
to_tssd_type int32_kind = Code.int32
to_tssd_type uint32_kind = Code.uint32
to_tssd_type int64_kind = Code.int64
to_tssd_type int_kind = Code.int64
to_tssd_type uint64_kind = Code.uint64
to_tssd_type uint_kind = Code.uint64
to_tssd_type float32_kind = Code.float32
to_tssd_type float64_kind = Code.float64
to_tssd_type uintptr_kind = 0

-- `strings.Split` at one byte.
abbrev pub join_first : ℕ → List (List ℕ) → List (List ℕ)
join_first x [] = (x ∷ []) ∷ []
join_first x (part ∷ parts) = (x ∷ part) ∷ parts

unfoldable pub split_at : ℕ → List ℕ → List (List ℕ)
split_at c [] = [] ∷ []
split_at c (x ∷ xs) = let parts = split_at c xs in if x == c then [] ∷ parts else join_first x parts

abbrev pub has_ignore : List (List ℕ) → Bool
has_ignore [] = false
has_ignore (t ∷ ts) = let later = has_ignore ts in same_text t tag_ignore || later

unfoldable pub should_ignore : FieldInfo → GoType → Bool
should_ignore f t =
    not f.exported || (starts_with flat_kind (type_string t) || has_ignore (split_at b',' f.tag))

-- The type stream, `root.stype`. `setType` adds a code, and for a time its subtype.
abbrev pub set_type : ℕ → List ℕ → List ℕ
set_type typ s = s ++ (typ ∷ (if typ == Code.time then Code.string ∷ [] else []))

-- `updateType` and the last lines for a struct write over what is there.
unfoldable pub write_over : ℕ → List ℕ → List ℕ → List ℕ
write_over pos bs s = take pos s ++ (bs ++ drop (pos + length bs) s)

-- What an array or a slice is, by whether its elements have a fixed length.
abbrev pub array_info : ℕ → ℕ → TypeInfo → TypeInfo
array_info n e (simple t size) = merge_array n t size
array_info n e t = array n e t

abbrev pub slice_info : TypeInfo → TypeInfo
slice_info (simple t size) = merge_slice t size
slice_info t = slice t

abbrev pub merge_stream : ℕ → TypeInfo → List ℕ → List ℕ
merge_stream pos (simple t size) s = write_over pos (Code.arraym ∷ []) s
merge_stream pos t s = s

abbrev pub go_field_count : GoFields → ℕ
go_field_count no_go_fields = 0
go_field_count (go_field f t fs) = suc (go_field_count fs)

-- A typeInfo, and the stream.
abbrev pub Parsed : Type 0
Parsed = Result (TypeInfo × List ℕ)

-- `size_of` is reflect.Type.Size.
module _ (size_of : GoType → ℕ) where
  -- `doParse`. For an unsupported kind it leaves a typeInfo without functions, which the model does
  -- not follow; a nil interface has no type to ask for its size.
  unfoldable mutual
    pub do_parse : GoType → List ℕ → List ℕ → Parsed
    do_parse (go_type name kind) typs s = parse_kind name kind (s ++ typs)

    pub parse_kind : List ℕ → Kind → List ℕ → Parsed
    parse_kind name (number k) s =
        ok
          (simple (to_tssd_type k) (size_of (go_type name (number k))), set_type (to_tssd_type k) s)
    parse_kind name string_kind s = ok (str, set_type Code.string s)
    parse_kind name (pointer_kind g) s = do_parse g [] s >>= λ (t, s1). ok (pointer t, s1)
    parse_kind name (struct_kind fs) s =
        let s1 = set_type Code.object s in
        let parsed = parse_fields fs (s1 ++ le2 (go_field_count fs)) in
        if same_text name time_kind
        then ok (time, set_type Code.time s)
        else parsed >>= λ (ts, s2). ok (object ts, write_over (length s1) (le2 (info_count ts)) s2)
    parse_kind name (array_kind n g) s = do_parse g [] (set_type Code.array s) >>= λ (t, s1).
        ok (array_info n (size_of g) t, merge_stream (length s) t s1)
    parse_kind name (slice_kind g) s = do_parse g [] (set_type Code.array s) >>= λ (t, s1).
        ok (slice_info t, merge_stream (length s) t s1)
    parse_kind name (map_kind k v) s =
        do_parse k (Code.dictk ∷ []) (set_type Code.dict s) >>= λ (kt, s1).
        do_parse v (Code.dictv ∷ []) s1 >>= λ (vt, s2). ok (dict kt vt, s2)
    parse_kind name interface_kind s = panic
    parse_kind name other_kind s = beyond

    -- The loop over the fields.
    pub parse_fields : GoFields → List ℕ → Result (Infos × List ℕ)
    parse_fields no_go_fields s = ok (no_infos, s)
    parse_fields (go_field f g fs) s =
        let parsed = do_parse g [] s in
        let skipped = parse_fields fs s in
        if should_ignore f g
        then skipped
        else parsed >>= λ (t, s1). parse_fields fs s1 >>= λ (ts, s2). ok (info t ts, s2)

  -- `parse`
  unfoldable pub parse : GoType → Parsed
  parse g = do_parse g [] []
