-- ===== src/TypeInfo/Parse/Shape.antt =====
-- What of a Go type is on the wire: pointers are followed, ignored fields left out, arrays and slices
-- alike; and the stream of type codes that stands for it. The elements of a list are merged when
-- they are numbers, and not when they are pointers to numbers.
use tssdgo.Prelude.{ℕ, suc, Bool, true, false, ◌≡◌, ◌⊎◌, List, [], ◌∷◌, ◌++◌, ◌<◌, if◌then◌else◌}
use tssdgo.TypeInfo.{
  TypeInfo, simple, str, time, pointer, object, array, slice, merge_array, merge_slice, dict, Infos,
  no_infos, info,
}
use tssdgo.Wire.{le2}
use tssdgo.Wire.Code
use tssdgo.Buffer.Assemble.{same_text}
use tssdgo.TypeInfo.Parse.{
  GoType, go_type, Kind, number, string_kind, pointer_kind, struct_kind, array_kind, slice_kind,
  map_kind, interface_kind, other_kind, GoFields, no_go_fields, go_field, go_field_count,
  to_tssd_type, should_ignore, time_kind,
}

mutual
  pub data Shape : Type 0 where
    code_shape : ℕ → Shape
    text_shape time_shape unknown : Shape
    object_shape : Shapes → Shape
    list_shape merged_shape : Shape → Shape
    dict_shape : Shape → Shape → Shape

  pub data Shapes : Type 0 where
    no_shapes : Shapes
    shape : Shape → Shapes → Shapes

abbrev pub shape_count : Shapes → ℕ
shape_count no_shapes = 0
shape_count (shape a bs) = suc (shape_count bs)

abbrev pub is_number : GoType → Bool
is_number (go_type name (number k)) = true
is_number _ = false

abbrev pub list_of : Bool → Shape → Shape
list_of true a = merged_shape a
list_of false a = list_shape a

unfoldable mutual
  pub shape_of : GoType → Shape
  shape_of (go_type name kind) = kind_shape name kind

  pub kind_shape : List ℕ → Kind → Shape
  kind_shape name (number k) = code_shape (to_tssd_type k)
  kind_shape name string_kind = text_shape
  kind_shape name (pointer_kind g) = shape_of g
  kind_shape name (struct_kind fs) =
      let bs = field_shapes fs in if same_text name time_kind then time_shape else object_shape bs
  kind_shape name (array_kind n g) = list_of (is_number g) (shape_of g)
  kind_shape name (slice_kind g) = list_of (is_number g) (shape_of g)
  kind_shape name (map_kind k v) = dict_shape (shape_of k) (shape_of v)
  kind_shape name interface_kind = unknown
  kind_shape name other_kind = unknown

  pub field_shapes : GoFields → Shapes
  field_shapes no_go_fields = no_shapes
  field_shapes (go_field f g fs) =
      let a = shape_of g in let bs = field_shapes fs in if should_ignore f g then bs else shape a bs

-- The codes of a shape.
unfoldable mutual
  pub stream_of : Shape → List ℕ
  stream_of (code_shape c) = c ∷ []
  stream_of text_shape = Code.string ∷ []
  stream_of time_shape = Code.time ∷ Code.string ∷ []
  stream_of unknown = []
  stream_of (object_shape bs) = Code.object ∷ (le2 (shape_count bs) ++ streams_of bs)
  stream_of (list_shape a) = Code.array ∷ stream_of a
  stream_of (merged_shape a) = Code.arraym ∷ stream_of a
  stream_of (dict_shape k v) = Code.dict ∷ Code.dictk ∷ (stream_of k ++ (Code.dictv ∷ stream_of v))

  pub streams_of : Shapes → List ℕ
  streams_of no_shapes = []
  streams_of (shape a bs) = stream_of a ++ streams_of bs

-- The shape that the functions of a typeInfo read and write.
unfoldable mutual
  pub info_shape : TypeInfo → Shape
  info_shape (simple t n) = code_shape t
  info_shape str = text_shape
  info_shape time = time_shape
  info_shape (pointer t) = info_shape t
  info_shape (object ts) = object_shape (info_shapes ts)
  info_shape (array n e t) = list_shape (info_shape t)
  info_shape (slice t) = list_shape (info_shape t)
  info_shape (merge_array n t e) = merged_shape (code_shape t)
  info_shape (merge_slice t e) = merged_shape (code_shape t)
  info_shape (dict k v) = dict_shape (info_shape k) (info_shape v)

  pub info_shapes : Infos → Shapes
  info_shapes no_infos = no_shapes
  info_shapes (info t ts) = shape (info_shape t) (info_shapes ts)

-- The types that the format supports: no interface, channel, function or complex number in what is
-- not ignored, and fewer fields than an int16 counts without a sign.
unfoldable mutual
  pub Supported : GoType → Type 0
  Supported (go_type name kind) = SupportedKind name kind

  pub SupportedKind : List ℕ → Kind → Type 0
  SupportedKind name (number k) = Unit
  SupportedKind name string_kind = Unit
  SupportedKind name (pointer_kind g) = Supported g
  SupportedKind name (struct_kind fs) =
      (same_text name time_kind ≡ true) ⊎ ((go_field_count fs < 0x10000) × SupportedFields fs)
  SupportedKind name (array_kind n g) = Supported g
  SupportedKind name (slice_kind g) = Supported g
  SupportedKind name (map_kind k v) = Supported k × Supported v
  SupportedKind name interface_kind = ⊥
  SupportedKind name other_kind = ⊥

  pub SupportedFields : GoFields → Type 0
  SupportedFields no_go_fields = Unit
  SupportedFields (go_field f g fs) =
      ((should_ignore f g ≡ true) ⊎ Supported g) × SupportedFields fs
