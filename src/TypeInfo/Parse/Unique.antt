-- ===== src/TypeInfo/Parse/Unique.antt =====
-- The stream of type codes can be read back, so that it tells the shape.
use tssdgo.Prelude.{
  ℕ, zero, suc, ◌+◌, ◌≤◌, ◌<◌, ◌≡◌, refl, ap, ◌∙◌, Bool, true, false, inl, inr, Option, none, some,
  List, [], ◌∷◌, ◌++◌, take, drop, append_assoc, arith, if◌then◌else◌, ◌==◌, Bool-cases,
}
use tssdgo.Wire.{ok, le2, of_le}
use tssdgo.Wire.Code
use tssdgo.Buffer.Assemble.{same_text}
use tssdgo.TypeInfo.{TypeInfo}
use tssdgo.TypeInfo.Parse.{
  GoType, go_type, Kind, Number, number, string_kind, pointer_kind, struct_kind, array_kind,
  slice_kind, map_kind, interface_kind, other_kind, bool_kind, int_kind, int8_kind, int16_kind,
  int32_kind, int64_kind, uint_kind, uint8_kind, uint16_kind, uint32_kind, uint64_kind,
  uintptr_kind, float32_kind, float64_kind, GoFields, no_go_fields, go_field, go_field_count,
  to_tssd_type, should_ignore, time_kind, parse,
}
use tssdgo.TypeInfo.Parse.Shape.{
  Shape, Shapes, code_shape, text_shape, time_shape, unknown, object_shape, list_shape,
  merged_shape, dict_shape, no_shapes, shape, shape_count, is_number, list_of, shape_of, kind_shape,
  field_shapes, stream_of, streams_of, info_shape, Supported, SupportedKind, SupportedFields,
}
use tssdgo.TypeInfo.Parse.Stream.{parse-stream}

data Head : Type 0 where
  is_text is_time is_object is_list is_merged is_dict is_code : Head

abbrev head_of : ℕ → Head
head_of c =
    if c == Code.string
    then is_text
    else if c == Code.time
    then is_time
    else if c == Code.object
    then is_object
    else if c == Code.array
    then is_list
    else if c == Code.arraym
    then is_merged
    else if c == Code.dict
    then is_dict
    else is_code

-- A part of the stream read, and what is behind it.
abbrev after {ℓ κ} :
    {A : Type ℓ} {B : Type κ} → Option (A × List ℕ) → (A → List ℕ → Option B) → Option B
after none f = none
after (some (a, s)) f = f a s

unfoldable mutual
  read_shape : ℕ → List ℕ → Option (Shape × List ℕ)
  read_shape zero s = none
  read_shape (suc n) [] = none
  read_shape (suc n) (c ∷ s) = elim (head_of c) [
    | is_text ↦ some (text_shape, s)
    | is_time ↦ some (time_shape, drop 1 s)
    | is_object ↦
        after (read_shapes n (of_le (take 2 s)) (drop 2 s)) λ bs r. some (object_shape bs, r)
    | is_list ↦ after (read_shape n s) λ a r. some (list_shape a, r)
    | is_merged ↦ after (read_shape n s) λ a r. some (merged_shape a, r)
    | is_dict ↦
        after (read_shape n (drop 1 s))
          λ k r. after (read_shape n (drop 1 r)) λ v r2. some (dict_shape k v, r2)
    | is_code ↦ some (code_shape c, s)
  ]

  read_shapes : ℕ → ℕ → List ℕ → Option (Shapes × List ℕ)
  read_shapes n zero s = some (no_shapes, s)
  read_shapes zero (suc k) s = none
  read_shapes (suc n) (suc k) s =
      after (read_shape n s) λ a r. after (read_shapes n k r) λ bs r2. some (shape a bs, r2)

abbrev mutual
  size : Shape → ℕ
  size (code_shape c) = 1
  size text_shape = 1
  size time_shape = 1
  size unknown = 1
  size (object_shape bs) = suc (sizes bs)
  size (list_shape a) = suc (size a)
  size (merged_shape a) = suc (size a)
  size (dict_shape k v) = suc (size k + size v)

  sizes : Shapes → ℕ
  sizes no_shapes = 0
  sizes (shape a bs) = suc (size a + sizes bs)

-- The shapes of which the stream can be read.
unfoldable mutual
  IsPlain : Shape → Type 0
  IsPlain (code_shape c) = head_of c ≡ is_code
  IsPlain text_shape = Unit
  IsPlain time_shape = Unit
  IsPlain unknown = ⊥
  IsPlain (object_shape bs) = (shape_count bs < 0x10000) × ArePlain bs
  IsPlain (list_shape a) = IsPlain a
  IsPlain (merged_shape a) = IsPlain a
  IsPlain (dict_shape k v) = IsPlain k × IsPlain v

  ArePlain : Shapes → Type 0
  ArePlain no_shapes = Unit
  ArePlain (shape a bs) = IsPlain a × ArePlain bs

two_bytes : (n : ℕ) → n < 0x10000 → of_le (le2 n) ≡ n
two_bytes n h = omega arith

more_fuel : (m k : ℕ) → suc m + k ≡ suc (m + k)
more_fuel m k = omega arith

one_more : (k : ℕ) → 1 + k ≡ suc k
one_more k = omega arith

mutual
  unfolding read_shape IsPlain stream_of

  read_stream :
      (a : Shape) (k : ℕ) (r : List ℕ)
      → IsPlain a
      → read_shape (size a + k) (stream_of a ++ r) ≡ some (a, r)
  read_stream (code_shape c) k r h = rw (one_more k, read_shape, h) refl
  read_stream text_shape k r h = rw (one_more k) refl
  read_stream time_shape k r h = rw (one_more k) refl
  read_stream unknown k r h = absurd h
  read_stream (object_shape bs) k r h =
      rw (more_fuel (sizes bs) k)
        (rw (two_bytes (shape_count bs) h.0, read_streams bs k r h.1) refl)
  read_stream (list_shape a) k r h = rw (more_fuel (size a) k) (rw (read_stream a k r h) refl)
  read_stream (merged_shape a) k r h = rw (more_fuel (size a) k) (rw (read_stream a k r h) refl)
  read_stream (dict_shape a b) k r h =
      let one = read_stream a (size b + k) (Code.dictv ∷ (stream_of b ++ r)) h.0 in
      let two = read_stream b (size a + k) r h.1 in
      let f1 : suc (size a + size b) + k ≡ suc (size a + (size b + k)) = omega arith in
      let f2 : size a + (size b + k) ≡ size b + (size a + k) = omega arith in
      let grouped = append_assoc (stream_of a) (Code.dictv ∷ stream_of b) r in
      let value : read_shape (size a + (size b + k)) (stream_of b ++ r) ≡ some (b, r) =
        ap (λ n. read_shape n (stream_of b ++ r)) f2 ∙ two in
      rw f1 (rw (grouped, one) (rw value refl))

  read_streams :
      (bs : Shapes) (k : ℕ) (r : List ℕ)
      → ArePlain bs
      → read_shapes (sizes bs + k) (shape_count bs) (streams_of bs ++ r) ≡ some (bs, r)
  read_streams no_shapes k r h = refl
  read_streams (shape a bs) k r h =
      let one = read_stream a (sizes bs + k) (streams_of bs ++ r) h.0 in
      let two = read_streams bs (size a + k) r h.1 in
      let f1 : suc (size a + sizes bs) + k ≡ suc (size a + (sizes bs + k)) = omega arith in
      let f2 : size a + (sizes bs + k) ≡ sizes bs + (size a + k) = omega arith in
      let grouped = append_assoc (stream_of a) (streams_of bs) r in
      let others : read_shapes (size a + (sizes bs + k)) (shape_count bs) (streams_of bs ++ r)
          ≡ some (bs, r) =
        ap (λ n. read_shapes n (shape_count bs) (streams_of bs ++ r)) f2 ∙ two in
      rw f1 (rw (grouped, one) (rw others refl))

two_plain : (a b : Shape) → IsPlain a → IsPlain b → stream_of a ≡ stream_of b → a ≡ b
two_plain a b ha hb e =
    let read_a = read_stream a (size b) [] ha in
    let read_b = read_stream b (size a) [] hb in
    let fuel : size b + size a ≡ size a + size b = omega arith in
    let same : read_shape (size a + size b) (stream_of a ++ []) ≡ some (b, []) =
      rw (e, ← fuel) read_b in
    cc

number-IsPlain : (k : Number) → head_of (to_tssd_type k) ≡ is_code
number-IsPlain bool_kind = refl
number-IsPlain int_kind = refl
number-IsPlain int8_kind = refl
number-IsPlain int16_kind = refl
number-IsPlain int32_kind = refl
number-IsPlain int64_kind = refl
number-IsPlain uint_kind = refl
number-IsPlain uint8_kind = refl
number-IsPlain uint16_kind = refl
number-IsPlain uint32_kind = refl
number-IsPlain uint64_kind = refl
number-IsPlain uintptr_kind = refl
number-IsPlain float32_kind = refl
number-IsPlain float64_kind = refl

list_of-IsPlain : (b : Bool) (a : Shape) → IsPlain a → IsPlain (list_of b a)
unfolding IsPlain
list_of-IsPlain true a h = h
list_of-IsPlain false a h = h

field_shapes_le : (fs : GoFields) → shape_count (field_shapes fs) ≤ go_field_count fs
unfolding field_shapes
field_shapes_le no_go_fields = omega arith
field_shapes_le (go_field f g fs) = elim (Bool-cases (should_ignore f g)) [
  | inl z ↦ rw z (omega (arith, field_shapes_le fs))
  | inr z ↦ rw z (omega (arith, field_shapes_le fs))
]

mutual
  unfolding Supported shape_of IsPlain

  Supported-IsPlain : (g : GoType) → Supported g → IsPlain (shape_of g)
  Supported-IsPlain (go_type name kind) h = kind-IsPlain name kind h

  kind-IsPlain :
      (name : List ℕ) (kind : Kind) → SupportedKind name kind → IsPlain (kind_shape name kind)
  kind-IsPlain name (number k) h = number-IsPlain k
  kind-IsPlain name string_kind h = tt
  kind-IsPlain name (pointer_kind g) h = Supported-IsPlain g h
  kind-IsPlain name (struct_kind fs) h = elim (Bool-cases (same_text name time_kind)) [
    | inl z ↦ rw z tt
    | inr z ↦ elim h [
      | inl y ↦ absurd cc
      | inr y ↦ rw z (omega (arith, y.0, field_shapes_le fs), fields-ArePlain fs y.1)
    ]
  ]
  kind-IsPlain name (array_kind n g) h =
      list_of-IsPlain (is_number g) (shape_of g) (Supported-IsPlain g h)
  kind-IsPlain name (slice_kind g) h =
      list_of-IsPlain (is_number g) (shape_of g) (Supported-IsPlain g h)
  kind-IsPlain name (map_kind k v) h = (Supported-IsPlain k h.0, Supported-IsPlain v h.1)
  kind-IsPlain name interface_kind h = h
  kind-IsPlain name other_kind h = h

  fields-ArePlain : (fs : GoFields) → SupportedFields fs → ArePlain (field_shapes fs)
  fields-ArePlain no_go_fields h = tt
  fields-ArePlain (go_field f g fs) h = elim (Bool-cases (should_ignore f g)) [
    | inl z ↦ rw z (fields-ArePlain fs h.1)
    | inr z ↦ elim h.0 [
      | inl y ↦ absurd cc
      | inr y ↦ rw z (Supported-IsPlain g y, fields-ArePlain fs h.1)
    ]
  ]

-- Two supported types for which `parse` writes the same stream have the same shape on the wire, and
-- so have the functions chosen for them: no stream stands for two formats.
pub parse_unique :
    (size_of : GoType → ℕ) (g h : GoType) (t u : TypeInfo) (s : List ℕ)
    → Supported g
    → Supported h
    → parse size_of g ≡ ok (t, s)
    → parse size_of h ≡ ok (u, s)
    → (shape_of g ≡ shape_of h) × (info_shape t ≡ info_shape u)
parse_unique size_of g h t u s hg hh eg eh =
    let (t', pg, st) = parse-stream size_of g hg in
    let (u', ph, su) = parse-stream size_of h hh in
    let streams : stream_of (shape_of g) ≡ stream_of (shape_of h) = cc in
    let same =
      two_plain (shape_of g) (shape_of h) (Supported-IsPlain g hg) (Supported-IsPlain h hh)
        streams in
    let of_t : t ≡ t' = cc in let of_u : u ≡ u' = cc in (same, cc)
