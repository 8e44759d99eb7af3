-- ===== src/TypeInfo/Parse/Stream.antt =====
-- The stream of type codes that `parse` writes, against the shape of the type.
use tssdgo.Prelude.{
  ℕ, suc, ◌+◌, ◌≡◌, refl, sym, ap, ◌∙◌, Bool, true, false, inl, inr, ◌⊎◌, List, [], ◌∷◌, ◌++◌,
  length, drop, append_assoc, append-nil, take-append, drop-append, length-append, arith,
  Bool-cases,
}
use tssdgo.Wire.{Result, ok, le2}
use tssdgo.Wire.Code
use tssdgo.Buffer.Assemble.{same_text}
use tssdgo.TypeInfo.{
  TypeInfo, simple, str, time, pointer, object, array, slice, merge_array, merge_slice, dict, Infos,
  no_infos, info, info_count,
}
use tssdgo.TypeInfo.Parse.{
  GoType, go_type, FieldInfo, Kind, Number, number, string_kind, pointer_kind, struct_kind,
  array_kind, slice_kind, map_kind, interface_kind, other_kind, bool_kind, int_kind, int8_kind,
  int16_kind, int32_kind, int64_kind, uint_kind, uint8_kind, uint16_kind, uint32_kind, uint64_kind,
  uintptr_kind, float32_kind, float64_kind, GoFields, no_go_fields, go_field, go_field_count,
  to_tssd_type, should_ignore, time_kind, set_type, write_over, array_info, slice_info,
  merge_stream, do_parse, parse_kind, parse_fields, parse,
}
use tssdgo.TypeInfo.Parse.Shape.{
  Shape, Shapes, shape_count, is_number, list_of, shape_of, kind_shape, field_shapes, stream_of,
  streams_of, info_shape, info_shapes, Supported, SupportedKind, SupportedFields,
}

number_stream : (k : Number) (s : List ℕ) → set_type (to_tssd_type k) s ≡ s ++ (to_tssd_type k ∷ [])
number_stream bool_kind s = refl
number_stream int_kind s = refl
number_stream int8_kind s = refl
number_stream int16_kind s = refl
number_stream int32_kind s = refl
number_stream int64_kind s = refl
number_stream uint_kind s = refl
number_stream uint8_kind s = refl
number_stream uint16_kind s = refl
number_stream uint32_kind s = refl
number_stream uint64_kind s = refl
number_stream uintptr_kind s = refl
number_stream float32_kind s = refl
number_stream float64_kind s = refl

write_over-append :
    (s old new rest : List ℕ)
    → length old ≡ length new
    → write_over (length s) new (s ++ (old ++ rest)) ≡ s ++ (new ++ rest)
unfolding write_over
write_over-append s old new rest e =
    let front = take-append (length s) s (old ++ rest) refl in
    let back : drop (length s + length new) (s ++ (old ++ rest)) ≡ rest =
      ap (drop (length s + length new)) (sym (append_assoc s old rest))
      ∙ drop-append (length s + length new) (s ++ old) rest
          (omega (arith, length-append s old, e)) in
    rw (front, back) refl

-- Whether the functions of a typeInfo are those of a number.
abbrev is_simple : TypeInfo → Bool
is_simple (simple t n) = true
is_simple _ = false

array_info_shape :
    (n e : ℕ) (t : TypeInfo)
    → (info_shape (array_info n e t) ≡ list_of (is_simple t) (info_shape t))
      × (is_simple (array_info n e t) ≡ false)
unfolding info_shape
array_info_shape n e (simple c m) = (refl, refl)
array_info_shape n e str = (refl, refl)
array_info_shape n e time = (refl, refl)
array_info_shape n e (pointer t) = (refl, refl)
array_info_shape n e (object ts) = (refl, refl)
array_info_shape n e (array m f t) = (refl, refl)
array_info_shape n e (slice t) = (refl, refl)
array_info_shape n e (merge_array m c f) = (refl, refl)
array_info_shape n e (merge_slice c f) = (refl, refl)
array_info_shape n e (dict k v) = (refl, refl)

slice_info_shape :
    (t : TypeInfo)
    → (info_shape (slice_info t) ≡ list_of (is_simple t) (info_shape t))
      × (is_simple (slice_info t) ≡ false)
unfolding info_shape
slice_info_shape (simple c m) = (refl, refl)
slice_info_shape str = (refl, refl)
slice_info_shape time = (refl, refl)
slice_info_shape (pointer t) = (refl, refl)
slice_info_shape (object ts) = (refl, refl)
slice_info_shape (array m f t) = (refl, refl)
slice_info_shape (slice t) = (refl, refl)
slice_info_shape (merge_array m c f) = (refl, refl)
slice_info_shape (merge_slice c f) = (refl, refl)
slice_info_shape (dict k v) = (refl, refl)

merge_stream_lem :
    (s : List ℕ) (t : TypeInfo) (a : Shape)
    → merge_stream (length s) t (s ++ (Code.array ∷ stream_of a))
      ≡ s ++ stream_of (list_of (is_simple t) a)
unfolding stream_of
merge_stream_lem s (simple c m) a =
    write_over-append s (Code.array ∷ []) (Code.arraym ∷ []) (stream_of a) refl
merge_stream_lem s str a = refl
merge_stream_lem s time a = refl
merge_stream_lem s (pointer t) a = refl
merge_stream_lem s (object ts) a = refl
merge_stream_lem s (array m f t) a = refl
merge_stream_lem s (slice t) a = refl
merge_stream_lem s (merge_array m c f) a = refl
merge_stream_lem s (merge_slice c f) a = refl
merge_stream_lem s (dict k v) a = refl

info_count_lem : (ts : Infos) → info_count ts ≡ shape_count (info_shapes ts)
unfolding info_shapes
info_count_lem no_infos = refl
info_count_lem (info t ts) = ap suc (info_count_lem ts)

module _ (size_of : GoType → ℕ) where
  -- A call that adds the stream of the shape to `s` and leaves functions of that shape.
  abbrev pub Adds : Result (TypeInfo × List ℕ) → List ℕ → Shape → Bool → Type 0
  Adds m s a merges =
      (t : TypeInfo) × (m ≡ ok (t, s ++ stream_of a)) × (info_shape t ≡ a) × (is_simple t ≡ merges)

  abbrev AddsFields : Result (Infos × List ℕ) → List ℕ → Shapes → Type 0
  AddsFields m s bs = (ts : Infos) × (m ≡ ok (ts, s ++ streams_of bs)) × (info_shapes ts ≡ bs)

  list_lem :
      (t : TypeInfo) (g : GoType)
      → info_shape t ≡ shape_of g
      → is_simple t ≡ is_number g
      → list_of (is_simple t) (info_shape t) ≡ list_of (is_number g) (shape_of g)
  list_lem t g same merges = rw (same, merges) refl

  list_stream :
      (s : List ℕ) (t : TypeInfo) (g : GoType)
      → is_simple t ≡ is_number g
      → merge_stream (length s) t (((s ++ (Code.array ∷ [])) ++ []) ++ stream_of (shape_of g))
        ≡ s ++ stream_of (list_of (is_number g) (shape_of g))
  list_stream s t g merges =
      let nil = append-nil (s ++ (Code.array ∷ [])) in
      let grouped = append_assoc s (Code.array ∷ []) (stream_of (shape_of g)) in
      rw (nil, grouped)
        (merge_stream_lem s t (shape_of g)
          ∙ ap (λ b. s ++ stream_of (list_of b (shape_of g))) merges)

  regroup_dict :
      (s k v : List ℕ)
      → ((((s ++ (Code.dict ∷ [])) ++ (Code.dictk ∷ [])) ++ k) ++ (Code.dictv ∷ [])) ++ v
        ≡ s ++ (Code.dict ∷ Code.dictk ∷ (k ++ (Code.dictv ∷ v)))
  regroup_dict s k v = simp append_assoc

  object_stream :
      (s num : List ℕ) (ts : Infos) (bs : Shapes)
      → info_shapes ts ≡ bs
      → length num ≡ 2
      → write_over
          (length (s ++ (Code.object ∷ [])))
          (le2 (info_count ts))
          (((s ++ (Code.object ∷ [])) ++ num) ++ streams_of bs)
        ≡ s ++ (Code.object ∷ (le2 (shape_count bs) ++ streams_of bs))
  object_stream s num ts bs same two =
      let s1 = s ++ (Code.object ∷ []) in
      let grouped = append_assoc s1 num (streams_of bs) in
      let written = write_over-append s1 num (le2 (info_count ts)) (streams_of bs) two in
      let count = info_count_lem ts ∙ ap shape_count same in
      rw (grouped, written, count)
        (append_assoc s (Code.object ∷ []) (le2 (shape_count bs) ++ streams_of bs))

  supported_struct :
      (name : List ℕ) (fs : GoFields)
      → same_text name time_kind ≡ false
      → SupportedKind name (struct_kind fs)
      → SupportedFields fs
  unfolding SupportedKind
  supported_struct name fs z (inl y) = absurd cc
  supported_struct name fs z (inr y) = y.1

  supported_field :
      (f : FieldInfo) (g : GoType)
      → should_ignore f g ≡ false
      → ((should_ignore f g ≡ true) ⊎ Supported g)
      → Supported g
  supported_field f g z (inl y) = absurd cc
  supported_field f g z (inr y) = y

  mutual
    unfolding do_parse shape_of Supported stream_of info_shape

    do_parse_lem :
        (g : GoType) (typs s : List ℕ)
        → Supported g
        → Adds (do_parse size_of g typs s) (s ++ typs) (shape_of g) (is_number g)
    do_parse_lem (go_type name kind) typs s h = parse_kind_lem name kind (s ++ typs) h

    parse_kind_lem :
        (name : List ℕ) (kind : Kind) (s : List ℕ)
        → SupportedKind name kind
        → Adds
            (parse_kind size_of name kind s)
            s
            (kind_shape name kind)
            (is_number (go_type name kind))
    parse_kind_lem name (number k) s h =
        let t = simple (to_tssd_type k) (size_of (go_type name (number k))) in
        (t, ap (λ u. ok (t, u)) (number_stream k s), refl, refl)
    parse_kind_lem name string_kind s h = (str, refl, refl, refl)
    parse_kind_lem name (pointer_kind g) s h =
        let (t, e, same, merges) = do_parse_lem g [] s h in
        let here = e ∙ ap (λ u. ok (t, u ++ stream_of (shape_of g))) (append-nil s) in
        (pointer t, rw here refl, same, refl)
    parse_kind_lem name (struct_kind fs) s h = elim (Bool-cases (same_text name time_kind)) [
      | inl z ↦ (time, rw z refl, rw z refl, refl)
      | inr z ↦
          let s1 = s ++ (Code.object ∷ []) in
          let num = le2 (go_field_count fs) in
          let (ts, e, same) = parse_fields_lem fs (s1 ++ num) (supported_struct name fs z h) in
          let counted = object_stream s num ts (field_shapes fs) same refl in
          (object ts, rw (z, e, counted) refl, rw (z, same) refl, refl)
    ]
    parse_kind_lem name (array_kind n g) s h =
        let (t, e, same, merges) = do_parse_lem g [] (s ++ (Code.array ∷ [])) h in
        let (listed, not_simple) = array_info_shape n (size_of g) t in
        let shapes = listed ∙ list_lem t g same merges in
        (array_info n (size_of g) t, rw (e, list_stream s t g merges) refl, shapes, not_simple)
    parse_kind_lem name (slice_kind g) s h =
        let (t, e, same, merges) = do_parse_lem g [] (s ++ (Code.array ∷ [])) h in
        let (listed, not_simple) = slice_info_shape t in
        let shapes = listed ∙ list_lem t g same merges in
        (slice_info t, rw (e, list_stream s t g merges) refl, shapes, not_simple)
    parse_kind_lem name (map_kind k v) s h =
        let (kt, e, same, merges) = do_parse_lem k (Code.dictk ∷ []) (s ++ (Code.dict ∷ [])) h.0 in
        let before = ((s ++ (Code.dict ∷ [])) ++ (Code.dictk ∷ [])) ++ stream_of (shape_of k) in
        let (vt, e2, same2, merges2) = do_parse_lem v (Code.dictv ∷ []) before h.1 in
        let grouped = regroup_dict s (stream_of (shape_of k)) (stream_of (shape_of v)) in
        (dict kt vt, rw (e, e2, grouped) refl, rw (same, same2) refl, refl)
    parse_kind_lem name interface_kind s h = absurd h
    parse_kind_lem name other_kind s h = absurd h

    parse_fields_lem :
        (fs : GoFields) (s : List ℕ)
        → SupportedFields fs
        → AddsFields (parse_fields size_of fs s) s (field_shapes fs)
    parse_fields_lem no_go_fields s h =
        (no_infos, ap (λ u. ok (no_infos, u)) (sym (append-nil s)), refl)
    parse_fields_lem (go_field f g fs) s h = elim (Bool-cases (should_ignore f g)) [
      | inl z ↦
          let (ts, e, same) = parse_fields_lem fs s h.1 in (ts, rw (z, e) refl, rw (z, same) refl)
      | inr z ↦
          let (t, e, same, merges) = do_parse_lem g [] s (supported_field f g z h.0) in
          let here = e ∙ ap (λ u. ok (t, u ++ stream_of (shape_of g))) (append-nil s) in
          let (ts, e2, same2) = parse_fields_lem fs (s ++ stream_of (shape_of g)) h.1 in
          let grouped = append_assoc s (stream_of (shape_of g)) (streams_of (field_shapes fs)) in
          (info t ts, rw (z, here, e2, grouped) refl, rw (z, same, same2) refl)
    ]

-- For a supported type `parse` succeeds. The stream is that of the type's shape, also where the code
-- of an array and the number of fields are written over later, and the functions chosen are those
-- for that shape.
pub parse-stream :
    (size_of : GoType → ℕ) (g : GoType)
    → Supported g
    → (t : TypeInfo) × (parse size_of g ≡ ok (t, stream_of (shape_of g)))
      × (info_shape t ≡ shape_of g)
unfolding parse
parse-stream size_of g h = let (t, e, same, merges) = do_parse_lem size_of g [] [] h in (t, e, same)
