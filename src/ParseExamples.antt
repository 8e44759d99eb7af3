-- ===== src/ParseExamples.antt =====
-- A small struct with ignored fields, and a type of another name with the same shape.
use tssdgo.Prelude.{ℕ, ◌≡◌, refl, true, false, inl, inr, List, [], ◌∷◌, arith}
use tssdgo.Wire.{ok}
use tssdgo.TypeInfo.{
  TypeInfo, object, info, no_infos, simple, str, time, pointer, slice, merge_slice, dict,
}
use tssdgo.TypeInfo.Parse.{
  GoType, go_type, Kind, number, string_kind, pointer_kind, struct_kind, slice_kind, map_kind,
  interface_kind, FieldInfo, no_go_fields, go_field, bool_kind, int8_kind, uint8_kind, int32_kind,
  should_ignore, split_at, write_over, do_parse, parse, flat_kind, time_kind,
}
use tssdgo.TypeInfo.Parse.Shape.{Supported, shape_of, stream_of, info_shape}
use tssdgo.TypeInfo.Parse.Stream.{parse-stream}
use tssdgo.TypeInfo.Parse.Unique.{parse_unique}

-- reflect.Type.Size, for the numbers of this test, and a word for the rest.
abbrev small_size : GoType → ℕ
small_size (go_type name (number bool_kind)) = 1
small_size (go_type name (number uint8_kind)) = 1
small_size (go_type name (number int8_kind)) = 1
small_size (go_type name (number int32_kind)) = 4
small_size _ = 8

abbrev named : Kind → GoType
named kind = go_type [] kind

abbrev plain : FieldInfo
plain = record { exported = true; tag = [] }

abbrev hidden : FieldInfo
hidden = record { exported = false; tag = [] }

-- `tssd:"x,-"`
abbrev tagged : FieldInfo
tagged = record { exported = true; tag = b'x' ∷ b',' ∷ b'-' ∷ [] }

-- struct { Flat; A int32; h any; I any `tssd:"x,-"`; P *string; L []uint8; Q []*int8; T time.Time; M map[string]bool }
abbrev pupil : GoType
pupil = named (
    struct_kind (
      go_field plain (go_type flat_kind interface_kind) (
        go_field plain (named (number int32_kind)) (
          go_field hidden (named interface_kind) (
            go_field tagged (named interface_kind) (
              go_field plain (named (pointer_kind (named string_kind))) (
                go_field plain (named (slice_kind (named (number uint8_kind)))) (
                  go_field plain
                    (named (slice_kind (named (pointer_kind (named (number int8_kind))))))
                    (go_field plain (go_type time_kind (struct_kind no_go_fields)) (
                      go_field plain
                        (named (map_kind (named string_kind) (named (number bool_kind))))
                        no_go_fields))))))))))

-- The same without the ignored fields, and with a string in place of the pointer.
abbrev other_pupil : GoType
other_pupil = named (
    struct_kind (
      go_field plain (named (number int32_kind)) (
        go_field plain (named string_kind) (
          go_field plain (named (slice_kind (named (number uint8_kind)))) (
            go_field plain (named (slice_kind (named (pointer_kind (named (number int8_kind)))))) (
              go_field plain (go_type time_kind (struct_kind no_go_fields)) (
                go_field plain (named (map_kind (named string_kind) (named (number bool_kind))))
                  no_go_fields)))))))

abbrev pupil_info : TypeInfo
pupil_info = object (
    info (simple 16 4) (
      info (pointer str) (
        info (merge_slice 13 1) (
          info (slice (pointer (simple 12 1)))
            (info time (info (dict str (simple 11 1)) no_infos))))))

abbrev other_info : TypeInfo
other_info = object (
    info (simple 16 4) (
      info str (
        info (merge_slice 13 1) (
          info (slice (pointer (simple 12 1)))
            (info time (info (dict str (simple 11 1)) no_infos))))))

abbrev pupil_stream : List ℕ
pupil_stream = 27 ∷ 6 ∷ 0 ∷ 16 ∷ 22 ∷ 26 ∷ 13 ∷ 25 ∷ 12 ∷ 23 ∷ 22 ∷ 28 ∷ 29 ∷ 22 ∷ 30 ∷ 11 ∷ []

pupil_parsed : parse small_size pupil ≡ ok (pupil_info, pupil_stream)
unfolding parse do_parse should_ignore split_at write_over
pupil_parsed = refl

other_parsed : parse small_size other_pupil ≡ ok (other_info, pupil_stream)
unfolding parse do_parse should_ignore split_at write_over
other_parsed = refl

pupil-Supported : Supported pupil
unfolding Supported should_ignore split_at
pupil-Supported = inr (
  omega arith,
  (
    inl refl,
    (
      inr tt,
      (inl refl, (inl refl, (inr tt, (inr tt, (inr tt, (inr (inl refl), (inr (tt, tt), tt))))))),
    ),
  ),
)

other-Supported : Supported other_pupil
unfolding Supported should_ignore split_at
other-Supported =
    inr (omega arith, (inr tt, (inr tt, (inr tt, (inr tt, (inr (inl refl), (inr (tt, tt), tt)))))))

parse-stream_example :
    (t : TypeInfo) × (parse small_size pupil ≡ ok (t, stream_of (shape_of pupil)))
    × (info_shape t ≡ shape_of pupil)
parse-stream_example = parse-stream small_size pupil pupil-Supported

parse_unique_example :
    (shape_of pupil ≡ shape_of other_pupil) × (info_shape pupil_info ≡ info_shape other_info)
parse_unique_example =
    parse_unique small_size pupil other_pupil pupil_info other_info pupil_stream pupil-Supported
      other-Supported pupil_parsed other_parsed
