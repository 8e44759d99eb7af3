-- ===== src/ReadExamples.antt =====
-- Values are read from bytes of another shape, into maps, and into the tree that is printed.
use tssdgo.Prelude.{
  true, take, length, ℕ, ◌≡◌, refl, Option, none, some, List, [], ◌∷◌, ◌++◌, arith,
}
use tssdgo.TypeInfo.Dump.Truncated.{dump-take}
use tssdgo.Wire.{ok, err, insufficient_data, no_header, no_schema}
use tssdgo.Fragment.{Fragment}
use tssdgo.Buffer.{Buffer}
use tssdgo.Buffer.Write.State.{Frame, writer}
use tssdgo.Buffer.Read.{
  read, read_on, read_rest, read_byte, take_chunk, skip_used, check_dump_size, check_dump_sizet,
  dump_size2, dump_size4,
}
use tssdgo.Buffer.Read.Stream.{Holds}
use tssdgo.Buffer.Read.Yields.{Later}
use tssdgo.TypeInfo.{
  TypeInfo, simple, str, object, slice, merge_slice, no_infos, info, Value, bytes, text, fields,
  items, raw, no_items, item,
}
use tssdgo.TypeInfo.Typed.{
  Typed, is_simple, is_str, is_object, is_slice, is_merge_slice, no_fields, next_field, next_item,
  no_more_items,
}
use tssdgo.TypeInfo.Shaped.{Shaped, of_simple, of_object, of_merge_slice, of_no_fields, of_field}
use tssdgo.TypeInfo.Encode.{encode}
use tssdgo.TypeInfo.Fits.{Fits}
use tssdgo.TypeInfo.Dump.{dump, mem_dump, merge_slice_dump, merge_head}
use tssdgo.TypeInfo.Dump.Sound.{dump-Shaped}
use tssdgo.TypeInfo.Marshal.{writer-Holds}
use tssdgo.TypeInfo.MapDump.{map_dump}
use tssdgo.TypeInfo.MapDump.RoundTrip.{Alike, Plain, map_dump-encode}

abbrev no_format : ℕ → List ℕ
no_format t = []

abbrev no_parse : List ℕ → Option ℕ
no_parse s = none

abbrev wide : Frame
wide = record { schema = none; heads = []; len_checksum = 0; width = 100; pos = 0 }

abbrev one_piece : List ℕ → Fragment
one_piece payload = record {
  header = no_header;
  schema = no_schema;
  heads = [];
  payload = payload;
  spare = [];
  data_len = 0;
  checksum = [];
}

-- struct { A int16; B []int16 }, and a value with room for two in the slice.
abbrev pair_info : TypeInfo
pair_info = object (info (simple 14 2) (info (merge_slice 14 2) no_infos))

abbrev old_pair : Value
old_pair = fields (item (bytes (1 ∷ 0 ∷ [])) (item (raw 1 (2 ∷ 0 ∷ []) (3 ∷ 0 ∷ [])) no_items))

old_pair-Shaped : Shaped pair_info old_pair
old_pair-Shaped =
    of_object (of_field (of_simple refl) (of_field (of_merge_slice refl) of_no_fields))

-- The nil of an int16, and a slice whose one element is a byte short.
abbrev damaged : Buffer
damaged =
    writer wide []
      (one_piece (27 ∷ 3 ∷ 0 ∷ 0 ∷ 0 ∷ 2 ∷ 0 ∷ 242 ∷ 26 ∷ 14 ∷ 2 ∷ 0 ∷ 0 ∷ 0 ∷ 1 ∷ 0 ∷ 9 ∷ []))

abbrev damaged_rest : Buffer
damaged_rest = record damaged { size = 1; pos = 16 }

reads_damaged : dump no_parse pair_info damaged old_pair ≡ ok (old_pair, damaged_rest)
unfolding dump mem_dump merge_slice_dump merge_head read_byte read read_on read_rest take_chunk
    skip_used check_dump_size check_dump_sizet dump_size2 dump_size4
reads_damaged = refl

dump-Shaped_example : Shaped pair_info old_pair × Later damaged damaged_rest
dump-Shaped_example =
    dump-Shaped no_parse pair_info damaged damaged_rest old_pair old_pair old_pair-Shaped
      reads_damaged

-- struct { A int16; B []string; C []int16 }
abbrev row_info : TypeInfo
row_info = object (info (simple 14 2) (info (slice str) (info (merge_slice 14 2) no_infos)))

abbrev row : Value
row = fields (
    item (bytes (7 ∷ 1 ∷ [])) (
      item (items (item (text (65 ∷ [])) no_items) no_items)
        (item (raw 1 (5 ∷ 0 ∷ []) []) no_items)))

row-Typed : Typed row_info row
row-Typed = is_object (
    next_field (is_simple (omega arith) (omega arith) refl) (
      next_field (is_slice (λ i. refl) (next_item is_str no_more_items))
        (next_field (is_merge_slice refl) no_fields)))

row-Fits : Fits no_format no_parse row_info row
unfolding Fits encode
row-Fits = (
  (
    tt,
    (
      ((omega arith, tt), (omega arith, omega arith), refl),
      (((omega arith, omega arith), refl), tt),
    ),
  ),
  (omega arith, omega arith),
)

row-Plain : Plain row
unfolding Plain
row-Plain = (tt, ((omega arith, (tt, tt)), (omega arith, tt)))

abbrev row_piece : Fragment
row_piece = one_piece (
    27 ∷ 28 ∷ 0 ∷ 0 ∷ 0 ∷ 3 ∷ 0 ∷ 14 ∷ 7 ∷ 1 ∷ 25 ∷ 8 ∷ 0 ∷ 0 ∷ 0 ∷ 1 ∷ 0 ∷ 22 ∷ 1 ∷ 0 ∷ 0 ∷ 0 ∷ 65
    ∷ 26 ∷ 14 ∷ 4 ∷ 0 ∷ 0 ∷ 0 ∷ 1 ∷ 0 ∷ 5 ∷ 0 ∷ 9 ∷ [])

row-Holds : Holds (writer wide [] row_piece) (encode no_format row_info row ++ 9 ∷ [])
unfolding encode
row-Holds = writer-Holds wide [] row_piece (omega arith) refl tt

-- The same row, cut inside of the string.
abbrev cut_piece : Fragment
cut_piece =
    one_piece
      (27 ∷ 28 ∷ 0 ∷ 0 ∷ 0 ∷ 3 ∷ 0 ∷ 14 ∷ 7 ∷ 1 ∷ 25 ∷ 8 ∷ 0 ∷ 0 ∷ 0 ∷ 1 ∷ 0 ∷ 22 ∷ 1 ∷ 0 ∷ [])

cut-Holds : Holds (writer wide [] cut_piece) (take 20 (encode no_format row_info row))
unfolding encode
cut-Holds = writer-Holds wide [] cut_piece (omega arith) refl tt

length-row : length (encode no_format row_info row) ≡ 33
unfolding encode
length-row = refl

dump-take_example :
    dump no_parse row_info (writer wide [] cut_piece) old_pair ≡ err insufficient_data
dump-take_example =
    dump-take no_format no_parse row_info row old_pair (writer wide [] cut_piece) 20 row-Typed
      row-Fits (omega (arith, length-row)) cut-Holds

-- `Grow` makes room for one more.
map_dump-encode_example :
    (w : Value) × Alike w row
    × ((b' : Buffer) × (map_dump no_parse (λ t n. 1) true row_info (writer wide [] row_piece)
          ≡ ok (some w, b'))
        × Holds b' (9 ∷ []))
map_dump-encode_example =
    map_dump-encode no_format no_parse (λ t n. 1) row_info row (writer wide [] row_piece) (9 ∷ [])
      row-Typed row-Fits row-Plain row-Holds
