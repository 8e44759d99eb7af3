-- ===== src/Examples.antt =====
-- Tests of the operations on small inputs, and the theorems applied to concrete ones.
use tssdgo.Prelude.{inr, ℕ, ◌+◌, ◌≡◌, refl, Option, none, some, List, [], ◌∷◌, ◌++◌, length, arith}
use tssdgo.Wire.{ok, panic, no_header, no_schema}
use tssdgo.Fragment.{Fragment, raw_data}
use tssdgo.Buffer.{Buffer, new_buffer, payloads, fragment_count}
use tssdgo.Buffer.Write.{append}
use tssdgo.Buffer.Write.State.{Frame, entries, writer, AllFull, IsOpen}
use tssdgo.Buffer.Write.Rounds.{Appended, append-Appended}
use tssdgo.Buffer.Read.{read, rewind, clear}
use tssdgo.Buffer.Read.Again.{rewind-Holds, append-clear}
use tssdgo.Buffer.Read.Stream.{Holds, TakesFrom, read-TakesFrom}
use tssdgo.Buffer.Assemble.{push, wanted, wanted_loop}
use tssdgo.Buffer.Assemble.Wanted.{Answer, wanted-Answer}
use tssdgo.Buffer.Assemble.Push.{IsCounted, push-IsCounted}
use tssdgo.TypeInfo.{
  TypeInfo, simple, str, pointer, object, slice, merge_slice, dict, no_infos, info, Value, bytes,
  text, pointee, fields, items, raw, entries as map_entries, no_items, item, no_entries, pair,
}
use tssdgo.TypeInfo.Typed.{
  Typed, is_simple, is_str, is_pointee, is_object, is_slice, is_merge_slice, is_map, no_fields,
  next_field, no_more_items, next_item, no_more_entries, next_entry,
}
use tssdgo.TypeInfo.Encode.{encode}
use tssdgo.TypeInfo.Fits.{Fits}
use tssdgo.TypeInfo.Save.{save, map_save}
use tssdgo.TypeInfo.Saveable.{Saveable, MapSaveable}
use tssdgo.TypeInfo.Save.Refines.{save-Appended, map_save-Appended}
use tssdgo.TypeInfo.Dump.{dump, zero_value}
use tssdgo.TypeInfo.RoundTrip.{dump-encode}
use tssdgo.TypeInfo.Marshal.{marshal, unmarshal_to, writer-Holds, unmarshal_to-marshal}

abbrev no_format : ℕ → List ℕ
no_format t = []

abbrev no_parse : List ℕ → Option ℕ
no_parse s = none

-- struct { A int16; B *string; C []string; D []int16; E map[string]int16 }
abbrev student_info : TypeInfo
student_info = object (
    info (simple 14 2) (
      info (pointer str)
        (info (slice str) (info (merge_slice 14 2) (info (dict str (simple 14 2)) no_infos)))))

abbrev student : Value
student = fields (
    item (bytes (7 ∷ 1 ∷ [])) (
      item (pointee (text (65 ∷ 66 ∷ []))) (
        item (items (item (text (67 ∷ [])) (item (text []) no_items)) no_items) (
          item (raw 2 (1 ∷ 0 ∷ 2 ∷ 0 ∷ []) []) (
            item (map_entries (pair (text (68 ∷ [])) (bytes (9 ∷ 0 ∷ [])) no_entries)) no_items)))))

student-Typed : Typed student_info student
student-Typed = is_object (
    next_field (is_simple (omega arith) (omega arith) refl) (
      next_field (is_pointee is_str) (
        next_field (is_slice (λ i. refl) (next_item is_str (next_item is_str no_more_items))) (
          next_field (is_merge_slice refl) (
            next_field
              (is_map
                (next_entry is_str (is_simple (omega arith) (omega arith) refl) no_more_entries))
              no_fields)))))

student-Saveable : Saveable student_info student
unfolding Saveable
student-Saveable = (tt, (tt, ((tt, (tt, tt)), (tt, ((tt, tt, tt), tt)))))

student-MapSaveable : MapSaveable student_info student
unfolding Saveable
student-MapSaveable = (tt, (tt, ((tt, (tt, tt)), (inr (omega arith), ((tt, tt, tt), tt)))))

student-Fits : Fits no_format no_parse student_info student
unfolding Fits encode
student-Fits = (
  (
    tt,
    (
      (omega arith, omega arith),
      (
        ((omega arith, (omega arith, tt)), (omega arith, omega arith), refl),
        (
          ((omega arith, omega arith), refl),
          (((omega arith, tt, tt), (omega arith, omega arith)), tt),
        ),
      ),
    ),
  ),
  (omega arith, omega arith),
)

-- Fragments with room for four bytes of payload each.
abbrev narrow : Frame
narrow = record { schema = none; heads = []; len_checksum = 0; width = 4; pos = 0 }

abbrev piece : List ℕ → List ℕ → Fragment
piece payload spare = record {
  header = no_header;
  schema = no_schema;
  heads = [];
  payload = payload;
  spare = spare;
  data_len = 4;
  checksum = [];
}

abbrev full_piece : Fragment
full_piece = piece (1 ∷ 2 ∷ 3 ∷ 4 ∷ []) []

abbrev last_piece : Fragment
last_piece = piece (5 ∷ []) (0 ∷ 0 ∷ 0 ∷ [])

narrow-IsFull : AllFull narrow 0 (full_piece ∷ [])
narrow-IsFull = ((refl, refl, refl, λ h. absurd (omega arith)), tt)

last-IsOpen : IsOpen narrow 1 last_piece
last-IsOpen = (refl, refl, omega arith, λ h. absurd (omega arith))

abbrev two_pieces : Buffer
two_pieces = writer narrow (full_piece ∷ []) last_piece

two_pieces-Holds : Holds two_pieces (1 ∷ 2 ∷ 3 ∷ 4 ∷ 5 ∷ [])
two_pieces-Holds = writer-Holds narrow (full_piece ∷ []) last_piece (omega arith) refl narrow-IsFull

-- Ten bytes are cut after every fourth, and five of them span two fragments.
append_cuts : payloads (entries (full_piece ∷ []) ++ some last_piece ∷ []) ≡ 1 ∷ 2 ∷ 3 ∷ 4 ∷ 5 ∷ []
append_cuts = refl

unmarshal_to-marshal_example :
    (b1 : Buffer) × (b2 : Buffer) × (marshal no_format student_info student ≡ ok b1)
    × (unmarshal_to no_parse student_info b1 (zero_value student_info) ≡ ok (student, b2))
    × (b2.size ≡ 0)
unmarshal_to-marshal_example =
    unmarshal_to-marshal no_format no_parse student_info student student-Typed student-Saveable
      student-Fits

save-Appended_example :
    Appended narrow
      (payloads (entries (full_piece ∷ []) ++ some last_piece ∷ [])
        ++ encode no_format student_info student)
      (save no_format student_info student (writer narrow (full_piece ∷ []) last_piece))
save-Appended_example =
    save-Appended no_format narrow (full_piece ∷ []) last_piece student_info student (omega arith)
      student-Typed student-Saveable narrow-IsFull last-IsOpen

map_save-Appended_example :
    Appended narrow
      (payloads (entries (full_piece ∷ []) ++ some last_piece ∷ [])
        ++ encode no_format student_info student)
      (map_save no_format student_info student (writer narrow (full_piece ∷ []) last_piece))
map_save-Appended_example =
    map_save-Appended no_format narrow (full_piece ∷ []) last_piece student_info student
      (omega arith) student-Typed student-MapSaveable narrow-IsFull last-IsOpen

-- A string of one byte, cut behind its length.
abbrev text_pieces : Buffer
text_pieces = writer narrow (piece (22 ∷ 1 ∷ 0 ∷ 0 ∷ []) [] ∷ []) (piece (0 ∷ 65 ∷ 9 ∷ []) (0 ∷ []))

text_pieces-Holds : Holds text_pieces (encode no_format str (text (65 ∷ [])) ++ 9 ∷ [])
unfolding encode
text_pieces-Holds =
    writer-Holds narrow (piece (22 ∷ 1 ∷ 0 ∷ 0 ∷ []) [] ∷ []) (piece (0 ∷ 65 ∷ 9 ∷ []) (0 ∷ []))
      (omega arith) refl ((refl, refl, refl, λ h. absurd (omega arith)), tt)

text-Fits : Fits no_format no_parse str (text (65 ∷ []))
unfolding Fits
text-Fits = omega arith

dump-encode_example :
    (b' : Buffer) × (dump no_parse str text_pieces (zero_value str) ≡ ok (text (65 ∷ []), b'))
    × Holds b' (9 ∷ [])
dump-encode_example =
    dump-encode no_format no_parse str (text (65 ∷ [])) text_pieces (9 ∷ []) is_str text-Fits
      text_pieces-Holds

append-Appended_example :
    Appended narrow
      (payloads (entries (full_piece ∷ []) ++ some last_piece ∷ []) ++ 6 ∷ 7 ∷ 8 ∷ 9 ∷ 10 ∷ [])
      (append (6 ∷ 7 ∷ 8 ∷ 9 ∷ 10 ∷ []) (writer narrow (full_piece ∷ []) last_piece))
append-Appended_example =
    append-Appended narrow (full_piece ∷ []) last_piece (6 ∷ 7 ∷ 8 ∷ 9 ∷ 10 ∷ []) (omega arith)
      narrow-IsFull last-IsOpen

read-TakesFrom_example : TakesFrom two_pieces (1 ∷ 2 ∷ 3 ∷ 4 ∷ 5 ∷ []) 5 (read 5 two_pieces)
read-TakesFrom_example =
    read-TakesFrom two_pieces (1 ∷ 2 ∷ 3 ∷ 4 ∷ 5 ∷ []) 5 two_pieces-Holds (omega arith)

abbrev read_pieces : Buffer
read_pieces = record two_pieces { size = 1; index = 1; pos = 0 }

rewind-Holds_example :
    (b' : Buffer) × (rewind read_pieces ≡ ok b') × Holds b' (payloads read_pieces.fragments)
rewind-Holds_example = rewind-Holds read_pieces full_piece (last_piece ∷ []) refl refl tt

append-clear_example : append (1 ∷ []) (clear two_pieces) ≡ panic
append-clear_example = append-clear 1 [] two_pieces (omega arith)

-- A fragment as `Extract` finds it: an object of two fragments, the second is the ending one.
abbrev received : ℕ → List ℕ → Fragment
received fid payload = record {
  header = no_header;
  schema = record { fid = fid; types = b'a' ∷ []; tid = b'x' ∷ []; info = [] };
  heads = 0 ∷ [];
  payload = payload;
  spare = [];
  data_len = 1 + length payload;
  checksum = [];
}

-- The second fragment (-2) has come first.
abbrev half_received : Buffer
half_received = record (new_buffer 0) {
  schema = some (record { fid = 0xFFFE; types = b'a' ∷ []; tid = b'x' ∷ []; info = [] });
  heads = 0 ∷ [];
  size = 3;
  fragments = none ∷ some (received 0xFFFE (1 ∷ 2 ∷ 3 ∷ [])) ∷ [];
}

wanted_first : wanted half_received ≡ 1
unfolding wanted wanted_loop
wanted_first = refl

wanted-Answer_example :
    (k : ℕ) × Answer half_received.fragments (fragment_count half_received) (wanted half_received) k
wanted-Answer_example = wanted-Answer half_received

abbrev first_received : Fragment
first_received = received 1 (7 ∷ 8 ∷ [])

received_data : length (raw_data first_received) ≡ 3
unfolding raw_data
received_data = refl

push-IsCounted_example : IsCounted (push (some first_received) half_received).2
push-IsCounted_example = push-IsCounted (some first_received) half_received refl (λ e. absurd cc)
