-- ===== src/DeliveryExamples.antt =====
-- A note is marshalled and unmarshalled.
use tssdgo.Prelude.{ℕ, ◌≤◌, ◌≡◌, refl, Option, none, List, [], ◌∷◌, length, All, arith}
use tssdgo.Wire.{ok, no_header, no_schema}
use tssdgo.Fragment.{Fragment, raw_data}
use tssdgo.Buffer.Write.{finish}
use tssdgo.Buffer.Write.State.{stamped, Frame, writer, entries}
use tssdgo.Buffer.Write.Sealed.{finish-bound}
use tssdgo.Buffer.{Buffer}
use tssdgo.TypeInfo.{
  TypeInfo, simple, str, object, no_infos, info, Value, bytes, text, fields, no_items, item,
}
use tssdgo.TypeInfo.Typed.{Typed}
use tssdgo.TypeInfo.Fits.{Fits}
use tssdgo.Registry.{Flatable, BuildInfo, Factory, Registers, no_registers, build_info, registered}
use tssdgo.TypeInfo.Saveable.{Saveable}

abbrev no_format : ℕ → List ℕ
no_format t = []

abbrev no_parse : List ℕ → Option ℕ
no_parse s = none

abbrev length_sum : List ℕ → List ℕ
length_sum bs = length bs ∷ 7 ∷ []

-- struct { N int16; Text string }
abbrev note_info : TypeInfo
note_info = object (info (simple 14 2) (info str no_infos))

abbrev empty_note : Value
empty_note = fields (item (bytes (0 ∷ 0 ∷ [])) (item (text []) no_items))

abbrev first_note : Value
first_note = fields (item (bytes (3 ∷ 0 ∷ [])) (item (text (b'h' ∷ b'i' ∷ [])) no_items))

-- An object is its value.
abbrev notes : Flatable
notes = record {
  Object = Value;
  family = λ v. b'N' ∷ [];
  version = λ v. b'1' ∷ [];
  progeny = λ v. [];
  types = λ v. b'a' ∷ b'b' ∷ [];
  tid = λ v. b'x' ∷ [];
  info = λ v. [];
  type_info = λ v. note_info;
  value = λ v. v;
  with_value = λ o v. v;
  build = λ v. empty_note;
  decorate = λ to from. to;
}

abbrev note_registers : Registers notes
note_registers = registered notes first_note (no_registers notes)

abbrev note_build_info : BuildInfo notes
note_build_info = build_info notes first_note

abbrev note_factory : Factory notes
note_factory = record { current = b'1' ∷ []; versions = (b'1' ∷ [], note_build_info) ∷ [] }

abbrev heads_twenty_four : List ℕ
heads_twenty_four =
    1 ∷ 2 ∷ 3 ∷ 4 ∷ 5 ∷ 6 ∷ 7 ∷ 8 ∷ 9 ∷ 10 ∷ 11 ∷ 12 ∷ 13 ∷ 14 ∷ 15 ∷ 16 ∷ 17 ∷ 18 ∷ 19 ∷ 20 ∷ 21
    ∷ 22 ∷ 23 ∷ 24 ∷ []

abbrev headed : Frame
headed = record { schema = none; heads = heads_twenty_four; len_checksum = 10; width = 4; pos = 0 }

abbrev headed_piece : ℕ → List ℕ → List ℕ → Fragment
headed_piece id payload spare = record {
  header = no_header;
  schema = no_schema;
  heads = stamped id heads_twenty_four;
  payload = payload;
  spare = spare;
  data_len = 28;
  checksum = [];
}

abbrev ten : List ℕ
ten = 0 ∷ 0 ∷ 0 ∷ 0 ∷ 0 ∷ 0 ∷ 0 ∷ 0 ∷ 0 ∷ 0 ∷ []

abbrev first_piece : Fragment
first_piece = headed_piece 1 (1 ∷ 2 ∷ 3 ∷ 4 ∷ []) ten

abbrev second_piece : Fragment
second_piece = headed_piece 2 (5 ∷ 6 ∷ []) (0 ∷ 0 ∷ ten)

finish-bound_example :
    (b : Buffer) × (gs : List Fragment) × (finish length_sum
        (writer headed (first_piece ∷ []) second_piece)
      ≡ ok b)
    × (b.fragments ≡ entries gs)
    × All (λ g. length (raw_data g) ≤ b.mtu) gs
finish-bound_example =
    finish-bound length_sum 2 headed (first_piece ∷ []) second_piece (λ bs. refl) refl (omega arith)
      ((refl, refl, refl, λ h. (refl, refl, λ k. refl)), tt)
      (refl, refl, omega arith, λ h. (refl, refl, λ k. refl))
