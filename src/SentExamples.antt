-- ===== src/SentExamples.antt =====
-- A fragment that `finish` makes, and the same fragment at the receiver.
use tssdgo.Prelude.{
  ℕ, ◌<◌, ◌≡◌, refl, Option, none, some, List, [], ◌∷◌, length, All, replicate, arith,
}
use tssdgo.Wire.{Schema, ok, no_header}
use tssdgo.Fragment.{Fragment, raw_data}
use tssdgo.Buffer.Write.{finish}
use tssdgo.Buffer.Write.State.{Frame, stamped, IsOpen, writer, entries}
use tssdgo.Buffer.Write.Checksums.{AllAlike}
use tssdgo.TypeInfo.Encode.{encode}
use tssdgo.Head.Layout.{head_bytes}
use tssdgo.Receiver.{RBuffer, new_rbuffer}
use tssdgo.Receiver.SchemaPart.{FitsSchema}
use tssdgo.Receiver.Pipe.{pipe, Arrived, pipe-push_all}
use tssdgo.Buffer.{Buffer, new_buffer}
use tssdgo.Buffer.Assemble.Gather.{push_all}
use tssdgo.Receiver.Sent.{prepared_heads, Numbered, finish-Numbered}

abbrev no_parse : List ℕ → Option ℕ
no_parse bs = none

abbrev no_format : ℕ → List ℕ
no_format t = []

abbrev length_sum : List ℕ → List ℕ
length_sum bs = length bs ∷ 7 ∷ []

abbrev note_schema : Schema
note_schema = record { fid = 0xFFFF; types = b'a' ∷ b'b' ∷ []; tid = b'x' ∷ []; info = [] }

abbrev note_frame : Frame
note_frame = record {
  schema = some note_schema;
  heads = prepared_heads no_format note_schema 12;
  len_checksum = 10;
  width = 12;
  pos = 0;
}

-- Twelve bytes of payload, in the fragment with the id 1.
abbrev note_piece : Fragment
note_piece = record {
  header = no_header;
  schema = record note_schema { fid = 1 };
  heads = stamped 1 note_frame.heads;
  payload = 1 ∷ 2 ∷ 3 ∷ 4 ∷ 5 ∷ 6 ∷ 7 ∷ 8 ∷ 9 ∷ 10 ∷ 11 ∷ 12 ∷ [];
  spare = replicate 10 0;
  data_len = 56;
  checksum = [];
}

heads_length : length note_frame.heads ≡ 44
unfolding encode head_bytes
heads_length = refl

stamped_length : length note_piece.heads ≡ length note_frame.heads
unfolding encode head_bytes
stamped_length = refl

note_piece-IsOpen : IsOpen note_frame 0 note_piece
note_piece-IsOpen = (
  omega (arith, heads_length, stamped_length),
  stamped_length,
  omega arith,
  λ h. (omega (arith, heads_length), refl, λ k. refl),
)

finish-Numbered_example :
    (gs : List Fragment) × (finish length_sum (writer note_frame [] note_piece)
      ≡ ok (record (writer note_frame [] note_piece) { fragments = entries gs }))
    × AllAlike (note_piece ∷ []) gs
    × Numbered no_format length_sum note_schema 0 gs
finish-Numbered_example =
    finish-Numbered no_format length_sum note_schema 2 note_frame [] note_piece (λ bs. refl) refl
      (omega (arith, heads_length)) refl tt note_piece-IsOpen

-- The same fragment with its checksum.
abbrev sent_note : Fragment
sent_note = record note_piece {
  spare = 26 ∷ 13 ∷ 4 ∷ 0 ∷ 0 ∷ 0 ∷ 2 ∷ 0 ∷ 56 ∷ 7 ∷ [];
  data_len = 66;
}

note_fits : FitsSchema note_schema
note_fits = (omega arith, omega arith)

abbrev fresh_receiver : RBuffer
fresh_receiver = record new_rbuffer { data_bytes = [] }

-- The first two keys change places.
abbrev swap_first : List ℕ → List ℕ
swap_first [] = []
swap_first (a ∷ []) = a ∷ []
swap_first (a ∷ b ∷ ns) = b ∷ a ∷ ns

swapped : (n : ℕ) (ns : List ℕ) → All (λ j. j < n) ns → All (λ j. j < n) (swap_first ns)
swapped n [] h = tt
swapped n (a ∷ []) h = h
swapped n (a ∷ b ∷ ns) h = (h.1.0, (h.0, h.1.1))

-- The fragment behind it, which ends the object.
abbrev ending_note : Fragment
ending_note = record sent_note { heads = stamped 0xFFFE note_frame.heads }

abbrev two_notes : List Fragment
two_notes = sent_note ∷ ending_note ∷ []

two_notes-Numbered : Numbered no_format length_sum note_schema 0 two_notes
unfolding raw_data encode head_bytes
two_notes-Numbered = (refl, refl)

abbrev sending_notes : Buffer
sending_notes = record (new_buffer 100) { fragments = entries two_notes }

note_length : length (raw_data sent_note) ≡ 66
unfolding raw_data encode head_bytes
note_length = refl

ending_length : length (raw_data ending_note) ≡ 66
unfolding raw_data encode head_bytes
ending_length = refl

pipe-push_all_example :
    (fs : List Fragment) × Arrived no_parse length_sum no_format note_schema note_fits
      (λ bs. omega arith)
      two_notes
      (1 ∷ 0 ∷ [])
      fs
    × (pipe no_parse length_sum swap_first sending_notes ≡ ok (push_all fs (new_buffer 0)))
pipe-push_all_example =
    pipe-push_all no_parse length_sum no_format note_schema note_fits (λ bs. omega arith) swap_first
      swapped sending_notes two_notes refl refl two_notes-Numbered
      ((omega (arith, note_length), omega arith), ((omega (arith, ending_length), omega arith), tt))
