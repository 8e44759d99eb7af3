-- ===== src/ReceiverExamples.antt =====
-- A fragment in two pieces behind two bytes of noise, and a receiver that holds the first piece.
use tssdgo.Prelude.{
  take, drop, Bool, true, false, ℕ, ◌+◌, ◌≡◌, refl, Option, none, some, List, [], ◌∷◌, ◌++◌, length,
}
use tssdgo.Wire.{Error, Result, Schema, ok, magic}
use tssdgo.TypeInfo.Encode.{encode}
use tssdgo.Receiver.{
  search_kept, search_joint, search_new, found_magic, RBuffer, new_rbuffer, index_of, detect_magic,
  reset,
}
use tssdgo.Receiver.Detect.{located, detect_magic-located}
use tssdgo.Receiver.Extract.{
  unmarshal_fragment, parse_heads, parse_schema, parse_payload, parse_checksum,
  dump_merge_array_header, check_fragment, cut_fragment, validate, extract, extract_loop,
  take_fragment,
}
use tssdgo.Receiver.Frame.{frame_of}
use tssdgo.Receiver.Progress.{Asks, Asks-extract}
use tssdgo.Buffer.Read.Returns.{Returns}
use tssdgo.Receiver.Rounds.{extract-Returns}
use tssdgo.Receiver.Reader.{
  Blames, extract_reader, extract_reader_loop, drain, extract_reader-Blames,
}
use tssdgo.Receiver.Route.{push_fragment, delete_key}
use tssdgo.Buffer.Assemble.{push, wanted, wanted_loop, adopt}
use tssdgo.Fragment.{raw_data}
use tssdgo.TypeInfo.Dump.{dump, str_dump, string_dump, mem_dump}
use tssdgo.Buffer.Read.{
  read, read_on, read_rest, skip_used, take_chunk, check_dump_size, check_dump_sizet, dump_size2,
  dump_size4, read_byte,
}

abbrev no_parse : List ℕ → Option ℕ
no_parse bs = none

abbrev no_format : ℕ → List ℕ
no_format t = []

abbrev length_sum : List ℕ → List ℕ
length_sum bs = length bs ∷ 7 ∷ []

abbrev sent_schema : Schema
sent_schema = record { fid = 1; types = b'a' ∷ b'b' ∷ []; tid = b'x' ∷ []; info = [] }

abbrev sent_payload : List ℕ
sent_payload = 1 ∷ 2 ∷ 3 ∷ 4 ∷ 5 ∷ 6 ∷ 7 ∷ 8 ∷ 9 ∷ 10 ∷ 11 ∷ 12 ∷ []

abbrev sent_sum : List ℕ
sent_sum = 56 ∷ 7 ∷ []

abbrev noise : List ℕ
noise = 9 ∷ b'T' ∷ []

abbrev half_magic : List ℕ
half_magic = b'T' ∷ b'S' ∷ b'S' ∷ []

-- The noise and the first three bytes of the magic are held.
abbrev holding : RBuffer
holding = record new_rbuffer { data_bytes = noise ++ half_magic }

abbrev later_bytes : List ℕ
later_bytes = b'T' ∷ b'S' ∷ []

abbrev second_half : List ℕ → List ℕ
second_half (a ∷ b ∷ c ∷ bs) = bs
second_half bs = []

abbrev sent : List ℕ
sent = frame_of no_format sent_schema sent_payload sent_sum ++ later_bytes

abbrev arriving : List ℕ
arriving = second_half sent

detect_magic-located_example :
    detect_magic arriving 0 holding
    ≡ located
        (index_of magic (holding.data_bytes ++ arriving))
        (holding.data_bytes ++ arriving)
        holding
unfolding new_rbuffer
detect_magic-located_example = detect_magic-located arriving holding refl

Asks-extract_example : Asks (extract no_parse length_sum (9 ∷ 9 ∷ []) holding)
Asks-extract_example = Asks-extract no_parse length_sum (9 ∷ 9 ∷ []) holding

extract-Returns_example :
    Returns (extract no_parse length_sum arriving (reset holding))
    × ((k : ℕ)
        → extract no_parse length_sum arriving (reset holding)
          ≡ extract_loop no_parse length_sum
              (length noise + length half_magic + length arriving + 2 + k)
              arriving
              0
              (reset holding))
unfolding reset
extract-Returns_example = extract-Returns no_parse length_sum arriving (reset holding)

-- A reader over bytes, which gives an error at their end.
abbrev byte_reader : ℕ → List ℕ → List ℕ × Option Error × List ℕ
byte_reader n [] = ([], some Error.other, [])
byte_reader n (x ∷ xs) = (take n (x ∷ xs), none, drop n (x ∷ xs))

abbrev ab_type : List (List ℕ × (List ℕ × List ℕ))
ab_type = (b'a' ∷ b'b' ∷ [], (b'F' ∷ [], b'1' ∷ [])) ∷ []

extract_reader-Blames_example :
    Blames ab_type no_parse length_sum (List ℕ) byte_reader (noise ++ sent) (
      extract_reader ab_type no_parse length_sum
        (List ℕ)
        byte_reader
        9
        4
        new_rbuffer
        (noise ++ sent))
extract_reader-Blames_example =
    extract_reader-Blames ab_type no_parse length_sum (List ℕ) byte_reader 9 4 new_rbuffer
      (noise ++ sent)

abbrev has_returned : Result (Option Error × RBuffer × List ℕ) → Bool
has_returned (ok (e, r, s)) = true
has_returned _ = false

reader_returns :
    has_returned (
      extract_reader ab_type no_parse length_sum
        (List ℕ)
        byte_reader
        9
        4
        new_rbuffer
        (noise ++ sent))
    ≡ true
unfolding extract_reader extract_reader_loop drain extract extract_loop detect_magic search_kept
    search_joint search_new found_magic index_of unmarshal_fragment parse_heads parse_schema
    parse_payload parse_checksum dump_merge_array_header check_fragment cut_fragment validate
    take_fragment push_fragment reset new_rbuffer dump encode push wanted wanted_loop adopt
    delete_key raw_data str_dump string_dump mem_dump read read_on read_rest skip_used take_chunk
    check_dump_size check_dump_sizet dump_size2 dump_size4 read_byte
reader_returns = refl
