-- ===== src/Receiver.antt =====
-- tssd/rbuffer.go: the receiver, which finds fragments in the bytes that come in, with noise
-- between them, and sorts them by the object that they belong to.
pub mod Search
pub mod Detect
pub mod Extract
pub mod Route
pub mod SchemaPart
pub mod Frame
pub mod Progress
pub mod Returns
pub mod Rounds
pub mod Reader
pub mod Sent
pub mod Pipe
use tssdgo.Prelude.{
  ℕ, zero, suc, ◌+◌, ◌-◌, Bool, true, false, ◌&&◌, ◌||◌, not, Option, none, some, List, [], ◌∷◌,
  ◌++◌, length, take, drop, ltb, leb, ◌==◌, if◌then◌else◌, ℤ, pos, negsuc, signed16, signed32,
}
use tssdgo.Wire.{
  Header, Schema, Error, Result, ok, err, panic, beyond, stuck, ◌>>=◌, of_le, magic, no_header,
  no_schema, fragment_min_header_size, tarraym_head_length, sizea_length, insufficient_data,
  invalid_data, checksum_failure, schema_unmatch,
}
use tssdgo.Wire.Code
use tssdgo.Fragment.{Fragment}
use tssdgo.Buffer.{Buffer, new_buffer}
use tssdgo.Buffer.Assemble.{same_text, push, wanted}
use tssdgo.Buffer.Read.{byte_at}
use tssdgo.Registry.{lookup_key, put_key}
use tssdgo.TypeInfo.{Value, bytes, text, fields, item, no_items}
use tssdgo.TypeInfo.Dump.{dump}
use tssdgo.Head.{schema_info, schema_value}

-- Objects under their ids, below the family and the version, or below the type hash.
abbrev pub Objects : Type 0
Objects = List (List ℕ × Buffer)

-- An int that is -1 until it is known is an option.
pub record RBuffer : Type 0 where
  pub data_bytes : List ℕ
  pub magic_at : Option ℕ
  pub header : Header
  pub schema : Schema
  pub heads_len : Option ℕ
  pub payload : Option ℕ
  pub payload_len : Option ℕ
  pub checksum : Option ℕ
  pub checksum_len : Option ℕ
  pub results : List (List ℕ × List (List ℕ × Objects))
  pub unregistered : List (List ℕ × Objects)

unfoldable pub reset : RBuffer → RBuffer
reset r = record r {
  magic_at = none;
  heads_len = none;
  payload = none;
  payload_len = none;
  checksum = none;
  checksum_len = none;
}

-- `NewRBuffer`
unfoldable pub new_rbuffer : RBuffer
new_rbuffer = record {
  data_bytes = [];
  magic_at = none;
  header = no_header;
  schema = no_schema;
  heads_len = none;
  payload = none;
  payload_len = none;
  checksum = none;
  checksum_len = none;
  results = [];
  unregistered = [];
}

abbrev pub append_bytes : List ℕ → RBuffer → RBuffer
append_bytes bs r = record r { data_bytes = r.data_bytes ++ bs }

-- How many bytes are still needed, the error, and the receiver.
abbrev pub Step : Type 0
Step = Result (ℕ × Option Error × RBuffer)

-- Arithmetic with a -1 is not followed.
abbrev pub known : Option ℕ → Result ℕ
known none = beyond
known (some n) = ok n

-- `bytes.Index`
abbrev pub starts_with : List ℕ → List ℕ → Bool
starts_with [] s = true
starts_with (p ∷ ps) [] = false
starts_with (p ∷ ps) (x ∷ s) = (p == x) && starts_with ps s

abbrev pub add_one : Option ℕ → Option ℕ
add_one none = none
add_one (some i) = some (suc i)

unfoldable pub index_of : List ℕ → List ℕ → Option ℕ
index_of p [] = if starts_with p [] then some 0 else none
index_of p (x ∷ s) =
    let later = add_one (index_of p s) in if starts_with p (x ∷ s) then some 0 else later

-- What is missing to the shortest fragment.
abbrev pub short_of : RBuffer → ℕ
short_of r = fragment_min_header_size - length r.data_bytes

-- `found:`
unfoldable pub found_magic : List ℕ → RBuffer → Step
found_magic bs r =
    let r' = record r { data_bytes = bs; magic_at = index_of magic bs } in
    ok (short_of r', none, r')

-- No magic: `bs` is kept, and more bytes are needed.
abbrev pub keep_bytes : List ℕ → RBuffer → Step
keep_bytes bs r =
    let r' = record r { data_bytes = bs; magic_at = none } in
    ok (fragment_min_header_size - length bs, some insufficient_data, r')

abbrev pub at_most : ℕ → ℕ → ℕ
at_most high n = if ltb n high then n else high

-- The new bytes alone, when the magic does not begin in the kept ones.
unfoldable pub search_new : List ℕ → RBuffer → Step
search_new input r =
    let copied = at_most 4 (length input) in
    elim (index_of magic input) [
      | some i ↦ found_magic (drop i input) r
      | none ↦
          if ltb (length r.data_bytes) (4 - copied)
          then panic
          else keep_bytes
              (drop (length r.data_bytes - (4 - copied)) r.data_bytes
                ++ drop (length input - copied) input)
              r
    ]

-- The kept bytes, fewer than five, with the first of the new ones.
unfoldable pub search_joint : List ℕ → RBuffer → Step
search_joint input r =
    let kept = r.data_bytes in
    if ltb (length kept + length input) (length magic)
    then keep_bytes (kept ++ input) r
    else elim (index_of magic (kept ++ take (at_most 4 (length input)) input)) [
      | none ↦ search_new input r
      | some i ↦ if ltb (length kept) i then panic else found_magic (drop i kept ++ input) r
    ]

-- The kept bytes from `skip` on, when there are at least five.
unfoldable pub search_kept : List ℕ → ℕ → RBuffer → Step
search_kept input skip r =
    if ltb (length r.data_bytes) (length magic)
    then search_joint input r
    else if ltb (length r.data_bytes) skip
    then panic
    else elim (index_of magic (drop skip r.data_bytes)) [
      | some i ↦ found_magic (drop (skip + i) r.data_bytes ++ input) r
      | none ↦
          search_joint input (record r { data_bytes = drop (length r.data_bytes - 4) r.data_bytes })
    ]

-- By what is known of the magic's place.
abbrev pub detect_from : Option ℕ → List ℕ → ℕ → RBuffer → Step
detect_from none input skip r = search_kept input skip r
detect_from (some i) input skip r = let r' = append_bytes input r in ok (short_of r', none, r')

unfoldable pub detect_magic : List ℕ → ℕ → RBuffer → Step
detect_magic input skip r = detect_from r.magic_at input skip r
