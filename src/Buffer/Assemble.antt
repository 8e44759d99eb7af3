-- ===== src/Buffer/Assemble.antt =====
-- tssd/buffer.go: fragments put together (`Push`, `Wanted`) and cut anew (`Merge`, `Split`).
pub mod Wanted
pub mod Push
pub mod Text
pub mod Gather
pub mod Complete
use tssdgo.Prelude.{
  ℕ, zero, suc, ◌+◌, ◌-◌, Bool, true, false, Option, none, some, List, [], ◌∷◌, ◌&&◌, length, ltb,
  leb, ◌==◌, if◌then◌else◌, not,
}
use tssdgo.Wire.{
  Schema, Error, Result, ok, panic, ◌>>=◌, invalid_data, schema_unmatch, fragment_id_unmatch,
}
use tssdgo.Fragment.{Fragment, raw_data}
use tssdgo.Buffer.{Buffer, fragment_count, lookup_entry, put_entry, found}
use tssdgo.Buffer.Write.{append, finish}
use tssdgo.Buffer.Read.{rewind}

-- Go's `==` on strings.
abbrev pub same_text : List ℕ → List ℕ → Bool
same_text [] [] = true
same_text (x ∷ xs) (y ∷ ys) = x == y && same_text xs ys
same_text _ _ = false

-- `fra.Schema.FID < 0`
abbrev pub is_ending : Fragment → Bool
is_ending f = leb 0x8000 f.schema.fid

-- The loop of `Wanted` with `n` keys left, from key `i` on.
unfoldable pub wanted_loop : List (Option Fragment) → ℕ → ℕ → ℕ
wanted_loop os zero i = i + 1
wanted_loop os (suc n) i = elim (lookup_entry os i) [
  | none ↦ i + 1
  | some f ↦ let more = wanted_loop os n (i + 1) in if is_ending f then 0 else more
]

unfoldable pub wanted : Buffer → ℕ
wanted b = wanted_loop b.fragments (fragment_count b) 0

-- `max(-fid, fid)`
abbrev pub abs_fid : ℕ → ℕ
abs_fid fid = if leb 0x8000 fid then 0x10000 - fid else fid

abbrev pub payload_length : Option Fragment → ℕ
payload_length none = 0
payload_length (some f) = length f.payload

-- The entry under key `fid - 1`; key -1 has its own place. `Size` is an int: the old payload may be
-- longer than what is left unread, and then the two steps `Size -= old; Size += new` still come to
-- `Size + new - old`. That is below 0 when a fragment that has been read gives way to a shorter one
-- with the same id; the model stops at 0.
abbrev pub place_fragment : ℕ → Fragment → Buffer → Buffer
place_fragment zero f b = record b {
  size = b.size + length f.payload - payload_length b.stray;
  stray = some f;
}
place_fragment (suc i) f b = record b {
  size = b.size + length f.payload - payload_length (lookup_entry b.fragments i);
  fragments = put_entry b.fragments i f;
}

-- The first fragment gives the buffer its schema and heads.
unfoldable pub adopt : Fragment → Buffer → Buffer
adopt f b = elim b.schema [
  | none ↦ record b {
    fragments = [];
    stray = none;
    schema = some f.schema;
    heads = f.heads;
    len_checksum = length (raw_data f) - length f.heads - length f.payload;
  }
  | some s ↦ b
]

abbrev pub schema_or : Schema → Option Schema → Schema
schema_or s none = s
schema_or s (some t) = t

-- The missing fragment's number, the error, and the buffer. The argument is `none` for nil.
unfoldable pub push : Option Fragment → Buffer → ℕ × Option Error × Buffer
push none b = (wanted b, some invalid_data, b)
push (some f) b =
    if length (raw_data f) == 0
    then (wanted b, some invalid_data, b)
    else let b1 = adopt f b in
      let s = schema_or f.schema b1.schema in
      if not (same_text s.types f.schema.types)
      then (wanted b1, some schema_unmatch, b1)
      else if not (same_text s.tid f.schema.tid)
      then (wanted b1, some fragment_id_unmatch, b1)
      else let b2 = place_fragment (abs_fid f.schema.fid) f b1 in (wanted b2, none, b2)

-- The loop of `split`: the payloads under the keys 0 to `n - 1` of the old map.
unfoldable pub append_payloads : List (Option Fragment) → ℕ → ℕ → Buffer → Result Buffer
append_payloads os zero i b = ok b
append_payloads os (suc n) i b =
    found (lookup_entry os i) >>= λ f. append f.payload b >>= append_payloads os n (i + 1)

module _ (checksum_func : List ℕ → List ℕ) where
  unfoldable pub resplit : ℕ → Buffer → Result Buffer
  resplit mtu b =
      if leb mtu (length b.heads + b.len_checksum)
      then ok b
      else (append_payloads b.fragments (fragment_count b) 0 (record b {
        mtu = mtu;
        size = 0;
        windex = 0;
        index = 0;
        pos = 0;
        fragments = [];
        stray = none;
      })
          >>= finish checksum_func)

  unfoldable pub merge : Buffer → Result Buffer
  merge b =
      if ltb (fragment_count b) 2
      then ok b
      else rewind b >>= λ b'. resplit (b'.size + length b'.heads + b'.len_checksum) b'

  unfoldable pub split : ℕ → Buffer → Result Buffer
  split mtu b = if leb b.mtu mtu then ok b else resplit mtu b
