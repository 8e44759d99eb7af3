-- ===== src/Receiver/Extract.antt =====
-- tssd/rbuffer.go: the heads, the payload and the checksum of a fragment, and `Extract` and
-- `Fragment` over them; `Validate` of tssd/tssd.go.
use tssdgo.Prelude.{
  ℕ, zero, suc, ◌+◌, ◌-◌, Bool, true, false, ◌&&◌, ◌||◌, not, Option, none, some, List, [], ◌∷◌,
  ◌++◌, length, take, drop, ltb, ◌==◌, if◌then◌else◌, ℤ, pos, signed16, signed32,
}
use tssdgo.Wire.{
  Schema, Error, Result, ok, err, panic, beyond, stuck, ◌>>=◌, of_le, no_header, no_schema,
  fragment_min_header_size, tarraym_head_length, insufficient_data, invalid_data, checksum_failure,
}
use tssdgo.Wire.Code
use tssdgo.Fragment.{Fragment}
use tssdgo.Buffer.{Buffer, new_buffer}
use tssdgo.Buffer.Assemble.{same_text}
use tssdgo.Buffer.Read.{byte_at}
use tssdgo.TypeInfo.{Value, bytes, text, fields, item, no_items}
use tssdgo.TypeInfo.Dump.{dump}
use tssdgo.Head.{schema_info, schema_value}
use tssdgo.Receiver.{RBuffer, Step, known, reset, detect_magic}

-- `frame[lo:hi]` of `buf.data`
abbrev pub slice : ℕ → ℕ → List ℕ → Result (List ℕ)
slice lo n bs = if ltb (length bs) (lo + n) then panic else ok (take n (drop lo bs))

-- The two sizes of an array of bytes, an int32 and an int16: its length, when they fit.
abbrev pub array_length : ℤ → ℤ → Option ℕ
array_length (pos size) (pos n) = if size == n + 2 then some n else none
array_length _ _ = none

-- `dumpMergeArrayHeader`: the length, or what is missing with the error.
pub data ArrayHead : Type 0 where
  found_array : ℕ → ArrayHead
  no_array : ℕ → Error → ArrayHead

abbrev pub array_or_invalid : Option ℕ → ArrayHead
array_or_invalid (some n) = found_array n
array_or_invalid none = no_array 0 invalid_data

-- The eight bytes of the head of an array.
abbrev pub read_array : List ℕ → ArrayHead
read_array (t ∷ u ∷ a ∷ b ∷ c ∷ d ∷ e ∷ f ∷ rest) =
    if not (t == Code.arraym) || not (u == Code.uint8)
    then no_array 0 invalid_data
    else array_or_invalid
        (array_length (signed32 (of_le (a ∷ b ∷ c ∷ d ∷ []))) (signed16 (of_le (e ∷ f ∷ []))))
read_array _ = no_array 0 invalid_data

unfoldable pub dump_merge_array_header : ℕ → RBuffer → ArrayHead
dump_merge_array_header at r =
    if ltb (length r.data_bytes) (at + tarraym_head_length)
    then no_array (at + tarraym_head_length - length r.data_bytes) insufficient_data
    else read_array (drop at r.data_bytes)

abbrev pub refuse : ℕ → Error → RBuffer → Step
refuse more e r = ok (more, some e, r)

abbrev pub accept : RBuffer → Step
accept r = ok (0, none, r)

-- The next part of a fragment, when the part before it is there.
infixl 5 ◌>>>◌
abbrev pub ◌>>>◌ : Step → (RBuffer → Step) → Step
s >>> next = s >>= λ (more, e, r). elim e [ none ↦ next r | some x ↦ refuse more x r ]

abbrev pub is_insufficient : Error → Bool
is_insufficient Error.insufficient_data = true
is_insufficient _ = false

-- The schema that a Go value of its type holds.
abbrev pub value_schema : Value → Schema
value_schema
      (fields
        (item (bytes fid) (item (text types) (item (text tid) (item (text info) no_items))))) =
    record { fid = of_le fid; types = types; tid = tid; info = info }
value_schema _ = no_schema

-- The buffer over the bytes behind the version: one fragment that is all payload.
abbrev pub schema_buffer : List ℕ → Buffer
schema_buffer input = record (new_buffer (length input)) {
  size = length input;
  fragments =
      some (record {
        header = no_header;
        schema = no_schema;
        heads = [];
        payload = input;
        spare = [];
        data_len = length input;
        checksum = [];
      })
      ∷ [];
}

module _ (parse : List ℕ → Option ℕ) (checksum_func : List ℕ → List ℕ) where
  -- `schema.unmarshal`: the schema and the bytes left, or the error. A schema of which only a part
  -- could be read is left as it was; the source keeps that part.
  abbrev pub unmarshal_schema : List ℕ → Schema → Result (Value × Buffer)
  unmarshal_schema input s = dump parse schema_info (schema_buffer input) (schema_value s)

  -- `dumpMergeArrayHeader` behind the schema, and what `parseHeads` makes of it.
  abbrev pub set_heads : ℕ → ℕ → ArrayHead → RBuffer → Step
  set_heads start cursor (found_array n) r =
      accept
        (record r { payload_len = some n; heads_len = some (cursor + tarraym_head_length - start) })
  set_heads start cursor (no_array more e) r = refuse more e r

  abbrev pub schema_error : Error → RBuffer → Step
  schema_error e r = if is_insufficient e then refuse fragment_min_header_size e r else refuse 0 e r

  abbrev pub with_schema : ℕ → ℕ → ℕ → Result (Value × Buffer) → RBuffer → Step
  with_schema start cursor len (ok (v, b)) r =
      let r' = record r { schema = value_schema v } in
      set_heads start (cursor + (len - b.size))
        (dump_merge_array_header (cursor + (len - b.size)) r') r'
  with_schema start cursor len (err e) r = schema_error e r
  with_schema start cursor len panic r = panic
  with_schema start cursor len beyond r = beyond
  with_schema start cursor len stuck r = stuck

  unfoldable pub parse_schema : ℕ → RBuffer → Step
  parse_schema start r = do
    t ← byte_at r.data_bytes (start + 7)
    if not (t == Code.schema) then refuse 0 invalid_data r else do
      name ← slice start 5 r.data_bytes
      version ← slice (start + 5) 2 r.data_bytes
      let r1 = record r { header = record { magic_bytes = name; version = version } }
      let input = drop (start + 8) r.data_bytes
      with_schema start (start + 8) (length input) (unmarshal_schema input r.schema) r1

  abbrev pub parse_heads_at : Option ℕ → Option ℕ → RBuffer → Step
  parse_heads_at (some n) start r = accept r
  parse_heads_at none start r =
      if ltb (length r.data_bytes) fragment_min_header_size
      then refuse (fragment_min_header_size - length r.data_bytes) insufficient_data r
      else known start >>= λ i. parse_schema i r

  unfoldable pub parse_heads : RBuffer → Step
  parse_heads r = parse_heads_at r.heads_len r.magic_at r

  abbrev pub parse_payload_at : Option ℕ → ℕ → ℕ → ℕ → RBuffer → Step
  parse_payload_at (some p) start heads n r = accept r
  parse_payload_at none start heads n r =
      if ltb (length r.data_bytes - start) (heads + n)
      then refuse (heads + n - (length r.data_bytes - start)) insufficient_data r
      else accept (record r { payload = some (start + heads) })

  unfoldable pub parse_payload : RBuffer → Step
  parse_payload r = do
    start ← known r.magic_at
    heads ← known r.heads_len
    n ← known r.payload_len
    parse_payload_at r.payload start heads n r

  abbrev pub set_checksum : ℕ → ℕ → ℕ → ArrayHead → RBuffer → Step
  set_checksum start at before (no_array more e) r = refuse more e r
  set_checksum start at before (found_array n) r =
      if ltb (length r.data_bytes - start) (before + tarraym_head_length + n)
      then refuse (before + tarraym_head_length + n - (length r.data_bytes - start))
          insufficient_data r
      else accept (record r { checksum_len = some (n + tarraym_head_length); checksum = some at })

  abbrev pub parse_checksum_at : Option ℕ → ℕ → ℕ → ℕ → ℕ → RBuffer → Step
  parse_checksum_at (some c) start heads n p r = accept r
  parse_checksum_at none start heads n p r =
      set_checksum start (p + n) (heads + n) (dump_merge_array_header (p + n) r) r

  unfoldable pub parse_checksum : RBuffer → Step
  parse_checksum r = do
    start ← known r.magic_at
    heads ← known r.heads_len
    n ← known r.payload_len
    p ← known r.payload
    parse_checksum_at r.checksum start heads n p r

  -- The fragment in `buf.data`, its slices of one array.
  unfoldable pub cut_fragment : RBuffer → Result Fragment
  cut_fragment r = do
    start ← known r.magic_at
    heads ← known r.heads_len
    n ← known r.payload_len
    c ← known r.checksum_len
    frame ← slice start (heads + n + c) r.data_bytes
    ok (record {
      header = r.header;
      schema = r.schema;
      heads = take heads frame;
      payload = take n (drop heads frame);
      spare = drop (heads + n) frame;
      data_len = heads + n + c;
      checksum = drop (heads + n) frame;
    })

  -- `Checksum()`, which panics for less than a head.
  abbrev pub checksum_of : Fragment → Result (List ℕ)
  checksum_of f =
      if ltb (length f.checksum) tarraym_head_length
      then panic
      else ok (drop tarraym_head_length f.checksum)

  -- `Validate`: an empty checksum is not tested.
  unfoldable pub validate : List ℕ → Fragment → Result (Option Error)
  validate input f = do
    sum ← checksum_of f
    ok (
        if not (length sum == 0) && not (same_text (checksum_func input) sum)
        then some checksum_failure
        else none)

  abbrev pub validated : RBuffer → Option Error → Step
  validated r none = accept r
  validated r (some e) = refuse 0 e r

  unfoldable pub check_fragment : RBuffer → Step
  check_fragment r = do
    f ← cut_fragment r
    verdict ← validate (f.heads ++ f.payload) f
    validated r verdict

  unfoldable pub unmarshal_fragment : RBuffer → Step
  unmarshal_fragment r = parse_heads r >>> parse_payload >>> parse_checksum >>> check_fragment

  -- What `Extract` does with the answer of `unmarshalFragment`.
  abbrev pub next_round : (RBuffer → Step) → ℕ × Option Error × RBuffer → Step
  next_round again (more, none, r) = accept r
  next_round again (more, some e, r) = if is_insufficient e then refuse more e r else again r

  -- The loop of `Extract`. Each round but the last drops at least five bytes of what is kept.
  unfoldable pub extract_loop : ℕ → List ℕ → ℕ → RBuffer → Step
  extract_loop zero input skip r = stuck
  extract_loop (suc fuel) input skip r = detect_magic input skip r >>> λ r1.
      unmarshal_fragment r1 >>= next_round (λ r2. extract_loop fuel [] 5 (reset r2))

  unfoldable pub extract : List ℕ → RBuffer → Step
  extract input r = extract_loop (length r.data_bytes + length input + 2) input 0 r

  -- `Fragment()`: a copy of the fragment, and the receiver without it.
  unfoldable pub take_fragment : RBuffer → Result (Fragment × RBuffer)
  take_fragment r = do
    f ← cut_fragment r
    start ← known r.magic_at
    ok (f, reset (record r { data_bytes = drop (start + f.data_len) r.data_bytes }))
