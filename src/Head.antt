-- ===== src/Head.antt =====
-- tssd/buffer.go `prepare` and tssd/tssd.go `Schema.marshal`: the heads of every fragment, which
-- are the magic and version, the schema of the object, and the size of the payload.
pub mod Layout
use tssdgo.Prelude.{
  ℕ, zero, suc, ◌+◌, ◌-◌, Option, none, some, List, [], ◌∷◌, ◌++◌, length, take, replicate, ltb,
  leb, ◌==◌, if◌then◌else◌,
}
use tssdgo.Wire.{
  Schema, Error, Result, ok, err, panic, ◌>>=◌, le2, magic, version_minor, version_major, no_header,
  no_schema, buffer_mtu, buffer_min_mtu, tarraym_head_length, sizet_length, sizea_length,
  head_over_size,
}
use tssdgo.Wire.Code
use tssdgo.Fragment.{Fragment, capacity}
use tssdgo.Buffer.{Buffer, new_buffer, fragment_count, entry, put_entry}
use tssdgo.Buffer.Write.{append, append_size2, append_size4}
use tssdgo.TypeInfo.{
  TypeInfo, simple, str, object, no_infos, info, Value, bytes, text, fields, no_items, item,
}
use tssdgo.TypeInfo.Save.{save}

-- `parse(Schema{})`
abbrev pub schema_info : TypeInfo
schema_info = object (info (simple Code.int16 2) (info str (info str (info str no_infos))))

-- A Schema as a Go value.
abbrev pub schema_value : Schema → Value
schema_value s = fields (
    item (bytes (le2 s.fid))
      (item (text s.types) (item (text s.tid) (item (text s.info) no_items))))

-- `max(MTU, TSSD_BUFFER_MIN_MTU)`, behind the default.
abbrev pub at_least : ℕ → ℕ → ℕ
at_least low n = if ltb n low then low else n

abbrev pub prepared_mtu : ℕ → ℕ
prepared_mtu mtu = at_least buffer_min_mtu (if mtu == 0 then buffer_mtu else mtu)

-- The fragment in which the heads are written: its slices are empty, with room for `mtu` bytes.
abbrev pub head_fragment : ℕ → Fragment
head_fragment mtu = record {
  header = no_header;
  schema = no_schema;
  heads = [];
  payload = [];
  spare = replicate mtu 0;
  data_len = 0;
  checksum = [];
}

abbrev pub head_buffer : ℕ → Buffer
head_buffer mtu = record (new_buffer mtu) { fragments = some (head_fragment mtu) ∷ [] }

-- `buf.fragments[0].Data = buf.fragments[0].Data[:buf.Size]`
unfoldable pub cut_data : Buffer → Result Buffer
cut_data b = do
  f ← entry b 0
  if ltb (capacity f) b.size
      then panic
      else ok (record b { fragments = put_entry b.fragments 0 (record f { data_len = b.size }) })

-- `avail`, the room for payload.
abbrev pub avail : ℕ → ℕ → ℕ → ℕ
avail mtu n len_checksum = mtu - n - sizet_length - sizea_length - len_checksum

abbrev pub slice_to : ℕ → Fragment → Result (List ℕ)
slice_to n f = if ltb (length f.payload + length f.spare) n then panic else ok (take n f.payload)

module _ (format : ℕ → List ℕ) (checksum_func : List ℕ → List ℕ) where
  -- `Schema.marshal`
  unfoldable pub marshal_schema : Schema → Buffer → Result Buffer
  marshal_schema s b = do
    b' ← save format schema_info (schema_value s) b
    if ltb 1 (fragment_count b') then err head_over_size else cut_data b'

  -- The heads up to the code of the payload's elements.
  unfoldable pub write_heads : Schema → Buffer → Result Buffer
  write_heads s b = do
    b1 ← append magic b
    b2 ← append (version_minor ∷ version_major ∷ Code.schema ∷ []) b1
    b3 ← marshal_schema s b2
    append (Code.arraym ∷ Code.uint8 ∷ []) b3

  -- The rest of `prepare`: the test of the size, and the size of the payload.
  unfoldable pub seal_heads : ℕ → Buffer → Buffer → Result (Option Error × Buffer)
  seal_heads mtu nbuf b =
      let len = tarraym_head_length + length (checksum_func []) in
      let b1 = record b { len_checksum = len } in
      if leb mtu (nbuf.size + sizet_length + sizea_length + len)
      then ok (some head_over_size, b1)
      else do
        n1 ← append_size4 (avail mtu nbuf.size len + sizea_length) nbuf
        n2 ← append_size2 (avail mtu nbuf.size len) n1
        f ← entry n2 0
        heads ← slice_to n2.size f
        ok (none, record b1 { heads = heads })

  abbrev pub refused :
      Buffer
      → Result Buffer
      → (Buffer → Result (Option Error × Buffer))
      → Result (Option Error × Buffer)
  refused b (err e) next = ok (some e, b)
  refused b r next = r >>= next

  -- The error, and the buffer, which keeps what was set before it.
  unfoldable pub prepare : Schema → Buffer → Result (Option Error × Buffer)
  prepare s b =
      let mtu = prepared_mtu b.mtu in
      let b1 = record b { mtu = mtu; schema = some s; heads = [] } in
      refused b1 (write_heads s (head_buffer mtu)) λ nbuf. seal_heads mtu nbuf b1
