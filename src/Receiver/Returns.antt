-- ===== src/Receiver/Returns.antt =====
-- The parts of `Extract` return, or panic: none of them uses up its fuel.
use tssdgo.Prelude.{
  ℕ, ◌+◌, ◌-◌, Option, none, some, List, [], length, drop, ltb, ◌==◌, not, ℤ, pos, negsuc,
}
use tssdgo.Wire.{
  Schema, Error, Result, ok, err, panic, beyond, stuck, tarraym_head_length,
  fragment_min_header_size,
}
use tssdgo.Wire.Code
use tssdgo.Buffer.{Buffer}
use tssdgo.Buffer.Read.{read}
use tssdgo.Buffer.Read.Returns.{
  Returns, Returns->>=, if-Returns, byte_at-Returns, read-Returns, read_byte-Returns,
  check_dump_sizet-Returns, check_dump_size-Returns,
}
use tssdgo.TypeInfo.{Value}
use tssdgo.TypeInfo.Dump.{
  Tag, same, negative, mismatch, tag_of, mem_dump_as, mem_dump, recover, read_or, string_dump,
  str_dump, is_count, dump,
}
use tssdgo.Head.{schema_info, schema_value}
use tssdgo.Receiver.{RBuffer, Step, known}
use tssdgo.Receiver.Extract.{
  slice, ArrayHead, found_array, no_array, ◌>>>◌, is_insufficient, schema_buffer, set_heads,
  with_schema, parse_schema, parse_heads_at, parse_heads, parse_payload_at, parse_payload,
  set_checksum, parse_checksum_at, parse_checksum, cut_fragment, validate, validated,
  check_fragment, unmarshal_fragment,
}

mem_dump_as-Returns : (g : Tag) (n : ℕ) (b : Buffer) (d : Value) → Returns (mem_dump_as g n b d)
mem_dump_as-Returns same n b d =
    if-Returns (ltb b.size n) _ _ tt (Returns->>= (read n b) _ (read-Returns n b) λ x. tt)
mem_dump_as-Returns negative n b d = tt
mem_dump_as-Returns mismatch n b d = tt

mem_dump-Returns : (t n : ℕ) (b : Buffer) (d : Value) → Returns (mem_dump t n b d)
unfolding mem_dump
mem_dump-Returns t n b d =
    Returns->>= _ _ (read_byte-Returns b) λ (x, c). mem_dump_as-Returns (tag_of x t) n c d

recover-Returns :
    (old : List ℕ) (b : Buffer) (r : Result (List ℕ × Buffer))
    → Returns r
    → Returns (recover old b r)
recover-Returns old b (ok p) h = tt
recover-Returns old b (err e) h = tt
recover-Returns old b panic h = tt
recover-Returns old b beyond h = tt
recover-Returns old b stuck h = h

string_dump-Returns : (b : Buffer) → Returns (string_dump b)
unfolding string_dump
string_dump-Returns b = Returns->>= _ _ (check_dump_sizet-Returns b) λ (n, c). sized n c
  where
    sized :
        (n : ℤ) (c : Buffer)
        → Returns {A = List ℕ × Buffer} (elim n [ pos k ↦ read_or [] k c | negsuc k ↦ panic ])
    sized (pos k) c = recover-Returns [] c (read k c) (read-Returns k c)
    sized (negsuc k) c = tt

-- What is done by the tag of the first byte.
by_tag-Returns {ℓ} :
    {A : Type ℓ} (g : Tag) (r s t : Result A)
    → Returns r
    → Returns s
    → Returns t
    → Returns (elim g [ same ↦ r | negative ↦ s | mismatch ↦ t ])
by_tag-Returns same r s t h i j = h
by_tag-Returns negative r s t h i j = i
by_tag-Returns mismatch r s t h i j = j

str_dump-Returns : (b : Buffer) (d : Value) → Returns (str_dump b d)
unfolding str_dump
str_dump-Returns b d = Returns->>= _ _ (read_byte-Returns b) λ (x, c).
    by_tag-Returns (tag_of x Code.string) _ _ _ (Returns->>= _ _ (string_dump-Returns c) λ y. tt) tt
      tt

module _ (parse : List ℕ → Option ℕ) where
  dump_schema-Returns :
      (b : Buffer) (s : Schema) → Returns (dump parse schema_info b (schema_value s))
  unfolding dump
  dump_schema-Returns b s = Returns->>= _ _ (read_byte-Returns b) λ (x, c).
      by_tag-Returns (tag_of x Code.object) _ _ _
        (Returns->>= _ _ (check_dump_size-Returns c) λ (sizet, n, b2).
          if-Returns (is_count n 4) _ _
            (Returns->>= _ _
              (Returns->>= _ _ (mem_dump-Returns _ _ b2 _) λ (v1, b3).
                Returns->>= _ _
                  (Returns->>= _ _ (str_dump-Returns b3 _) λ (v2, b4).
                    Returns->>= _ _
                      (Returns->>= _ _ (str_dump-Returns b4 _) λ (v3, b5).
                        Returns->>= _ _ (Returns->>= _ _ (str_dump-Returns b5 _) λ (v4, b6). tt)
                          λ y. tt)
                      λ y. tt)
                  λ y. tt)
              λ y. tt)
            tt)
        tt tt

known-Returns : (o : Option ℕ) → Returns (known o)
known-Returns none = tt
known-Returns (some n) = tt

slice-Returns : (lo n : ℕ) (bs : List ℕ) → Returns (slice lo n bs)
slice-Returns lo n bs = if-Returns (ltb (length bs) (lo + n)) _ _ tt tt

pub Returns->>> :
    (s : Step) (next : RBuffer → Step)
    → Returns s
    → ((r : RBuffer) → Returns (next r))
    → Returns (s >>> next)
Returns->>> (ok (more, none, r)) next h k = k r
Returns->>> (ok (more, some e, r)) next h k = tt
Returns->>> (err e) next h k = tt
Returns->>> panic next h k = tt
Returns->>> beyond next h k = tt
Returns->>> stuck next h k = h

module _ (parse : List ℕ → Option ℕ) (checksum_func : List ℕ → List ℕ) where
  set_heads-Returns :
      (start cursor : ℕ) (h : ArrayHead) (r : RBuffer)
      → Returns (set_heads parse checksum_func start cursor h r)
  set_heads-Returns start cursor (found_array n) r = tt
  set_heads-Returns start cursor (no_array more e) r = tt

  with_schema-Returns :
      (start cursor len : ℕ) (m : Result (Value × Buffer)) (r : RBuffer)
      → Returns m
      → Returns (with_schema parse checksum_func start cursor len m r)
  with_schema-Returns start cursor len (ok (v, b)) r h = set_heads-Returns start _ _ _
  with_schema-Returns start cursor len (err e) r h = if-Returns (is_insufficient e) _ _ tt tt
  with_schema-Returns start cursor len panic r h = tt
  with_schema-Returns start cursor len beyond r h = tt
  with_schema-Returns start cursor len stuck r h = h

  parse_schema-Returns :
      (start : ℕ) (r : RBuffer) → Returns (parse_schema parse checksum_func start r)
  unfolding parse_schema
  parse_schema-Returns start r = Returns->>= _ _ (byte_at-Returns r.data_bytes (start + 7)) λ t.
      if-Returns (not (t == Code.schema)) _ _ tt (
        Returns->>= _ _ (slice-Returns start 5 r.data_bytes) λ name.
          Returns->>= _ _ (slice-Returns (start + 5) 2 r.data_bytes) λ version.
            with_schema-Returns start (start + 8) _ _ _
              (dump_schema-Returns parse (schema_buffer (drop (start + 8) r.data_bytes)) r.schema))

  parse_heads_at-Returns :
      (o start : Option ℕ) (r : RBuffer) → Returns (parse_heads_at parse checksum_func o start r)
  parse_heads_at-Returns (some n) start r = tt
  parse_heads_at-Returns none start r =
      if-Returns (ltb (length r.data_bytes) fragment_min_header_size) _ _ tt
        (Returns->>= _ _ (known-Returns start) λ i. parse_schema-Returns i r)

  parse_payload_at-Returns :
      (o : Option ℕ) (start heads n : ℕ) (r : RBuffer)
      → Returns (parse_payload_at parse checksum_func o start heads n r)
  parse_payload_at-Returns (some p) start heads n r = tt
  parse_payload_at-Returns none start heads n r =
      if-Returns (ltb (length r.data_bytes - start) (heads + n)) _ _ tt tt

  set_checksum-Returns :
      (start at before : ℕ) (h : ArrayHead) (r : RBuffer)
      → Returns (set_checksum parse checksum_func start at before h r)
  set_checksum-Returns start at before (no_array more e) r = tt
  set_checksum-Returns start at before (found_array n) r =
      if-Returns (ltb (length r.data_bytes - start) (before + tarraym_head_length + n)) _ _ tt tt

  parse_checksum_at-Returns :
      (o : Option ℕ) (start heads n p : ℕ) (r : RBuffer)
      → Returns (parse_checksum_at parse checksum_func o start heads n p r)
  parse_checksum_at-Returns (some c) start heads n p r = tt
  parse_checksum_at-Returns none start heads n p r =
      set_checksum-Returns start (p + n) (heads + n) _ r

  cut_fragment-Returns : (r : RBuffer) → Returns (cut_fragment parse checksum_func r)
  unfolding cut_fragment
  cut_fragment-Returns r = Returns->>= _ _ (known-Returns r.magic_at) λ start.
      Returns->>= _ _ (known-Returns r.heads_len) λ heads.
        Returns->>= _ _ (known-Returns r.payload_len) λ n.
          Returns->>= _ _ (known-Returns r.checksum_len)
            λ c. Returns->>= _ _ (slice-Returns start (heads + n + c) r.data_bytes) λ frame. tt

  validated-Returns : (r : RBuffer) (o : Option Error) → Returns (validated parse checksum_func r o)
  validated-Returns r none = tt
  validated-Returns r (some e) = tt

  check_fragment-Returns : (r : RBuffer) → Returns (check_fragment parse checksum_func r)
  unfolding check_fragment validate
  check_fragment-Returns r = Returns->>= _ _ (cut_fragment-Returns r) λ f.
      Returns->>= _ _
        (Returns->>= _ _ (if-Returns (ltb (length f.checksum) tarraym_head_length) _ _ tt tt)
          λ sum. tt)
        λ o. validated-Returns r o

  -- `unmarshalFragment`
  pub unmarshal_fragment-Returns :
      (r : RBuffer) → Returns (unmarshal_fragment parse checksum_func r)
  unfolding unmarshal_fragment parse_heads parse_payload parse_checksum
  unmarshal_fragment-Returns r =
      Returns->>> _ _
        (Returns->>> _ _
          (Returns->>> _ _ (parse_heads_at-Returns r.heads_len r.magic_at r) λ r1.
            Returns->>= _ _ (known-Returns r1.magic_at) λ start.
              Returns->>= _ _ (known-Returns r1.heads_len) λ h.
                Returns->>= _ _ (known-Returns r1.payload_len)
                  λ n. parse_payload_at-Returns r1.payload start h n r1)
          λ r2. Returns->>= _ _ (known-Returns r2.magic_at) λ start.
            Returns->>= _ _ (known-Returns r2.heads_len) λ h.
              Returns->>= _ _ (known-Returns r2.payload_len) λ n.
                Returns->>= _ _ (known-Returns r2.payload)
                  λ p. parse_checksum_at-Returns r2.checksum start h n p r2)
        check_fragment-Returns
