-- ===== src/Receiver/SchemaPart.antt =====
-- The schema and the heads of an array, read from the front of the bytes.
use tssdgo.Prelude.{
  ℕ, ◌+◌, ◌<◌, ◌≡◌, refl, ap, ◌∙◌, Option, List, [], ◌∷◌, ◌++◌, length, drop, length-append,
  append-nil, append_assoc, drop-append, false, ltb, arith, ==_refl, le→ltb, lt→ltb,
}
use mathlib.Core.Path.{subst}
use tssdgo.Wire.{no_header, no_schema, Schema, ok, le2, le4, tarraym_head_length}
use tssdgo.Wire.Code
use tssdgo.Buffer.{Buffer}
use tssdgo.Buffer.Read.Stream.{Holds}
use tssdgo.Buffer.Read.Items.{Got, read_byte-Got, spell2, spell4}
use tssdgo.TypeInfo.{bytes, text}
use tssdgo.TypeInfo.Encode.{encode, string_bytes, sized}
use tssdgo.TypeInfo.Dump.{dump}
use tssdgo.TypeInfo.Dump.Parts.{mem_dump-Got, str_dump-Got, sized-Got}
use tssdgo.Head.{schema_info, schema_value}
use tssdgo.Receiver.{RBuffer}
use tssdgo.Receiver.Extract.{
  found_array, read_array, dump_merge_array_header, schema_buffer, value_schema,
}

-- The strings fit an int32, as does their sum.
abbrev pub FitsSchema : Schema → Type 0
FitsSchema s =
    (s.fid < 0x10000) × (length s.types + length s.tid + length s.info + 100 < 0x80000000)

-- The fields of a schema as bytes.
abbrev pub schema_fields : Schema → List ℕ
schema_fields s =
    (Code.int16 ∷ le2 s.fid)
    ++ ((Code.string ∷ string_bytes s.types)
        ++ ((Code.string ∷ string_bytes s.tid) ++ ((Code.string ∷ string_bytes s.info) ++ [])))

pub schema_encoded :
    (format : ℕ → List ℕ) (s : Schema)
    → encode format schema_info (schema_value s) ≡ Code.object ∷ sized 4 (schema_fields s)
unfolding encode
schema_encoded format s = refl

pub length_fields :
    (s : Schema) → length (schema_fields s) ≡ 18 + length s.types + length s.tid + length s.info
length_fields s =
    let a =
      length-append (string_bytes s.types)
        ((Code.string ∷ string_bytes s.tid) ++ ((Code.string ∷ string_bytes s.info) ++ [])) in
    let b = length-append (string_bytes s.tid) ((Code.string ∷ string_bytes s.info) ++ []) in
    let c = length-append (string_bytes s.info) [] in omega (arith, a, b, c)

regroup : (b : Buffer) (xs ys zs : List ℕ) → Holds b ((xs ++ ys) ++ zs) → Holds b (xs ++ (ys ++ zs))
regroup b xs ys zs h = subst (λ t. Holds b t) (append_assoc xs ys zs) h

module _ (parse : List ℕ → Option ℕ) where
  -- Over any schema that was there before.
  pub dump_schema-Got :
      (b : Buffer) (s old : Schema) (rest : List ℕ)
      → FitsSchema s
      → Holds b (Code.object ∷ (sized 4 (schema_fields s) ++ rest))
      → Got (dump parse schema_info b (schema_value old)) (schema_value s) rest
  unfolding dump
  dump_schema-Got b s old rest fits held =
      let len = length_fields s in
      let last = (Code.string ∷ string_bytes s.info) ++ [] in
      let more = (Code.string ∷ string_bytes s.tid) ++ last in
      let (b1, r1, h1) = read_byte-Got b Code.object _ held in
      let (b2, r2, h2) =
        sized-Got b1 4 (schema_fields s) rest (omega arith, omega (arith, len, fits)) h1 in
      let (b3, r3, h3) = mem_dump-Got Code.int16 2 b2 (bytes (le2 old.fid)) (le2 s.fid) _ refl h2 in
      let (b4, r4, h4) =
        str_dump-Got b3 (text old.types) s.types _ (omega (arith, fits))
          (regroup b3 (Code.string ∷ string_bytes s.types) more rest h3) in
      let (b5, r5, h5) =
        str_dump-Got b4 (text old.tid) s.tid _ (omega (arith, fits))
          (regroup b4 (Code.string ∷ string_bytes s.tid) last rest h4) in
      let (b6, r6, h6) =
        str_dump-Got b5 (text old.info) s.info _ (omega (arith, fits))
          (regroup b5 (Code.string ∷ string_bytes s.info) [] rest h5) in
      (b6, rw (r1, r2, r3, r4, r5, r6) refl, h6)

schema_buffer-Holds : (input : List ℕ) → Holds (schema_buffer input) input
schema_buffer-Holds input = record {
  current = record {
    header = no_header;
    schema = no_schema;
    heads = [];
    payload = input;
    spare = [];
    data_len = length input;
    checksum = [];
  };
  behind = [];
  at = (refl, tt);
  within = omega arith;
  bytes = append-nil input;
  counted = refl;
  occupied = tt;
}

-- `schema.unmarshal` over the bytes behind the version.
pub unmarshal_schema_lem :
    (parse : List ℕ → Option ℕ) (format : ℕ → List ℕ) (s old : Schema) (rest : List ℕ)
    → FitsSchema s
    → (b : Buffer) × (dump parse schema_info
          (schema_buffer (encode format schema_info (schema_value s) ++ rest))
          (schema_value old)
        ≡ ok (schema_value s, b))
      × (b.size ≡ length rest)
unmarshal_schema_lem parse format s old rest fits =
    let bytes = encode format schema_info (schema_value s) ++ rest in
    let same : bytes ≡ Code.object ∷ (sized 4 (schema_fields s) ++ rest) =
      ap (λ t. t ++ rest) (schema_encoded format s) in
    let (b, r, h) =
      dump_schema-Got parse (schema_buffer bytes) s old rest fits
        (subst (λ t. Holds (schema_buffer bytes) t) same (schema_buffer-Holds bytes)) in
    (b, r, h.counted)

pub value_schema-schema_value : (s : Schema) → s.fid < 0x10000 → value_schema (schema_value s) ≡ s
value_schema-schema_value s h = let e = spell2 s.fid h in rw e refl

-- The head of an array of `n` bytes.
abbrev pub array_head : ℕ → List ℕ
array_head n = Code.arraym ∷ Code.uint8 ∷ (le4 (n + 2) ++ le2 n)

pub read_array_lem :
    (n : ℕ) (rest : List ℕ) → n < 0x8000 → read_array (array_head n ++ rest) ≡ found_array n
read_array_lem n rest h =
    rw
      (
        spell4 (n + 2) (omega arith),
        spell2 n (omega arith),
        lt→ltb (n + 2) 0x80000000 (omega arith),
        lt→ltb n 0x8000 h,
        ==_refl (n + 2),
      )
      refl

pub dump_header_lem :
    (at n : ℕ) (pre rest : List ℕ) (r : RBuffer)
    → r.data_bytes ≡ pre ++ (array_head n ++ rest)
    → length pre ≡ at
    → n < 0x8000
    → dump_merge_array_header at r ≡ found_array n
unfolding dump_merge_array_header
dump_header_lem at n pre rest r e len h =
    let total : length r.data_bytes ≡ at + 8 + length rest =
      omega (arith, ap length e, length-append pre (array_head n ++ rest), len) in
    let enough : ltb (length r.data_bytes) (at + tarraym_head_length) ≡ false =
      le→ltb _ _ (omega (arith, total)) in
    let cut : drop at r.data_bytes ≡ array_head n ++ rest =
      ap (drop at) e ∙ drop-append at pre (array_head n ++ rest) len in
    rw (enough, cut) (read_array_lem n rest h)
