-- ===== src/HeadExamples.antt =====
-- The heads of a small schema.
use tssdgo.Prelude.{ℕ, ◌+◌, ◌<◌, ◌≡◌, refl, none, some, List, [], ◌∷◌, ◌++◌, length, arith}
use tssdgo.Wire.{Schema, head_over_size, ok, le2, le4, tarraym_head_length, sizea_length}
use tssdgo.Buffer.{Buffer, new_buffer}
use tssdgo.TypeInfo.Encode.{encode}
use tssdgo.Head.{prepare}
use tssdgo.Head.Layout.{head_bytes, prepare-heads, prepare_refused}

abbrev no_time : ℕ → List ℕ
no_time t = []

abbrev checksum_two : List ℕ → List ℕ
checksum_two bs = length bs ∷ 7 ∷ []

abbrev small_schema : Schema
small_schema = record { fid = 0xFFFF; types = b'a' ∷ b'b' ∷ []; tid = b'x' ∷ []; info = [] }

-- 8 bytes of magic, version and code, 7 of the object, 3 of the id, 7, 6 and 5 of the strings, and 2.
small_length : length (head_bytes no_time small_schema) ≡ 38
unfolding head_bytes encode
small_length = refl

prepare-heads_example :
    (k : ℕ) × (0 < k)
    × (length (head_bytes no_time small_schema)
          + 6
          + (tarraym_head_length + length (checksum_two []))
          + k
        ≡ 1440)
    × (prepare no_time checksum_two small_schema (new_buffer 0)
        ≡ ok (
          none,
          record (new_buffer 0) {
            schema = some small_schema;
            mtu = 1440;
            len_checksum = tarraym_head_length + length (checksum_two []);
            heads = (head_bytes no_time small_schema ++ le4 (k + sizea_length)) ++ le2 k;
          },
        ))
prepare-heads_example =
    prepare-heads no_time checksum_two small_schema (new_buffer 0) (omega (arith, small_length))

-- 77 bytes more in the schema: the heads have 115 bytes, and no MTU of 128 holds a byte beside them.
abbrev wide_schema : Schema
wide_schema = record {
  fid = 0xFFFF;
  types = b'a' ∷ b'b' ∷ [];
  tid = b'x' ∷ [];
  info = seventy_seven;
}
  where
    ten : List ℕ
    ten = 1 ∷ 2 ∷ 3 ∷ 4 ∷ 5 ∷ 6 ∷ 7 ∷ 8 ∷ 9 ∷ 10 ∷ []

    seventy_seven : List ℕ
    seventy_seven =
        ten
        ++ (ten ++ (ten ++ (ten ++ (ten ++ (ten ++ (ten ++ (1 ∷ 2 ∷ 3 ∷ 4 ∷ 5 ∷ 6 ∷ 7 ∷ [])))))))

wide_length : length (head_bytes no_time wide_schema) ≡ 115
unfolding head_bytes encode
wide_length = refl

prepare_refused_example :
    (b' : Buffer) × (prepare no_time checksum_two wide_schema (new_buffer 100)
      ≡ ok (some head_over_size, b'))
prepare_refused_example =
    prepare_refused no_time checksum_two wide_schema (new_buffer 100) (omega (arith, wide_length))
      (omega (arith, wide_length))
