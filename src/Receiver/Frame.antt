-- ===== src/Receiver/Frame.antt =====
-- A fragment as the sender lays it out, found behind noise and in front of what follows.
use tssdgo.Prelude.{
  ℕ, suc, ◌+◌, ◌-◌, ◌≤◌, ◌<◌, ◌≡◌, refl, sym, ap, ◌∙◌, Option, none, some, List, [], ◌∷◌, ◌++◌,
  length, take, drop, length-append, append_assoc, drop-append, take-append, arith, false, ltb,
  eq→==, le→ltb, ◌==◌, ◌⊎◌, inl, inr, Bool-cases,
}
use tssdgo.Wire.{
  Schema, ok, magic, version_minor, version_major, tarraym_head_length, fragment_min_header_size,
}
use tssdgo.Wire.Code
use tssdgo.Fragment.{Fragment}
use tssdgo.Buffer.{Buffer}
use tssdgo.TypeInfo.Encode.{encode}
use tssdgo.Head.{schema_info, schema_value}
use tssdgo.Buffer.Assemble.Text.{same_text_refl}
use tssdgo.Receiver.{RBuffer, Step, index_of, detect_magic, reset}
use tssdgo.Receiver.Detect.{located, detect_magic-located}
use tssdgo.Receiver.Extract.{
  set_heads, with_schema, parse_schema, parse_heads, parse_payload, parse_checksum, cut_fragment,
  validate, check_fragment, unmarshal_fragment, extract_loop, extract, take_fragment, value_schema,
  dump_merge_array_header,
}
use tssdgo.Receiver.SchemaPart.{
  FitsSchema, array_head, unmarshal_schema_lem, value_schema-schema_value, dump_header_lem,
}

module _ (format : ℕ → List ℕ) (s : Schema) where
  abbrev pub encoded : List ℕ
  encoded = encode format schema_info (schema_value s)

  -- The heads of a fragment with `n` bytes of payload.
  abbrev pub heads_of : ℕ → List ℕ
  heads_of n =
      magic ++ ((version_minor ∷ version_major ∷ Code.schema ∷ []) ++ (encoded ++ array_head n))

  -- A fragment on the wire.
  abbrev pub frame_of : List ℕ → List ℕ → List ℕ
  frame_of payload sum = heads_of (length payload) ++ (payload ++ (array_head (length sum) ++ sum))

-- A receiver that has found nothing yet and holds `bs`.
abbrev pub waiting : List ℕ → RBuffer → RBuffer
waiting bs r = record r {
  data_bytes = bs;
  magic_at = none;
  heads_len = none;
  payload = none;
  payload_len = none;
  checksum = none;
  checksum_len = none;
}

module _ (parse : List ℕ → Option ℕ) (checksum_func : List ℕ → List ℕ) (format : ℕ → List ℕ)
    (s : Schema) (payload sum rest : List ℕ) (fits : FitsSchema s) (r : RBuffer) where
  -- What follows the schema.
  behind : List ℕ
  behind = array_head (length payload) ++ (payload ++ (array_head (length sum) ++ (sum ++ rest)))

  body : List ℕ
  body = encoded format s ++ behind

  abbrev wire : List ℕ
  unfolding body
  wire = magic ++ ((version_minor ∷ version_major ∷ Code.schema ∷ []) ++ body)

  abbrev found : RBuffer
  found = record (waiting wire r) { magic_at = some 0 }

  abbrev headed : RBuffer
  headed = record found {
    header = record { magic_bytes = magic; version = version_minor ∷ version_major ∷ [] };
    schema = s;
  }

  abbrev pub cursor : ℕ
  cursor = 8 + length (encoded format s)

  abbrev parsed : RBuffer
  parsed = record headed {
    payload_len = some (length payload);
    heads_len = some (cursor + tarraym_head_length - 0);
  }

  abbrev started : RBuffer
  started = record found {
    header = record { magic_bytes = magic; version = version_minor ∷ version_major ∷ [] };
  }

  rest_of_heads :
      (b : Buffer)
      → b.size ≡ length behind
      → length payload < 0x8000
      → with_schema parse checksum_func 0 8 (length body) (ok (schema_value s, b)) started
        ≡ ok (0, none, parsed)
  unfolding body behind
  rest_of_heads b size small =
      let at = λ (c : ℕ) (t : Schema).
        let r' = record started { schema = t } in
        set_heads parse checksum_func 0 c (dump_merge_array_header c r') r' in
      let here : 8 + (length body - b.size) ≡ cursor =
        omega (arith, size, length-append (encoded format s) behind) in
      let same : value_schema (schema_value s) ≡ s = value_schema-schema_value s fits.0 in
      let front =
        magic ++ ((version_minor ∷ version_major ∷ Code.schema ∷ []) ++ encoded format s) in
      let len : length front ≡ cursor = omega arith in
      let found_head =
        dump_header_lem cursor (length payload) front
          (payload ++ (array_head (length sum) ++ (sum ++ rest))) headed refl len small in
      ap (λ c. at c (value_schema (schema_value s))) here
      ∙ (ap (λ t. at cursor t) same
          ∙ ap (λ m. set_heads parse checksum_func 0 cursor m headed) found_head)

  parse_schema_lem :
      length payload < 0x8000 → parse_schema parse checksum_func 0 found ≡ ok (0, none, parsed)
  unfolding parse_schema body behind
  parse_schema_lem small =
      let (b, unmarshalled, size) = unmarshal_schema_lem parse format s r.schema behind fits in
      let l5 : ltb (length wire) 5 ≡ false = le→ltb _ _ (omega arith) in
      let l7 : ltb (length wire) 7 ≡ false = le→ltb _ _ (omega arith) in
      rw (l5, l7)
        (ap (λ m. with_schema parse checksum_func 0 8 (length body) m started) unmarshalled
          ∙ rest_of_heads b size small)

  abbrev pub heads : List ℕ
  heads = heads_of format s (length payload)

  abbrev pub heads_size : ℕ
  heads_size = cursor + tarraym_head_length - 0

  wire_heads : wire ≡ heads ++ (payload ++ (array_head (length sum) ++ (sum ++ rest)))
  unfolding body behind
  wire_heads =
      ap (λ t. magic ++ ((version_minor ∷ version_major ∷ Code.schema ∷ []) ++ t))
        (sym (
          append_assoc (encoded format s) (array_head (length payload))
            (payload ++ (array_head (length sum) ++ (sum ++ rest)))))

  wire_frame : wire ≡ frame_of format s payload sum ++ rest
  wire_frame =
      let tail = array_head (length sum) ++ sum in
      wire_heads
      ∙ (ap (λ t. heads ++ t) (sym (append_assoc payload tail rest))
          ∙ sym (append_assoc heads (payload ++ tail) rest))

  length_heads : length heads ≡ heads_size
  length_heads = omega (arith, length-append (encoded format s) (array_head (length payload)))

  length_frame :
      length (frame_of format s payload sum)
      ≡ heads_size + length payload + (length sum + tarraym_head_length)
  length_frame = omega (
    arith,
    length_heads,
    length-append heads (payload ++ (array_head (length sum) ++ sum)),
    length-append payload (array_head (length sum) ++ sum),
  )

  length-wire :
      length wire ≡ heads_size + length payload + (length sum + tarraym_head_length) + length rest
  length-wire = omega (
    arith,
    ap length wire_frame,
    length-append (frame_of format s payload sum) rest,
    length_frame,
  )

  abbrev with_payload : RBuffer
  with_payload = record parsed { payload = some (0 + heads_size) }

  abbrev complete : RBuffer
  complete = record with_payload {
    checksum_len = some (length sum + tarraym_head_length);
    checksum = some (0 + heads_size + length payload);
  }

  parse_payload_lem : parse_payload parse checksum_func parsed ≡ ok (0, none, with_payload)
  unfolding parse_payload
  parse_payload_lem =
      let enough : ltb (length wire - 0) (heads_size + length payload) ≡ false =
        le→ltb _ _ (omega (arith, length-wire)) in
      rw enough refl

  parse_checksum_lem :
      length sum < 0x8000 → parse_checksum parse checksum_func with_payload ≡ ok (0, none, complete)
  unfolding parse_checksum
  parse_checksum_lem small =
      let enough : ltb (length wire - 0)
            (heads_size + length payload + tarraym_head_length + length sum)
          ≡ false =
        le→ltb _ _ (omega (arith, length-wire)) in
      let split =
        wire_heads ∙ sym (append_assoc heads payload (array_head (length sum) ++ (sum ++ rest))) in
      let len : length (heads ++ payload) ≡ 0 + heads_size + length payload =
        omega (arith, length-append heads payload, length_heads) in
      let head =
        dump_header_lem (0 + heads_size + length payload) (length sum) (heads ++ payload)
          (sum ++ rest) with_payload split len small in
      rw (head, enough) refl

  -- The fragment that the receiver hands over.
  abbrev pub fragment_of : Fragment
  fragment_of = record {
    header = record { magic_bytes = magic; version = version_minor ∷ version_major ∷ [] };
    schema = s;
    heads = heads;
    payload = payload;
    spare = array_head (length sum) ++ sum;
    data_len = heads_size + length payload + (length sum + tarraym_head_length);
    checksum = array_head (length sum) ++ sum;
  }

  cut_fragment_lem : cut_fragment parse checksum_func complete ≡ ok fragment_of
  unfolding cut_fragment
  cut_fragment_lem =
      let n = heads_size + length payload + (length sum + tarraym_head_length) in
      let enough : ltb (length wire) (0 + n) ≡ false = le→ltb _ _ (omega (arith, length-wire)) in
      let frame : take n wire ≡ frame_of format s payload sum =
        ap (take n) wire_frame ∙ take-append n (frame_of format s payload sum) rest length_frame in
      let tail = array_head (length sum) ++ sum in
      let one = take-append heads_size heads (payload ++ tail) length_heads in
      let two = drop-append heads_size heads (payload ++ tail) length_heads in
      let three = take-append (length payload) payload tail refl in
      let four : drop (heads_size + length payload) (frame_of format s payload sum) ≡ tail =
        ap (drop (heads_size + length payload)) (sym (append_assoc heads payload tail))
        ∙ drop-append (heads_size + length payload) (heads ++ payload) tail
            (omega (arith, length-append heads payload, length_heads)) in
      rw (enough, frame, one, two, three, four) refl

  module _ (valid : (sum ≡ []) ⊎ (checksum_func (heads ++ payload) ≡ sum)) where
    validate_lem : validate parse checksum_func (heads ++ payload) fragment_of ≡ ok none
    unfolding validate
    validate_lem =
        let long : ltb (length (array_head (length sum) ++ sum)) tarraym_head_length ≡ false =
          le→ltb _ _ (omega arith) in
        elim valid [
          | inl e ↦ rw (long, eq→== (length sum) 0 (omega (arith, ap length e))) refl
          | inr e ↦
              rw (long, e, same_text_refl sum)
                (elim (Bool-cases (length sum == 0)) [ inl z ↦ rw z refl | inr z ↦ rw z refl ])
        ]

    check_fragment_lem : check_fragment parse checksum_func complete ≡ ok (0, none, complete)
    unfolding check_fragment
    check_fragment_lem = rw (cut_fragment_lem, validate_lem) refl

    unmarshal_fragment_lem :
        64 ≤ length wire
        → length payload < 0x8000
        → length sum < 0x8000
        → unmarshal_fragment parse checksum_func found ≡ ok (0, none, complete)
    unfolding unmarshal_fragment parse_heads
    unmarshal_fragment_lem long small small_sum =
        let enough : ltb (length wire) fragment_min_header_size ≡ false = le→ltb _ _ long in
        rw
          (
            enough,
            parse_schema_lem small,
            parse_payload_lem,
            parse_checksum_lem small_sum,
            check_fragment_lem,
          )
          refl

  -- The receiver behind the fragment.
  abbrev pub behind_fragment : RBuffer
  behind_fragment = record (waiting rest r) {
    header = record { magic_bytes = magic; version = version_minor ∷ version_major ∷ [] };
    schema = s;
  }

  take_fragment_lem : take_fragment parse checksum_func complete ≡ ok (fragment_of, behind_fragment)
  unfolding take_fragment reset
  take_fragment_lem =
      let n = heads_size + length payload + (length sum + tarraym_head_length) in
      let zero_add : 0 + n ≡ n = omega arith in
      let left : drop n wire ≡ rest =
        ap (drop n) wire_frame ∙ drop-append n (frame_of format s payload sum) rest length_frame in
      rw (cut_fragment_lem, zero_add, left) refl

pub extract-frame_of :
    (parse : List ℕ → Option ℕ) (checksum_func : List ℕ → List ℕ) (format : ℕ → List ℕ) (s : Schema)
    (noise payload sum rest input : List ℕ) (r : RBuffer)
    → (fits : FitsSchema s)
    → r.data_bytes ++ input ≡ noise ++ (frame_of format s payload sum ++ rest)
    → index_of magic (r.data_bytes ++ input) ≡ some (length noise)
    → 64 ≤ length (frame_of format s payload sum ++ rest)
    → length payload < 0x8000
    → length sum < 0x8000
    → ((sum ≡ []) ⊎ (checksum_func (heads_of format s (length payload) ++ payload) ≡ sum))
    → (r' : RBuffer) × (extract parse checksum_func input (reset r) ≡ ok (0, none, r'))
      × (take_fragment parse checksum_func r'
          ≡ ok (
            fragment_of parse checksum_func format s payload sum rest fits r,
            behind_fragment parse checksum_func format s payload sum rest fits r,
          ))
unfolding extract extract_loop reset
extract-frame_of parse checksum_func format s noise payload sum rest input r fits stream first long
      small small_sum valid =
    let u = r.data_bytes ++ input in
    let w = wire parse checksum_func format s payload sum rest fits r in
    let from = wire_frame parse checksum_func format s payload sum rest fits r in
    let at : drop (length noise) u ≡ w =
      ap (drop (length noise)) stream ∙ (drop-append (length noise) noise _ refl ∙ sym from) in
    let from_magic : List ℕ → Step =
      λ t. ok (64 - length t, none, record (reset r) { data_bytes = t; magic_at = some 0 }) in
    let detected : detect_magic input 0 (reset r)
        ≡ ok (64 - length w, none, found parse checksum_func format s payload sum rest fits r) =
      detect_magic-located input (reset r) refl
      ∙ (ap (λ o. located o u (reset r)) first ∙ ap from_magic at) in
    let fuel : length r.data_bytes + length input + 2
        ≡ suc (length r.data_bytes + length input + 1) =
      omega arith in
    let done =
      unmarshal_fragment_lem parse checksum_func format s payload sum rest fits r valid
        (omega (arith, long, ap length from)) small small_sum in
    (
      complete parse checksum_func format s payload sum rest fits r,
      rw (fuel, detected, done) refl,
      take_fragment_lem parse checksum_func format s payload sum rest fits r,
    )
