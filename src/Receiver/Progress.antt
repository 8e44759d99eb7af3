-- ===== src/Receiver/Progress.antt =====
-- Each part of `Extract` leaves the bytes alone, and a wish for more bytes is a wish for at least one.
use tssdgo.Prelude.{
  ℕ, zero, suc, ◌+◌, ◌-◌, ◌≤◌, ◌<◌, ◌≡◌, refl, sym, Option, none, some, List, [], ◌∷◌, ◌++◌, length,
  drop, length-append, length-drop, arith, true, ltb, ltb→lt, lt→ltb, ◌==◌, not, ◌&&◌, ◌||◌, inl,
  inr, Bool-cases, Option-cases,
}
use tssdgo.Wire.{
  Error, Result, ok, err, panic, beyond, stuck, ◌>>=◌, tarraym_head_length,
  fragment_min_header_size, magic,
}
use tssdgo.Buffer.{Buffer}
use tssdgo.Buffer.Read.{byte_at}
use tssdgo.Buffer.Assemble.{same_text}
use tssdgo.TypeInfo.{Value}
use tssdgo.Wire.Code
use tssdgo.Receiver.{
  RBuffer, Step, known, reset, index_of, detect_from, detect_magic, search_kept, search_joint,
  found_magic,
}
use mathlib.Core.Path.{subst}
use tssdgo.Receiver.Detect.{located, search_kept_lem}
use tssdgo.Receiver.Extract.{
  ArrayHead, found_array, no_array, array_or_invalid, read_array, dump_merge_array_header, ◌>>>◌,
  is_insufficient, set_heads, schema_error, with_schema, parse_schema, parse_heads_at, parse_heads,
  parse_payload_at, parse_payload, set_checksum, parse_checksum_at, parse_checksum, cut_fragment,
  validate, check_fragment, unmarshal_fragment, extract_loop, extract, next_round, slice,
  value_schema,
}

-- The receiver holds `bs` still, and asks for a byte or more if it asks.
abbrev pub Fair : List ℕ → Step → Type 0
Fair bs (ok (more, none, r)) = r.data_bytes ≡ bs
Fair bs (ok (more, some e, r)) = (r.data_bytes ≡ bs) × (is_insufficient e ≡ true → 0 < more)
Fair bs _ = Unit

Fair->>> :
    (bs : List ℕ) (s : Step) (next : RBuffer → Step)
    → Fair bs s
    → ((r : RBuffer) → r.data_bytes ≡ bs → Fair bs (next r))
    → Fair bs (s >>> next)
Fair->>> bs (ok (more, none, r)) next h k = k r h
Fair->>> bs (ok (more, some e, r)) next h k = h
Fair->>> bs (err e) next h k = tt
Fair->>> bs panic next h k = tt
Fair->>> bs beyond next h k = tt
Fair->>> bs stuck next h k = tt

Fair->>= {ℓ} :
    {A : Type ℓ} (bs : List ℕ) (m : Result A) (next : A → Step)
    → ((a : A) → Fair bs (next a))
    → Fair bs (m >>= next)
Fair->>= bs (ok a) next h = h a
Fair->>= bs (err e) next h = tt
Fair->>= bs panic next h = tt
Fair->>= bs beyond next h = tt
Fair->>= bs stuck next h = tt

-- The head of an array asks for what is missing of it.
IsFairHead : ArrayHead → Type 0
IsFairHead (found_array n) = Unit
IsFairHead (no_array more e) = is_insufficient e ≡ true → 0 < more

array_or_invalid-IsFairHead : (o : Option ℕ) → IsFairHead (array_or_invalid o)
unfolding IsFairHead
array_or_invalid-IsFairHead none = λ h. cc
array_or_invalid-IsFairHead (some n) = tt

read_array-IsFairHead : (bs : List ℕ) → IsFairHead (read_array bs)
unfolding IsFairHead
read_array-IsFairHead (t ∷ u ∷ a ∷ b ∷ c ∷ d ∷ e ∷ f ∷ rest) =
    elim (Bool-cases (not (t == Code.arraym) || not (u == Code.uint8))) [
      | inl z ↦ rw z (λ h. cc)
      | inr z ↦ rw z (array_or_invalid-IsFairHead _)
    ]
read_array-IsFairHead [] = λ h. cc
read_array-IsFairHead (t ∷ []) = λ h. cc
read_array-IsFairHead (t ∷ u ∷ []) = λ h. cc
read_array-IsFairHead (t ∷ u ∷ a ∷ []) = λ h. cc
read_array-IsFairHead (t ∷ u ∷ a ∷ b ∷ []) = λ h. cc
read_array-IsFairHead (t ∷ u ∷ a ∷ b ∷ c ∷ []) = λ h. cc
read_array-IsFairHead (t ∷ u ∷ a ∷ b ∷ c ∷ d ∷ []) = λ h. cc
read_array-IsFairHead (t ∷ u ∷ a ∷ b ∷ c ∷ d ∷ e ∷ []) = λ h. cc

dump_header-IsFairHead : (at : ℕ) (r : RBuffer) → IsFairHead (dump_merge_array_header at r)
unfolding IsFairHead dump_merge_array_header
dump_header-IsFairHead at r =
    elim (Bool-cases (ltb (length r.data_bytes) (at + tarraym_head_length))) [
      | inl e ↦ rw e (λ h. omega (arith, ltb→lt _ _ e))
      | inr e ↦ rw e (read_array-IsFairHead (drop at r.data_bytes))
    ]

module _ (parse : List ℕ → Option ℕ) (checksum_func : List ℕ → List ℕ) (bs : List ℕ) where
  set_heads-Fair :
      (start cursor : ℕ) (h : ArrayHead) (r : RBuffer)
      → r.data_bytes ≡ bs
      → IsFairHead h
      → Fair bs (set_heads parse checksum_func start cursor h r)
  unfolding IsFairHead
  set_heads-Fair start cursor (found_array n) r e h = e
  set_heads-Fair start cursor (no_array more x) r e h = (e, h)

  schema_error-Fair :
      (x : Error) (r : RBuffer) → r.data_bytes ≡ bs → Fair bs (schema_error parse checksum_func x r)
  schema_error-Fair x r e = elim (Bool-cases (is_insufficient x)) [
    | inl z ↦ rw z (e, λ h. omega arith)
    | inr z ↦ rw z (e, λ h. absurd cc)
  ]

  with_schema-Fair :
      (start cursor len : ℕ) (m : Result (Value × Buffer)) (r : RBuffer)
      → r.data_bytes ≡ bs
      → Fair bs (with_schema parse checksum_func start cursor len m r)
  with_schema-Fair start cursor len (ok (v, b)) r e =
      set_heads-Fair start _ _ (record r { schema = value_schema v }) e (dump_header-IsFairHead _ _)
  with_schema-Fair start cursor len (err x) r e = schema_error-Fair x r e
  with_schema-Fair start cursor len panic r e = tt
  with_schema-Fair start cursor len beyond r e = tt
  with_schema-Fair start cursor len stuck r e = tt

  parse_schema-Fair :
      (start : ℕ) (r : RBuffer)
      → r.data_bytes ≡ bs
      → Fair bs (parse_schema parse checksum_func start r)
  unfolding parse_schema
  parse_schema-Fair start r e = Fair->>= bs (byte_at r.data_bytes (start + 7)) _ λ t.
      elim (Bool-cases (not (t == Code.schema))) [
        | inl z ↦ rw z (e, λ h. cc)
        | inr z ↦ rw z (
            Fair->>= bs (slice start 5 r.data_bytes) _ λ name.
              Fair->>= bs (slice (start + 5) 2 r.data_bytes) _ λ version.
                with_schema-Fair start (start + 8) _ _
                  (record r { header = record { magic_bytes = name; version = version } }) e)
      ]

  parse_heads_at-Fair :
      (known_len start : Option ℕ) (r : RBuffer)
      → r.data_bytes ≡ bs
      → Fair bs (parse_heads_at parse checksum_func known_len start r)
  parse_heads_at-Fair (some n) start r e = e
  parse_heads_at-Fair none start r e =
      elim (Bool-cases (ltb (length r.data_bytes) fragment_min_header_size)) [
        | inl z ↦ rw z (e, λ h. omega (arith, ltb→lt _ _ z))
        | inr z ↦ rw z (Fair->>= bs (known start) _ λ i. parse_schema-Fair i r e)
      ]

  parse_payload_at-Fair :
      (p : Option ℕ) (start heads n : ℕ) (r : RBuffer)
      → r.data_bytes ≡ bs
      → Fair bs (parse_payload_at parse checksum_func p start heads n r)
  parse_payload_at-Fair (some p) start heads n r e = e
  parse_payload_at-Fair none start heads n r e =
      elim (Bool-cases (ltb (length r.data_bytes - start) (heads + n))) [
        | inl z ↦ rw z (e, λ h. omega (arith, ltb→lt _ _ z))
        | inr z ↦ rw z e
      ]

  set_checksum-Fair :
      (start at before : ℕ) (h : ArrayHead) (r : RBuffer)
      → r.data_bytes ≡ bs
      → IsFairHead h
      → Fair bs (set_checksum parse checksum_func start at before h r)
  unfolding IsFairHead
  set_checksum-Fair start at before (no_array more x) r e h = (e, h)
  set_checksum-Fair start at before (found_array n) r e h =
      elim (Bool-cases (ltb (length r.data_bytes - start) (before + tarraym_head_length + n))) [
        | inl z ↦ rw z (e, λ h'. omega (arith, ltb→lt _ _ z))
        | inr z ↦ rw z e
      ]

  parse_checksum_at-Fair :
      (c : Option ℕ) (start heads n p : ℕ) (r : RBuffer)
      → r.data_bytes ≡ bs
      → Fair bs (parse_checksum_at parse checksum_func c start heads n p r)
  parse_checksum_at-Fair (some c) start heads n p r e = e
  parse_checksum_at-Fair none start heads n p r e =
      set_checksum-Fair start (p + n) (heads + n) _ r e (dump_header-IsFairHead (p + n) r)

  check_fragment-Fair :
      (r : RBuffer) → r.data_bytes ≡ bs → Fair bs (check_fragment parse checksum_func r)
  unfolding check_fragment validate
  check_fragment-Fair r e = Fair->>= bs (cut_fragment parse checksum_func r) _ λ f.
      let sum = drop tarraym_head_length f.checksum in
      elim (Bool-cases (ltb (length f.checksum) tarraym_head_length)) [
        | inl z ↦ rw z tt
        | inr z ↦
            elim (Bool-cases (
              not (length sum == 0)
              && not (same_text (checksum_func (f.heads ++ f.payload)) sum))) [
                | inl bad ↦ rw (z, bad) (e, λ h. cc)
                | inr good ↦ rw (z, good) e
              ]
      ]

  pub unmarshal_fragment-Fair :
      (r : RBuffer) → r.data_bytes ≡ bs → Fair bs (unmarshal_fragment parse checksum_func r)
  unfolding unmarshal_fragment parse_heads parse_payload parse_checksum
  unmarshal_fragment-Fair r e =
      Fair->>> bs _ (check_fragment parse checksum_func)
        (Fair->>> bs _ (parse_checksum parse checksum_func)
          (Fair->>> bs _ (parse_payload parse checksum_func)
            (parse_heads_at-Fair r.heads_len r.magic_at r e)
            λ r1 e1. Fair->>= bs (known r1.magic_at) _ λ start.
              Fair->>= bs (known r1.heads_len) _ λ h.
                Fair->>= bs (known r1.payload_len) _
                  λ n. parse_payload_at-Fair r1.payload start h n r1 e1)
          λ r2 e2. Fair->>= bs (known r2.magic_at) _ λ start.
            Fair->>= bs (known r2.heads_len) _ λ h. Fair->>= bs (known r2.payload_len) _ λ n.
              Fair->>= bs (known r2.payload) _
                λ p. parse_checksum_at-Fair r2.checksum start h n p r2 e2)
        check_fragment-Fair

-- What a search behind the magic of the last round leads to: five bytes fewer at least, from the next
-- magic on, or a wish for more.
abbrev pub Shrinks : ℕ → Step → Type 0
Shrinks n (ok (more, none, r)) = length r.data_bytes + 5 ≤ n
Shrinks n (ok (more, some e, r)) = (is_insufficient e ≡ true) × (0 < more)
Shrinks n stuck = ⊥
Shrinks n _ = Unit

joint_short : (n : ℕ) (r : RBuffer) → length r.data_bytes < 5 → Shrinks n (search_joint [] r)
unfolding search_joint
joint_short n r h =
    rw (lt→ltb (length r.data_bytes + 0) 5 (omega (arith, h)))
      (refl, omega (arith, h, length-append r.data_bytes []))

found_Shrinks :
    (n : ℕ) (bs : List ℕ) (r : RBuffer) → length bs + 5 ≤ n → Shrinks n (found_magic bs r)
unfolding found_magic
found_Shrinks n bs r h = h

pub search_again : (r : RBuffer) → Shrinks (length r.data_bytes) (search_kept [] 5 r)
unfolding search_kept
search_again r = elim (Bool-cases (ltb (length r.data_bytes) 5)) [
  | inl e ↦ rw e (joint_short _ r (ltb→lt _ _ e))
  | inr e ↦
      let many : 5 ≤ length r.data_bytes = ground arith in
      elim (Option-cases (index_of magic (drop 5 r.data_bytes))) [
        | inl h ↦
            let left : length (drop (length r.data_bytes - 4) r.data_bytes) < 5 =
              omega (arith, length-drop (length r.data_bytes - 4) r.data_bytes, many) in
            rw (e, search_kept, h)
              (joint_short (length r.data_bytes)
                (record r { data_bytes = drop (length r.data_bytes - 4) r.data_bytes }) left)
        | inr (i, h) ↦
            rw (e, search_kept, h)
              (found_Shrinks (length r.data_bytes) (drop (5 + i) r.data_bytes ++ []) r (
                omega (
                  arith,
                  length-append (drop (5 + i) r.data_bytes) [],
                  length-drop (5 + i) r.data_bytes,
                  many,
                )))
      ]
]

-- An answer with an error asks for bytes.
abbrev pub Asks : Step → Type 0
Asks (ok (more, some e, r)) = (is_insufficient e ≡ true) × (0 < more)
Asks _ = Unit

Asks-located : (o : Option ℕ) (u : List ℕ) (r : RBuffer) → Asks (located o u r)
Asks-located none u r = (refl, omega (arith, length-drop (length u - 4) u))
Asks-located (some i) u r = tt

Asks-detect_from : (o : Option ℕ) (d : List ℕ) (r : RBuffer) → Asks (detect_from o d 0 r)
Asks-detect_from none d r =
    subst Asks (sym (search_kept_lem d r))
      (Asks-located (index_of magic (r.data_bytes ++ d)) (r.data_bytes ++ d) r)
Asks-detect_from (some i) d r = tt

Asks->>> :
    (s : Step) (next : RBuffer → Step)
    → Asks s
    → ((r : RBuffer) → Asks (next r))
    → Asks (s >>> next)
Asks->>> (ok (more, none, r)) next h k = k r
Asks->>> (ok (more, some e, r)) next h k = h
Asks->>> (err e) next h k = tt
Asks->>> panic next h k = tt
Asks->>> beyond next h k = tt
Asks->>> stuck next h k = tt

Shrinks-Asks : (n : ℕ) (s : Step) → Shrinks n s → Asks s
Shrinks-Asks n (ok (more, none, r)) h = tt
Shrinks-Asks n (ok (more, some e, r)) h = h
Shrinks-Asks n (err e) h = tt
Shrinks-Asks n panic h = tt
Shrinks-Asks n beyond h = tt
Shrinks-Asks n stuck h = tt

module _ (parse : List ℕ → Option ℕ) (checksum_func : List ℕ → List ℕ) where
  round-Asks :
      (bs : List ℕ) (m : Step) (again : RBuffer → Step)
      → Fair bs m
      → ((r : RBuffer) → r.data_bytes ≡ bs → Asks (again r))
      → Asks (m >>= next_round parse checksum_func again)
  round-Asks bs (ok (more, none, r)) again h k = tt
  round-Asks bs (ok (more, some e, r)) again h k = elim (Bool-cases (is_insufficient e)) [
    | inl z ↦ rw z (z, h.1 z)
    | inr z ↦ rw z (k r h.0)
  ]
  round-Asks bs (err e) again h k = tt
  round-Asks bs panic again h k = tt
  round-Asks bs beyond again h k = tt
  round-Asks bs stuck again h k = tt

  loop-Asks : (fuel : ℕ) (r : RBuffer) → Asks (extract_loop parse checksum_func fuel [] 5 (reset r))
  unfolding extract_loop detect_magic reset
  loop-Asks zero r = tt
  loop-Asks (suc fuel) r =
      Asks->>> (search_kept [] 5 (reset r)) _ (Shrinks-Asks _ _ (search_again (reset r))) λ r1.
        round-Asks r1.data_bytes (unmarshal_fragment parse checksum_func r1) _
          (unmarshal_fragment-Fair parse checksum_func r1.data_bytes r1 refl)
          λ r2 e. loop-Asks fuel r2

-- Whatever bytes come in, an error of `Extract` is the wish for more bytes, and it is a wish for at
-- least one: a reader that asks for that many always asks for some.
pub Asks-extract :
    (parse : List ℕ → Option ℕ) (checksum_func : List ℕ → List ℕ) (input : List ℕ) (r : RBuffer)
    → Asks (extract parse checksum_func input r)
unfolding extract extract_loop detect_magic
Asks-extract parse checksum_func input r =
    let fuel : length r.data_bytes + length input + 2
        ≡ suc (length r.data_bytes + length input + 1) =
      omega arith in
    rw fuel (
      Asks->>> (detect_from r.magic_at input 0 r) _ (Asks-detect_from r.magic_at input r) λ r1.
        round-Asks parse checksum_func r1.data_bytes (unmarshal_fragment parse checksum_func r1) _
          (unmarshal_fragment-Fair parse checksum_func r1.data_bytes r1 refl)
          λ r2 e. loop-Asks parse checksum_func _ r2)
