-- ===== src/Head/Layout.antt =====
-- The bytes of the heads, and the room that they leave.
use tssdgo.Prelude.{
  ℕ, ◌+◌, ◌≤◌, ◌<◌, ◌≡◌, refl, sym, ap, ◌∙◌, none, some, List, [], ◌∷◌, ◌++◌, length, take,
  length-append, append-nil, length-replicate, arith, false, true, le→leb, le→ltb, lt→leb, ltb, leb,
}
use tssdgo.Wire.{
  Schema, head_over_size, Result, ok, le2, le4, magic, version_minor, version_major,
  tarraym_head_length, sizet_length, sizea_length,
}
use tssdgo.Wire.Code
use mathlib.Core.Path.{subst}
use tssdgo.Fragment.{Fragment, capacity}
use tssdgo.Buffer.{Buffer, payloads}
use tssdgo.Buffer.Write.{append, append_size2, append_size4}
use tssdgo.Buffer.Write.State.{Frame, writer, IsOpen}
use tssdgo.Buffer.Write.Rounds.{Appended, append-Appended}
use tssdgo.Buffer.Write.Patch.{length-content}
use tssdgo.TypeInfo.Typed.{Typed, is_simple, is_str, is_object, no_fields, next_field}
use tssdgo.TypeInfo.Save.{save}
use tssdgo.TypeInfo.Saveable.{Saveable}
use tssdgo.TypeInfo.Save.Refines.{save-Appended}
use tssdgo.TypeInfo.Encode.{encode}
use tssdgo.Head.{
  schema_info, schema_value, prepared_mtu, head_fragment, head_buffer, cut_data, avail,
  marshal_schema, write_heads, seal_heads, prepare,
}

abbrev head_frame : ℕ → Frame
head_frame mtu = record { schema = none; heads = []; len_checksum = 0; width = mtu; pos = 0 }

-- All the content is in one fragment.
abbrev InOne : Frame → List ℕ → Result Buffer → Type 0
InOne fr c r =
    (last : Fragment) × (r ≡ ok (writer fr [] last)) × IsOpen fr 0 last × (last.payload ≡ c)

-- Less than a fragment's width of content has not opened a second fragment.
in_one :
    (fr : Frame) (c : List ℕ) (r : Result Buffer)
    → length c < fr.width
    → Appended fr c r
    → InOne fr c r
in_one fr c r short ([], last, e, full, fits, h) =
    (last, e, fits, sym (append-nil last.payload) ∙ h)
in_one fr c r short (f ∷ fs, last, e, full, fits, h) =
    let len = length-content fr (f ∷ fs) last full in absurd (grind (arith, ap length h, len))

step-InOne :
    (fr : Frame) (last : Fragment) (c bs : List ℕ)
    → IsOpen fr 0 last
    → last.payload ≡ c
    → length (c ++ bs) < fr.width
    → InOne fr (c ++ bs) (append bs (writer fr [] last))
step-InOne fr last c bs fits h short =
    let same : payloads (some last ∷ []) ≡ c = append-nil last.payload ∙ h in
    in_one fr (c ++ bs) _ short (rw same at (append-Appended fr [] last bs (omega arith) tt fits))

schema-Saveable : (s : Schema) → Saveable schema_info (schema_value s)
unfolding Saveable
schema-Saveable s = (tt, (tt, (tt, (tt, tt))))

schema-Typed : (s : Schema) → Typed schema_info (schema_value s)
schema-Typed s = is_object (
    next_field (is_simple (omega arith) (omega arith) refl)
      (next_field is_str (next_field is_str (next_field is_str no_fields))))

-- The bytes in front of the size of the payload.
unfoldable pub head_bytes : (format : ℕ → List ℕ) → Schema → List ℕ
head_bytes format s =
    ((magic ++ (version_minor ∷ version_major ∷ Code.schema ∷ []))
      ++ encode format schema_info (schema_value s))
    ++ (Code.arraym ∷ Code.uint8 ∷ [])

head_start : (mtu : ℕ) → head_buffer mtu ≡ writer (head_frame mtu) [] (head_fragment mtu)
head_start mtu = let e : 0 + 0 + mtu ≡ mtu = omega arith in rw e refl

module _ (format : ℕ → List ℕ) (checksum_func : List ℕ → List ℕ) (mtu : ℕ) (s : Schema) where
  marshal_saved :
      (last l : Fragment)
      → save format schema_info (schema_value s) (writer (head_frame mtu) [] last)
        ≡ ok (writer (head_frame mtu) [] l)
      → IsOpen (head_frame mtu) 0 l
      → marshal_schema format checksum_func s (writer (head_frame mtu) [] last)
        ≡ ok (writer (head_frame mtu) [] (record l { data_len = 0 + length l.payload }))
  unfolding marshal_schema cut_data
  marshal_saved last l e opening =
      let room : ltb (capacity l) (0 + length l.payload) ≡ false =
        le→ltb _ _ (omega (arith, opening.0)) in
      rw (e, cut_data, room) refl

  marshal-InOne :
      (last : Fragment) (c : List ℕ)
      → IsOpen (head_frame mtu) 0 last
      → last.payload ≡ c
      → length (c ++ encode format schema_info (schema_value s)) < mtu
      → InOne
          (head_frame mtu)
          (c ++ encode format schema_info (schema_value s))
          (marshal_schema format checksum_func s (writer (head_frame mtu) [] last))
  marshal-InOne last c fits h short =
      let same : payloads (some last ∷ []) ≡ c = append-nil last.payload ∙ h in
      let enc = encode format schema_info (schema_value s) in
      let saved =
        save-Appended format (head_frame mtu) [] last schema_info (schema_value s) (omega arith)
          (schema-Typed s) (schema-Saveable s) tt fits in
      let (l, e, opening, written) =
        in_one (head_frame mtu) (c ++ enc) _ short (rw same at saved) in
      (
        record l { data_len = 0 + length l.payload },
        marshal_saved last l e opening,
        (opening.0, opening.1, opening.2, λ h. absurd (omega arith)),
        written,
      )

  write_heads-InOne :
      length (head_bytes format s) < mtu
      → InOne
          (head_frame mtu)
          (head_bytes format s)
          (write_heads format checksum_func s (head_buffer mtu))
  unfolding write_heads head_bytes
  write_heads-InOne short =
      let v = version_minor ∷ version_major ∷ Code.schema ∷ [] in
      let enc = encode format schema_info (schema_value s) in
      let tail = Code.arraym ∷ Code.uint8 ∷ [] in
      let l3 = length-append ((magic ++ v) ++ enc) tail in
      let l2 = length-append (magic ++ v) enc in
      let fr = head_frame mtu in
      let start : IsOpen fr 0 (head_fragment mtu) = (
        omega (arith, length-replicate {A = ℕ} mtu 0),
        refl,
        omega arith,
        λ h. absurd (omega arith),
      ) in
      let (f1, e1, o1, c1) =
        step-InOne fr (head_fragment mtu) [] magic start refl (omega (arith, l2, l3, short)) in
      let (f2, e2, o2, c2) = step-InOne fr f1 magic v o1 c1 (omega (arith, l2, l3, short)) in
      let (f3, e3, o3, c3) = marshal-InOne f2 (magic ++ v) o2 c2 (omega (arith, l3, short)) in
      let (f4, e4, o4, c4) = step-InOne fr f3 ((magic ++ v) ++ enc) tail o3 c3 short in
      (f4, chain (ap (append magic) (head_start mtu) ∙ e1) e2 e3 e4, o4, c4)
    where
      chain :
          {b1 b2 b3 b4 : Buffer}
          → append magic (head_buffer mtu) ≡ ok b1
          → append (version_minor ∷ version_major ∷ Code.schema ∷ []) b1 ≡ ok b2
          → marshal_schema format checksum_func s b2 ≡ ok b3
          → append (Code.arraym ∷ Code.uint8 ∷ []) b3 ≡ ok b4
          → write_heads format checksum_func s (head_buffer mtu) ≡ ok b4
      chain e1 e2 e3 e4 = rw (write_heads, e1, e2, e3) e4

  -- The room for payload that `n` bytes of heads leave in a fragment.
  abbrev room : ℕ → ℕ
  room n = avail mtu n (tarraym_head_length + length (checksum_func []))

  sealed :
      (b : Buffer) (f f1 f2 : Fragment)
      → 0 + length f.payload + 6 + (tarraym_head_length + length (checksum_func [])) < mtu
      → append_size4 (room (0 + length f.payload) + sizea_length) (writer (head_frame mtu) [] f)
        ≡ ok (writer (head_frame mtu) [] f1)
      → append_size2 (room (0 + length f.payload)) (writer (head_frame mtu) [] f1)
        ≡ ok (writer (head_frame mtu) [] f2)
      → seal_heads format checksum_func mtu (writer (head_frame mtu) [] f) b
        ≡ ok (
          none,
          record b {
            len_checksum = tarraym_head_length + length (checksum_func []);
            heads = f2.payload;
          },
        )
  unfolding seal_heads
  sealed b f f1 f2 short e1 e2 =
      let fits : leb mtu (
            0
            + length f.payload
            + sizet_length
            + sizea_length
            + (tarraym_head_length + length (checksum_func [])))
          ≡ false =
        lt→leb _ _ (omega (arith, short)) in
      let whole : ltb (length f2.payload + length f2.spare) (0 + length f2.payload) ≡ false =
        le→ltb _ _ (omega arith) in
      rw (fits, e1, e2, whole, all) refl
    where
      take_all : (xs : List ℕ) → take (length xs) xs ≡ xs
      take_all [] = refl
      take_all (x ∷ xs) = ap (λ t. x ∷ t) (take_all xs)

      all : take (0 + length f2.payload) f2.payload ≡ f2.payload
      all =
          let z : 0 + length f2.payload ≡ length f2.payload = omega arith in
          rw z (take_all f2.payload)

  seal_in_one :
      (b : Buffer) (f : Fragment)
      → length (head_bytes format s) + 6 + (tarraym_head_length + length (checksum_func [])) < mtu
      → IsOpen (head_frame mtu) 0 f
      → f.payload ≡ head_bytes format s
      → seal_heads format checksum_func mtu (writer (head_frame mtu) [] f) b
        ≡ ok (
          none,
          record b {
            len_checksum = tarraym_head_length + length (checksum_func []);
            heads =
                (head_bytes format s ++ le4 (room (length (head_bytes format s)) + sizea_length))
                ++ le2 (room (length (head_bytes format s)));
          },
        )
  unfolding append_size4 append_size2
  seal_in_one b f short fits at =
      let n = length (head_bytes format s) in
      let fr = head_frame mtu in
      let c = head_bytes format s ++ le4 (room n + sizea_length) in
      let l1 = length-append (head_bytes format s) (le4 (room n + sizea_length)) in
      let l2 = length-append c (le2 (room n)) in
      let (f1, e1, o1, c1) =
        step-InOne fr f (head_bytes format s) (le4 (room n + sizea_length)) fits at
          (omega (arith, l1, short)) in
      let (f2, e2, o2, c2) =
        step-InOne fr f1 c (le2 (room n)) o1 c1 (omega (arith, l1, l2, short)) in
      let size : n ≡ 0 + length f.payload = omega (arith, ap length at) in
      rw c2 at (
        sealed b f f1 f2 (omega (arith, size, short))
          (subst (λ k. append_size4 (room k + sizea_length) (writer fr [] f) ≡ ok (writer fr [] f1))
            size e1)
          (subst (λ k. append_size2 (room k) (writer fr [] f1) ≡ ok (writer fr [] f2)) size e2))

-- The heads of every fragment that `prepare` makes, when the schema leaves room in the MTU: the
-- magic, the version and the code of the schema, the schema as an object, and the code and sizes of
-- the payload. The size is exactly the room that the heads and the checksum leave, at least one
-- byte, and nothing else of the buffer changes.
pub prepare-heads :
    (format : ℕ → List ℕ) (checksum_func : List ℕ → List ℕ) (s : Schema) (b : Buffer)
    → length (head_bytes format s) + 6 + (tarraym_head_length + length (checksum_func []))
      < prepared_mtu b.mtu
    → (k : ℕ) × (0 < k)
      × (length (head_bytes format s) + 6 + (tarraym_head_length + length (checksum_func [])) + k
          ≡ prepared_mtu b.mtu)
      × (prepare format checksum_func s b
          ≡ ok (
            none,
            record b {
              schema = some s;
              mtu = prepared_mtu b.mtu;
              len_checksum = tarraym_head_length + length (checksum_func []);
              heads = (head_bytes format s ++ le4 (k + sizea_length)) ++ le2 k;
            },
          ))
unfolding prepare
prepare-heads format checksum_func s b short =
    let mtu = prepared_mtu b.mtu in
    let n = length (head_bytes format s) in
    let (f, e, fits, at) = write_heads-InOne format checksum_func mtu s (omega (arith, short)) in
    (
      room format checksum_func mtu s n,
      omega (arith, short),
      omega (arith, short),
      rw e (
          seal_in_one format checksum_func mtu s
            (record b { mtu = mtu; schema = some s; heads = [] }) f short fits at),
    )

-- Heads that leave no room in the MTU are refused, when they lie in one fragment themselves.
pub prepare_refused :
    (format : ℕ → List ℕ) (checksum_func : List ℕ → List ℕ) (s : Schema) (b : Buffer)
    → length (head_bytes format s) < prepared_mtu b.mtu
    → prepared_mtu b.mtu
      ≤ length (head_bytes format s) + 6 + (tarraym_head_length + length (checksum_func []))
    → (b' : Buffer) × (prepare format checksum_func s b ≡ ok (some head_over_size, b'))
unfolding prepare seal_heads
prepare_refused format checksum_func s b short over =
    let mtu = prepared_mtu b.mtu in
    let (f, e, fits, at) = write_heads-InOne format checksum_func mtu s short in
    let full : leb mtu (
          0
          + length f.payload
          + sizet_length
          + sizea_length
          + (tarraym_head_length + length (checksum_func [])))
        ≡ true =
      le→leb _ _ (omega (arith, over, ap length at)) in
    (
      record b {
        mtu = mtu;
        schema = some s;
        heads = [];
        len_checksum = tarraym_head_length + length (checksum_func []);
      },
      rw (e, full) refl,
    )
