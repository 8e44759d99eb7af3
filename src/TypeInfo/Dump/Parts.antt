-- ===== src/TypeInfo/Dump/Parts.antt =====
-- Reading back each part of the format.
use tssdgo.Prelude.{
  ℕ, ◌+◌, ◌*◌, ◌<◌, ◌≡◌, refl, Option, some, List, [], ◌∷◌, ◌++◌, length, take, replicate,
  length-append, length-replicate, drop_all, append-nil, arith, ==_refl, le→ltb, le→leb, pos,
}
use tssdgo.Wire.{ok, le2, le4}
use tssdgo.Wire.Code
use tssdgo.Buffer.{Buffer}
use tssdgo.Buffer.Read.{check_dump_size}
use tssdgo.Buffer.Read.Stream.{Holds}
use tssdgo.Buffer.Read.Items.{
  Got, read-Got, read_byte-Got, check_dump_sizet-Got, check_dump_size-Got,
}
use tssdgo.TypeInfo.{Value, bytes, text, instant, raw, nil_slice}
use tssdgo.TypeInfo.Encode.{sized, string_bytes, merged}
use tssdgo.TypeInfo.Fits.{FitsSized}
use tssdgo.TypeInfo.Dump.{
  tag_of, same, mem_dump, read_or, string_dump, str_dump, time_dump, merge_head, read_into,
  merge_array_dump, merge_slice_dump, expect_byte,
}

pub read_or-Got :
    (old : List ℕ) (b : Buffer) (xs rest : List ℕ) (n : ℕ)
    → length xs ≡ n
    → Holds b (xs ++ rest)
    → Got (read_or old n b) xs rest
read_or-Got old b xs rest n e held =
    let (b', r, h) = read-Got b xs rest held in (b', rw (← e, r), h)

pub read_into-Got :
    (old : List ℕ) (b : Buffer) (xs rest : List ℕ) (n : ℕ)
    → length xs ≡ n
    → length old ≡ n
    → Holds b (xs ++ rest)
    → Got (read_into old n b) xs rest
read_into-Got old b xs rest n e o held =
    let (b', r, h) = read_or-Got (take n old) b xs rest n e held in
    (
      b',
      rw (
        r,
        le→leb (length xs) (length old) (omega arith),
        drop_all (length xs) old (omega arith),
        append-nil xs,
      ),
      h,
    )

string_dump-Got :
    (b : Buffer) (s rest : List ℕ)
    → length s < 0x80000000
    → Holds b (string_bytes s ++ rest)
    → Got (string_dump b) s rest
unfolding string_dump
string_dump-Got b s rest fits held =
    let (b1, r1, h1) =
      check_dump_sizet-Got b (length s) (s ++ rest) fits (omega (arith, length-append s rest))
        held in
    let (b2, r2, h2) = read_or-Got [] b1 s rest (length s) refl h1 in (b2, rw (r1, r2), h2)

pub tag_same : (t : ℕ) → tag_of t t ≡ same
tag_same t = rw (==_refl t)

pub mem_dump-Got :
    (t n : ℕ) (b : Buffer) (d : Value) (bs rest : List ℕ)
    → length bs ≡ n
    → Holds b (t ∷ (bs ++ rest))
    → Got (mem_dump t n b d) (bytes bs) rest
unfolding mem_dump
mem_dump-Got t n b d bs rest e held =
    let (b1, r1, h1) = read_byte-Got b t (bs ++ rest) held in
    let (b2, r2, h2) = read-Got b1 bs rest h1 in
    (
      b2,
      rw (
        r1,
        tag_same t,
        le→ltb b1.size n (omega (arith, h1.counted, length-append bs rest)),
        ← e,
        r2,
      ),
      h2,
    )

pub str_dump-Got :
    (b : Buffer) (d : Value) (s rest : List ℕ)
    → length s < 0x80000000
    → Holds b (Code.string ∷ (string_bytes s ++ rest))
    → Got (str_dump b d) (text s) rest
unfolding str_dump
str_dump-Got b d s rest fits held =
    let (b1, r1, h1) = read_byte-Got b Code.string (string_bytes s ++ rest) held in
    let (b2, r2, h2) = string_dump-Got b1 s rest fits h1 in (b2, rw (r1, r2), h2)

pub expect_byte-Got :
    (t : ℕ) (b : Buffer) (rest : List ℕ)
    → Holds b (t ∷ rest)
    → (b' : Buffer) × (expect_byte t b ≡ ok b') × Holds b' rest
expect_byte-Got t b rest held =
    let (b', r, h) = read_byte-Got b t rest held in (b', rw (r, ==_refl t), h)

pub time_dump-Got :
    (parse : List ℕ → Option ℕ) (b : Buffer) (d : Value) (s rest : List ℕ) (t : ℕ)
    → length s < 0x80000000
    → parse s ≡ some t
    → Holds b (Code.time ∷ Code.string ∷ (string_bytes s ++ rest))
    → Got (time_dump parse b d) (instant t) rest
unfolding time_dump
time_dump-Got parse b d s rest t fits p held =
    let (b1, r1, h1) = read_byte-Got b Code.time (Code.string ∷ (string_bytes s ++ rest)) held in
    let (b2, r2, h2) = expect_byte-Got Code.string b1 (string_bytes s ++ rest) h1 in
    let (b3, r3, h3) = string_dump-Got b2 s rest fits h2 in (b3, rw (r1, r2, r3, p), h3)

-- The sizes in front of a counted body.
pub sized-Got :
    (b : Buffer) (n : ℕ) (body rest : List ℕ)
    → FitsSized n body
    → Holds b (sized n body ++ rest)
    → (b' : Buffer) × (check_dump_size b ≡ ok (pos (2 + length body), pos n, b'))
      × Holds b' (body ++ rest)
sized-Got b n body rest fits held =
    check_dump_size-Got b (2 + length body) n (body ++ rest) fits.1 fits.0
      (omega (arith, length-append body rest)) held

pub merge_head-Got :
    (n t e : ℕ) (b : Buffer) (bs rest : List ℕ)
    → FitsSized n bs
    → length bs ≡ e * n
    → Holds b (t ∷ (le4 (2 + e * n) ++ (le2 n ++ (bs ++ rest))))
    → Got (merge_head t b) (pos n) (bs ++ rest)
unfolding merge_head
merge_head-Got n t e b bs rest fits len held =
    let (b1, r1, h1) = read_byte-Got b t (le4 (2 + e * n) ++ (le2 n ++ (bs ++ rest))) held in
    let (b2, r2, h2) =
      check_dump_size-Got b1 (2 + e * n) n (bs ++ rest) (omega (arith, fits, len)) fits.0
        (omega (arith, len, length-append bs rest)) h1 in
    (b2, rw (r1, ==_refl t, r2), h2)

module _ (n t e : ℕ) (b : Buffer) (bs rest : List ℕ) (fits : FitsSized n bs)
    (len : length bs ≡ e * n) (front : Holds b (merged n t e bs ++ rest)) where
  pub merge_array_dump-Got :
      (old : List ℕ)
      → length old ≡ e * n
      → Got (merge_array_dump n t e b (bytes old)) (bytes bs) rest
  unfolding merge_array_dump
  merge_array_dump-Got old o =
      let (b1, r1, h1) =
        read_byte-Got b Code.arraym (t ∷ (le4 (2 + e * n) ++ (le2 n ++ (bs ++ rest)))) front in
      let (b2, r2, h2) = merge_head-Got n t e b1 bs rest fits len h1 in
      let (b3, r3, h3) =
        read_into-Got old b2 bs rest (n * e) (omega (arith, len)) (omega (arith, o)) h2 in
      (b3, rw (r1, r2, r3), h3)

  pub merge_slice_dump-Got : Got (merge_slice_dump t e b nil_slice) (raw n bs []) rest
  unfolding merge_slice_dump
  merge_slice_dump-Got =
      let (b1, r1, h1) =
        read_byte-Got b Code.arraym (t ∷ (le4 (2 + e * n) ++ (le2 n ++ (bs ++ rest)))) front in
      let (b2, r2, h2) = merge_head-Got n t e b1 bs rest fits len h1 in
      let (b3, r3, h3) =
        read_into-Got (replicate (n * e) 0) b2 bs rest (n * e) (omega (arith, len))
          (length-replicate {A = ℕ} (n * e) 0) h2 in
      (b3, rw (r1, r2, r3), h3)
