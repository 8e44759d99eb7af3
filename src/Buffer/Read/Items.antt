-- ===== src/Buffer/Read/Items.antt =====
-- The bytes and sizes at the front of the unread bytes.
use tssdgo.Prelude.{
  ℕ, zero, suc, ◌+◌, ◌≤◌, ◌<◌, ◌≡◌, refl, List, [], ◌∷◌, ◌++◌, length, drop, length-append,
  take-append, drop-append, arith, lt→ltb, le→ltb, ne→==, pos,
}
use tssdgo.Wire.{Result, ok, err, insufficient_data, le2, le4, of_le}
use tssdgo.Buffer.{Buffer}
use tssdgo.Buffer.Read.{
  read, read_byte, byte_at, peek_byte, dump_size2, dump_size4, check_dump_sizet, check_dump_size,
}
use tssdgo.Buffer.Read.Stream.{Holds, skip_used-Holds, read-TakesFrom, flat}

-- The call succeeds with `a`, and the unread bytes are then `rest`.
abbrev pub Got {ℓ} : {A : Type ℓ} → Result (A × Buffer) → A → List ℕ → Type ℓ
Got r a rest = (b' : Buffer) × (r ≡ ok (a, b')) × Holds b' rest

pub read-Got :
    (b : Buffer) (xs rest : List ℕ) → Holds b (xs ++ rest) → Got (read (length xs) b) xs rest
read-Got b xs rest held =
    let (b', r, h, _) =
      read-TakesFrom b (xs ++ rest) (length xs) held (omega (arith, length-append xs rest)) in
    (
      b',
      rw (r, take-append (length xs) xs rest refl),
      rw (drop-append (length xs) xs rest refl) at h,
    )

-- A read of more bytes than there are is refused.
pub read-short :
    (b : Buffer) (s : List ℕ) (n : ℕ) → Holds b s → length s < n → read n b ≡ err insufficient_data
unfolding read
read-short b s n held h =
    rw (ne→== n 0 (omega arith), lt→ltb b.size n (omega (arith, held.counted)))

pub read_byte-Got :
    (b : Buffer) (x : ℕ) (rest : List ℕ) → Holds b (x ∷ rest) → Got (read_byte b) x rest
unfolding read_byte
read_byte-Got b x rest held = let (b', r, h) = read-Got b (x ∷ []) rest held in (b', rw r, h)

byte_at-drop :
    (xs ys : List ℕ) (i x : ℕ) (s : List ℕ)
    → i < length xs
    → drop i xs ++ ys ≡ x ∷ s
    → byte_at xs i ≡ ok x
byte_at-drop [] ys i x s h e = absurd (omega arith)
byte_at-drop (z ∷ zs) ys zero x s h e = cc
byte_at-drop (z ∷ zs) ys (suc i) x s h e = byte_at-drop zs ys i x s (omega arith) e

-- `peek_byte` shows the next byte and leaves it unread.
pub peek_byte-Got :
    (b : Buffer) (x : ℕ) (rest : List ℕ) → Holds b (x ∷ rest) → Got (peek_byte b) x (x ∷ rest)
unfolding peek_byte
peek_byte-Got b x rest held =
    let (b', r, h, _, inside) = skip_used-Holds b (x ∷ rest) held (omega arith) in
    (
      b',
      rw (
        ne→== b.size 0 (omega (arith, held.counted)),
        r,
        h.at.0,
        byte_at-drop h.current.payload (flat h.behind) b'.pos x rest inside h.bytes,
      ),
      h,
    )

pub spell2 : (n : ℕ) → n < 0x10000 → of_le (le2 n) ≡ n
spell2 n h = omega arith

pub spell4 : (n : ℕ) → n < 0x100000000 → of_le (le4 n) ≡ n
spell4 n h = omega arith

pub dump_size2-Got :
    (b : Buffer) (n : ℕ) (rest : List ℕ)
    → n < 0x8000
    → Holds b (le2 n ++ rest)
    → Got (dump_size2 b) (pos n) rest
unfolding dump_size2
dump_size2-Got b n rest h held =
    let (b', r, h') = read-Got b (le2 n) rest held in
    (b', rw (r, spell2 n (omega arith), lt→ltb n 0x8000 h), h')

pub dump_size4-Got :
    (b : Buffer) (n : ℕ) (rest : List ℕ)
    → n < 0x80000000
    → Holds b (le4 n ++ rest)
    → Got (dump_size4 b) (pos n) rest
unfolding dump_size4
dump_size4-Got b n rest h held =
    let (b', r, h') = read-Got b (le4 n) rest held in
    (b', rw (r, spell4 n (omega arith), lt→ltb n 0x80000000 h), h')

pub check_dump_sizet-Got :
    (b : Buffer) (n : ℕ) (rest : List ℕ)
    → n < 0x80000000
    → n ≤ length rest
    → Holds b (le4 n ++ rest)
    → Got (check_dump_sizet b) (pos n) rest
unfolding check_dump_sizet
check_dump_sizet-Got b n rest h fit held =
    let (b', r, h') = dump_size4-Got b n rest h held in
    (b', rw (r, le→ltb b'.size n (omega (arith, h'.counted))), h')

pub check_dump_size-Got :
    (b : Buffer) (n k : ℕ) (rest : List ℕ)
    → n < 0x80000000
    → k < 0x8000
    → n ≤ length rest + 2
    → Holds b (le4 n ++ (le2 k ++ rest))
    → (b' : Buffer) × (check_dump_size b ≡ ok (pos n, pos k, b')) × Holds b' rest
unfolding check_dump_size
check_dump_size-Got b n k rest h hk fit held =
    let (b1, r1, h1) = check_dump_sizet-Got b n (le2 k ++ rest) h (omega arith) held in
    let (b2, r2, h2) = dump_size2-Got b1 k rest hk h1 in (b2, rw (r1, r2), h2)
