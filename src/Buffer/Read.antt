-- ===== src/Buffer/Read.antt =====
-- tssd/buffer.go: the operations that read. The unread bytes begin at `pos` in fragment `index`;
-- `Size` counts them, and a call that asks for more is refused before it moves anything.
pub mod Stream
pub mod Items
pub mod Again
pub mod Yields
pub mod Returns
use tssdgo.Prelude.{
  ℕ, zero, suc, ◌+◌, ◌-◌, Option, none, some, List, [], ◌∷◌, ◌++◌, length, take, drop, ltb, leb,
  ◌==◌, if◌then◌else◌, ℤ, pos, negsuc, signed16, signed32,
}
use tssdgo.Wire.{Error, insufficient_data, Result, ok, err, panic, stuck, ◌>>=◌, of_le}
use tssdgo.Fragment.{Fragment}
use tssdgo.Buffer.{Buffer, entry, fragment_count}

-- `if buf.pos >= buf.avail(buf.index) { buf.pos -= ...; buf.index++ }`
unfoldable pub skip_used : Buffer → Result Buffer
skip_used b = do
  f ← entry b b.index
  ok (
      if leb (length f.payload) b.pos
      then record b { pos = b.pos - length f.payload; index = b.index + 1 }
      else b)

-- `copy(dest[:wanted], payload[buf.pos:...])` for the current fragment.
unfoldable pub take_chunk : ℕ → Buffer → Result (List ℕ × Buffer)
take_chunk n b = do
  f ← entry b b.index
  let chunk = take n (drop b.pos f.payload)
  if ltb (length f.payload) b.pos
      then panic
      else ok (chunk, record b { size = b.size - length chunk; pos = b.pos + length chunk })

-- The loop over the fragments behind. An index without an entry panics, so a round for each slot
-- of the map and one more is enough fuel.
unfoldable pub read_rest : ℕ → ℕ → Buffer → Result (List ℕ × Buffer)
read_rest zero n b = stuck
read_rest (suc fuel) n b = entry b b.index >>= λ f.
    let chunk = take n f.payload in
    let b1 = record b { size = b.size - length chunk } in
    let more = read_rest fuel (n - length chunk) (record b1 { index = b1.index + 1 }) in
    if n - length chunk == 0
    then ok (chunk, record b1 { pos = b1.pos + length chunk })
    else more >>= λ (rest, b2). ok (chunk ++ rest, b2)

-- The first chunk, and the rest if that is not enough.
unfoldable pub read_on : ℕ → ℕ → Buffer → Result (List ℕ × Buffer)
read_on fuel n b = do
  (front, b2) ← take_chunk n b
  if leb n (length front) then ok (front, b2) else do
    b3 ← skip_used b2
    (back, b4) ← read_rest fuel (n - length front) b3
    ok (front ++ back, b4)

-- `Read(dest)` for a slice of length `n`; the bytes are what it puts there.
unfoldable pub read : ℕ → Buffer → Result (List ℕ × Buffer)
read n b =
    if n == 0
    then ok ([], b)
    else if ltb b.size n
    then err insufficient_data
    else skip_used b >>= read_on (length b.fragments + 1) n

abbrev pub first_byte : List ℕ → ℕ
first_byte [] = 0
first_byte (x ∷ xs) = x

unfoldable pub read_byte : Buffer → Result (ℕ × Buffer)
read_byte b = do (bs, b') ← read 1 b; ok (first_byte bs, b')

-- `payload[pos]`
abbrev pub byte_at : List ℕ → ℕ → Result ℕ
byte_at [] i = panic
byte_at (x ∷ xs) zero = ok x
byte_at (x ∷ xs) (suc i) = byte_at xs i

unfoldable pub peek_byte : Buffer → Result (ℕ × Buffer)
peek_byte b =
    if b.size == 0
    then err insufficient_data
    else do b1 ← skip_used b; f ← entry b1 b1.index; x ← byte_at f.payload b1.pos; ok (x, b1)

unfoldable pub dump_size2 : Buffer → Result (ℤ × Buffer)
dump_size2 b = do (bs, b') ← read 2 b; ok (signed16 (of_le bs), b')

unfoldable pub dump_size4 : Buffer → Result (ℤ × Buffer)
dump_size4 b = do (bs, b') ← read 4 b; ok (signed32 (of_le bs), b')

-- `buf.Size < sizet`
abbrev pub lacks : Buffer → ℤ → Error → Result (Unit {0})
lacks b (pos n) e = if ltb b.size n then err e else ok tt
lacks b (negsuc n) e = ok tt

unfoldable pub check_dump_sizet : Buffer → Result (ℤ × Buffer)
check_dump_sizet b = do (n, b') ← dump_size4 b; _ ← lacks b' n insufficient_data; ok (n, b')

-- The total size in bytes and the number of fields or elements.
unfoldable pub check_dump_size : Buffer → Result (ℤ × ℤ × Buffer)
check_dump_size b = do
  (sizet, b1) ← check_dump_sizet b
  (sizea, b2) ← dump_size2 b1
  ok (sizet, sizea, b2)

-- `Rewind`: the loop visits the keys 0 to `len(buf.fragments) - 1`, and a missing one panics.
abbrev pub sum_payloads : List (Option Fragment) → ℕ → Result ℕ
sum_payloads os zero = ok 0
sum_payloads [] (suc n) = panic
sum_payloads (none ∷ os) (suc n) = panic
sum_payloads (some f ∷ os) (suc n) = sum_payloads os n >>= λ k. ok (length f.payload + k)

unfoldable pub rewind : Buffer → Result Buffer
rewind b = sum_payloads b.fragments (fragment_count b) >>= λ n.
    ok (record b { index = 0; pos = 0; size = n })

unfoldable pub clear : Buffer → Buffer
clear b = record b {
  index = 0;
  pos = 0;
  size = 0;
  heads = [];
  len_checksum = 0;
  fragments = [];
  stray = none;
}
