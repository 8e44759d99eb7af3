-- ===== src/Buffer/Write.antt =====
-- tssd/buffer.go: the operations that write. Every byte goes through `append`, which opens a new
-- fragment, a copy of `heads`, whenever the last one is full.
pub mod State
pub mod Rounds
pub mod Patch
pub mod Checksums
pub mod Last
pub mod Sealed
use tssdgo.Prelude.{
  ℕ, zero, suc, ◌+◌, ◌-◌, ◌%◌, Bool, Option, none, some, List, [], ◌∷◌, ◌++◌, ◌||◌, length, take,
  drop, set, replicate, ltb, leb, ◌==◌, if◌then◌else◌,
}
use tssdgo.Wire.{
  Schema, Result, ok, panic, stuck, ◌>>=◌, le2, le4, neg16, no_schema, no_header, buffer_mtu,
}
use tssdgo.Fragment.{Fragment, capacity, poke, append_payload, append_data, raw_data}
use tssdgo.Buffer.{Buffer, entry, put_entry, fragment_count}
use tssdgo.Wire.Code

-- `pos >= buf.wavail(index)`. The source takes the capacity of the fragment at the read index
-- `buf.index`, whatever the argument.
unfoldable pub reaches_wavail : Buffer → ℕ → Result Bool
reaches_wavail b pos = do
  f ← entry b b.index
  ok (leb (capacity f) (pos + length b.heads + b.len_checksum))

unfoldable pub write_pos : Buffer → Result (ℕ × ℕ)
write_pos b = if fragment_count b == 0 then panic else do
  f ← entry b (fragment_count b - 1)
  full ← reaches_wavail b (length f.payload)
  ok (if full then (fragment_count b, 0) else (fragment_count b - 1, length f.payload))

-- `copy(buf.fragments[index].Data[16:], ...)`; `n` is the 16-bit pattern of the id.
unfoldable pub update_fragment_id : ℕ → ℕ → Buffer → Result Buffer
update_fragment_id i n b = if length b.heads == 0 then ok b else do
  f ← entry b i
  ok (
      if ltb f.data_len 17 then b else record b {
        fragments = put_entry b.fragments i (poke 16 (take (f.data_len - 16) (le2 n)) f);
      })

abbrev pub schema_of : Option Schema → ℕ → Schema
schema_of none i = no_schema
schema_of (some s) i = record s { fid = (i + 1) % 0x10000 }

-- `make([]byte, MTU)` with the heads copied to its front.
unfoldable pub fresh_fragment : Buffer → Fragment
fresh_fragment b = record {
  header = no_header;
  schema = schema_of b.schema b.windex;
  heads = b.heads;
  payload = [];
  spare = replicate (b.mtu - length b.heads) 0;
  data_len = b.mtu - b.len_checksum;
  checksum = [];
}

unfoldable pub with_default_mtu : Buffer → Buffer
with_default_mtu b = record b { mtu = if b.mtu == 0 then buffer_mtu else b.mtu }

-- The two tests are those of the slice expressions `b[:len(buf.heads)]` and
-- `b[:buf.MTU-buf.lenChecksum]`.
unfoldable pub add_fragment : Buffer → Result Buffer
add_fragment b =
    if ltb b.mtu (length b.heads) || ltb b.mtu b.len_checksum
    then panic
    else update_fragment_id b.windex ((b.windex + 1) % 0x10000)
        (record b { fragments = put_entry b.fragments b.windex (fresh_fragment b) })

-- The body of `if buf.windex == len(buf.fragments)`.
unfoldable pub open_fragment : Buffer → Result Buffer
open_fragment b = add_fragment (with_default_mtu b)

unfoldable pub ensure_fragment : Buffer → Result Buffer
ensure_fragment b = if b.windex == fragment_count b then open_fragment b else ok b

-- The bytes that go into the current fragment, appended to its payload.
unfoldable pub fill_fragment : List ℕ → Buffer → Result Buffer
fill_fragment bs b = do
  f ← entry b b.windex
  f' ← append_payload bs f
  ok (record b { fragments = put_entry b.fragments b.windex f'; size = b.size + length bs })

-- One round of the loop for a non-empty `bs`: what is still to be written, and the buffer.
-- `none` means that `Append` has returned.
unfoldable pub append_round : List ℕ → Buffer → Result (Option (List ℕ) × Buffer)
append_round bs b = do
  b1 ← ensure_fragment b
  f ← entry b1 b1.windex
  base ← entry b1 b1.index
  let taken = length b1.heads + b1.len_checksum + length f.payload
  if leb (taken + length bs) (capacity base)
      then fill_fragment bs b1 >>= (λ b2. ok (none, b2))
      else if ltb (capacity base) taken
      then panic
      else do
        b2 ← fill_fragment (take (capacity base - taken) bs) b1
        ok (some (drop (capacity base - taken) bs), record b2 { windex = b2.windex + 1 })

unfoldable pub append_loop : ℕ → List ℕ → Buffer → Result Buffer
append_loop fuel [] b = ok b
append_loop zero (x ∷ xs) b = stuck
append_loop (suc fuel) (x ∷ xs) b = append_round (x ∷ xs) b >>= λ (rest, b'). elim rest [
  | none ↦ ok b'
  | some bs ↦ append_loop fuel bs b'
]

-- A round that takes no byte opens a new fragment, and one that fills a new fragment takes one:
-- the fuel covers every buffer whose fragments have room for a byte. The source loops for ever
-- on the others.
unfoldable pub append : List ℕ → Buffer → Result Buffer
append bs b = append_loop (length bs + 2) bs b

unfoldable pub append_byte : ℕ → Buffer → Result Buffer
append_byte t b = append (t ∷ []) b

unfoldable pub append_size2 : ℕ → Buffer → Result Buffer
append_size2 n b = append (le2 n) b

unfoldable pub append_size4 : ℕ → Buffer → Result Buffer
append_size4 n b = append (le4 n) b

unfoldable pub append_string : List ℕ → Buffer → Result Buffer
append_string s b = append_size4 (length s) b >>= append s

-- `buf.fragments[index].payload[pos] = v`
unfoldable pub put_byte : ℕ → ℕ → ℕ → Buffer → Result Buffer
put_byte i p v b = do
  f ← entry b i
  if ltb p (length f.payload)
      then ok (record b {
        fragments = put_entry b.fragments i (record f { payload = set f.payload p v });
      })
      else panic

unfoldable pub update_bytes : List ℕ → ℕ → ℕ → Buffer → Result Buffer
update_bytes [] i p b = ok b
update_bytes (v ∷ vs) i p b = do
  full ← reaches_wavail b p
  let i' = if full then i + 1 else i
  let p' = if full then 0 else p
  b' ← put_byte i' p' v b
  update_bytes vs i' (p' + 1) b'

unfoldable pub update_size : ℕ → ℕ → ℕ → Buffer → Result Buffer
update_size i p value b = update_bytes (le4 value) i p b

-- `appendSize4(Data[:pos-6], length+2)` and `appendSize2(Data[:pos-2], length)`.
unfoldable pub finish_sizes : ℕ → ℕ → ℕ → Buffer → Result Buffer
finish_sizes i p n b = if ltb p 6 then panic else do
  f ← entry b i
  f1 ← append_data (p - 6) (le4 (n + 2)) f
  f2 ← append_data (p - 2) (le2 n) f1
  ok (record b { fragments = put_entry b.fragments i f2 })

-- `ChecksumFunc`, a variable of the package.
module _ (checksum_func : List ℕ → List ℕ) where
  unfoldable pub append_checksum : ℕ → Buffer → Result Buffer
  append_checksum i b = do
    f ← entry b i
    let sum = checksum_func (raw_data f)
    let tail = Code.arraym ∷ Code.uint8 ∷ (le4 (length sum + 2) ++ (le2 (length sum) ++ sum))
    f' ← append_data f.data_len tail f
    let f'' = record f' { data_len = f.data_len + length tail; checksum = tail }
    ok (record b { fragments = put_entry b.fragments i f'' })

  unfoldable pub append_checksums : ℕ → ℕ → Buffer → Result Buffer
  append_checksums zero i b = ok b
  append_checksums (suc n) i b = append_checksum i b >>= append_checksums n (i + 1)

  unfoldable pub finish : Buffer → Result Buffer
  finish b = do
    f ← entry b b.windex
    let p = length b.heads
    let n = length f.payload
    if ltb (capacity f) (p + n) then panic else do
      let b1 = record b {
        fragments = put_entry b.fragments b.windex (record f { data_len = p + n });
      }
      if p == 0 then ok b1 else do
        b2 ← update_fragment_id b.windex (neg16 (b.windex + 1)) b1
        b3 ← finish_sizes b.windex p n b2
        append_checksums (b.windex + 1) 0 b3
