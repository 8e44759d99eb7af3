-- ===== src/Wire.antt =====
-- tssd/tssd.go: the constants of the format, the package's errors, and the integers that are
-- written and read as little-endian bytes. A byte is a number below 256.
pub mod Code
pub mod Hash
use tssdgo.Prelude.{ℕ, zero, suc, ◌+◌, ◌-◌, ◌*◌, ◌/◌, ◌%◌, ◌<◌, List, [], ◌∷◌}

abbrev pub magic : List ℕ
magic = b'T' ∷ b'S' ∷ b'S' ∷ b'D' ∷ b'V' ∷ []

abbrev pub version_minor : ℕ
version_minor = 1

abbrev pub version_major : ℕ
version_major = 0

abbrev pub sizet_length : ℕ
sizet_length = 4

abbrev pub sizea_length : ℕ
sizea_length = 2

abbrev pub tarraym_head_length : ℕ
tarraym_head_length = 8

abbrev pub buffer_min_mtu : ℕ
buffer_min_mtu = 128

abbrev pub buffer_mtu : ℕ
buffer_mtu = 1440

abbrev pub fragment_min_header_size : ℕ
fragment_min_header_size = 64

pub data Error : Type 0 where
  invalid_version invalid_data insufficient_data schema_unmatch head_over_size checksum_failure :
      Error
  fragment_id_unmatch register_failure : Error
  other : Error

-- The outcome of a call. `panic` is a Go run-time panic (a nil dereference, a slice out of range).
-- `beyond` has no value in the source either: the program goes on, through memory that the model
-- does not follow (a slice that `append` reallocated, a write behind the end of an array).
-- `stuck` is a loop that has used up its fuel.
pub data Result {ℓ} (A : Type ℓ) : Type ℓ where
  ok : A → Result A
  err : Error → Result A
  panic beyond stuck : Result A

infixl 5 ◌>>=◌
abbrev pub ◌>>=◌ {ℓ κ} : {A : Type ℓ} {B : Type κ} → Result A → (A → Result B) → Result B
ok a >>= f = f a
err e >>= f = err e
panic >>= f = panic
beyond >>= f = beyond
stuck >>= f = stuck

-- `byte(-t)` for a type code.
abbrev pub negated : ℕ → ℕ
negated t = (256 - t) % 256

-- The low 16 bits of -n.
abbrev pub neg16 : ℕ → ℕ
neg16 n = (0x10000 - n % 0x10000) % 0x10000

-- The bytes of an int16 and of an int32, lowest first; what does not fit is cut off.
abbrev pub le2 : ℕ → List ℕ
le2 n = n % 256 ∷ n / 256 % 256 ∷ []

abbrev pub le4 : ℕ → List ℕ
le4 n = n % 256 ∷ n / 256 % 256 ∷ n / 0x10000 % 256 ∷ n / 0x1000000 % 256 ∷ []

-- The number that little-endian bytes spell.
abbrev pub of_le : List ℕ → ℕ
of_le [] = 0
of_le (b ∷ bs) = b + 256 * of_le bs

pub record Header : Type 0 where
  pub magic_bytes : List ℕ
  pub version : List ℕ

abbrev pub no_header : Header
no_header = record { magic_bytes = 0 ∷ 0 ∷ 0 ∷ 0 ∷ 0 ∷ []; version = 0 ∷ 0 ∷ [] }

-- Strings are their bytes, and `fid` is the 16-bit pattern of an int16.
pub record Schema : Type 0 where
  pub fid : ℕ
  pub types : List ℕ
  pub tid : List ℕ
  pub info : List ℕ

abbrev pub no_schema : Schema
no_schema = record { fid = 0; types = []; tid = []; info = [] }
