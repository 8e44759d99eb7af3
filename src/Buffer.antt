-- ===== src/Buffer.antt =====
-- tssd/buffer.go: the type Buffer and its map of fragments.
pub mod Write
pub mod Read
pub mod Assemble
pub mod Output
use tssdgo.Prelude.{ℕ, zero, suc, ◌+◌, Option, none, some, List, [], ◌∷◌, ◌++◌}
use tssdgo.Wire.{Schema, Result, ok, panic}
use tssdgo.Fragment.{Fragment}

-- The map `fragments`: slot `i` holds the entry for key `i`, and `stray` the one for key -1,
-- which a fragment with FID 0 gets. `Size` is at least 0, but for one case of `Push` that
-- `place_fragment` names.
pub record Buffer : Type 0 where
  pub schema : Option Schema
  pub heads : List ℕ
  pub len_checksum : ℕ
  pub mtu : ℕ
  pub size : ℕ
  pub index : ℕ
  pub pos : ℕ
  pub windex : ℕ
  pub fragments : List (Option Fragment)
  pub stray : Option Fragment

-- `&Buffer{MTU: mtu}`.
abbrev pub new_buffer : ℕ → Buffer
new_buffer mtu = record {
  schema = none;
  heads = [];
  len_checksum = 0;
  mtu = mtu;
  size = 0;
  index = 0;
  pos = 0;
  windex = 0;
  fragments = [];
  stray = none;
}

abbrev pub one_if_some {ℓ} : {A : Type ℓ} → Option A → ℕ
one_if_some none = 0
one_if_some (some a) = 1

abbrev pub count_entries : List (Option Fragment) → ℕ
count_entries [] = 0
count_entries (o ∷ os) = one_if_some o + count_entries os

-- `len(buf.fragments)`.
abbrev pub fragment_count : Buffer → ℕ
fragment_count b = one_if_some b.stray + count_entries b.fragments

abbrev pub found : Option Fragment → Result Fragment
found none = panic
found (some f) = ok f

abbrev pub lookup_entry : List (Option Fragment) → ℕ → Option Fragment
lookup_entry [] i = none
lookup_entry (o ∷ os) zero = o
lookup_entry (o ∷ os) (suc i) = lookup_entry os i

-- `buf.fragments[i]`, whose fields are read or written next: a nil entry panics.
abbrev pub entry : Buffer → ℕ → Result Fragment
entry b i = found (lookup_entry b.fragments i)

abbrev pub put_entry : List (Option Fragment) → ℕ → Fragment → List (Option Fragment)
put_entry [] zero f = some f ∷ []
put_entry [] (suc i) f = none ∷ put_entry [] i f
put_entry (o ∷ os) zero f = some f ∷ os
put_entry (o ∷ os) (suc i) f = o ∷ put_entry os i f

-- The payloads one behind the other.
abbrev pub payloads : List (Option Fragment) → List ℕ
payloads [] = []
payloads (none ∷ os) = payloads os
payloads (some f ∷ os) = f.payload ++ payloads os

abbrev pub content : Buffer → List ℕ
content b = payloads b.fragments
