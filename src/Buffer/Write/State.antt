-- ===== src/Buffer/Write/State.antt =====
-- The states of a buffer that is being written: every fragment but the last is full.
use tssdgo.Prelude.{
  ℕ, ◌%◌, ◌+◌, ◌<◌, ◌≤◌, ◌≡◌, refl, ap, Option, none, some, List, [], ◌∷◌, ◌++◌, length, All,
  append_assoc, arith,
}
use mathlib.Core.Path.{subst}
use tssdgo.Wire.{Schema, le2}
use tssdgo.Fragment.{Fragment, capacity, write_at}
use tssdgo.Buffer.{Buffer, count_entries, lookup_entry, put_entry, payloads}

-- What writing leaves alone, and the room for payload that each fragment has.
pub record Frame : Type 0 where
  pub schema : Option Schema
  pub heads : List ℕ
  pub len_checksum : ℕ
  pub width : ℕ
  pub pos : ℕ

abbrev pub total : Frame → ℕ
total fr = length fr.heads + fr.len_checksum + fr.width

abbrev pub entries : List Fragment → List (Option Fragment)
entries [] = []
entries (f ∷ fs) = some f ∷ entries fs

abbrev pub state : Frame → ℕ → ℕ → List (Option Fragment) → Buffer
state fr w n os = record {
  schema = fr.schema;
  heads = fr.heads;
  len_checksum = fr.len_checksum;
  mtu = total fr;
  size = n;
  index = 0;
  pos = fr.pos;
  windex = w;
  fragments = os;
  stray = none;
}

-- All fragments are full, and the next byte opens a new one.
abbrev pub ready : Frame → List Fragment → Buffer
ready fr done = state fr (length done) (length (payloads (entries done))) (entries done)

-- `last` is being filled.
abbrev pub writer : Frame → List Fragment → Fragment → Buffer
writer fr done last =
    state fr (length done) (length (payloads (entries done)) + length last.payload)
      (entries done ++ some last ∷ [])

abbrev pub types_of : Option Schema → List ℕ
types_of none = []
types_of (some s) = s.types

-- Heads with the id of a fragment.
abbrev pub stamped : ℕ → List ℕ → List ℕ
stamped i heads = write_at 16 (le2 i) heads

-- `Data` ends where the checksum will stand, the fragment has the types of the object, and its heads
-- are those of the buffer with the id of its key `i`, if they have room for it. The buffer in which
-- the heads themselves are written has no heads yet.
abbrev pub IsStamped : Frame → ℕ → Fragment → Type 0
IsStamped fr i f =
    0 < length fr.heads
    → (f.data_len ≡ length fr.heads + fr.width)
      × (f.schema.types ≡ types_of fr.schema)
      × (18 ≤ length fr.heads → f.heads ≡ stamped ((i + 1) % 0x10000) fr.heads)

abbrev pub IsFull : Frame → ℕ → Fragment → Type 0
IsFull fr i f =
    (capacity f ≡ total fr)
    × (length f.heads ≡ length fr.heads)
    × (length f.payload ≡ fr.width)
    × IsStamped fr i f

-- The fragments have the keys from `i` on.
abbrev pub AllFull : Frame → ℕ → List Fragment → Type 0
AllFull fr i [] = Unit
AllFull fr i (f ∷ fs) = IsFull fr i f × AllFull fr (i + 1) fs

abbrev pub IsOpen : Frame → ℕ → Fragment → Type 0
IsOpen fr i f =
    (capacity f ≡ total fr)
    × (length f.heads ≡ length fr.heads)
    × (length f.payload ≤ fr.width)
    × IsStamped fr i f

pub count-entries :
    (done : List Fragment) (os : List (Option Fragment))
    → count_entries (entries done ++ os) ≡ length done + count_entries os
count-entries [] os = omega arith
count-entries (f ∷ fs) os = omega (arith, count-entries fs os)

pub count-entries_full : (done : List Fragment) → count_entries (entries done) ≡ length done
count-entries_full [] = refl
count-entries_full (f ∷ fs) = omega (arith, count-entries_full fs)

pub lookup-entries :
    (done : List Fragment) (f : Fragment) (os : List (Option Fragment))
    → lookup_entry (entries done ++ some f ∷ os) (length done) ≡ some f
lookup-entries [] f os = refl
lookup-entries (g ∷ gs) f os = lookup-entries gs f os

pub put-entries :
    (done : List Fragment) (f g : Fragment) (os : List (Option Fragment))
    → put_entry (entries done ++ some f ∷ os) (length done) g ≡ entries done ++ some g ∷ os
put-entries [] f g os = refl
put-entries (h ∷ hs) f g os = ap (λ t. some h ∷ t) (put-entries hs f g os)

pub put-entries_new :
    (done : List Fragment) (g : Fragment)
    → put_entry (entries done) (length done) g ≡ entries done ++ some g ∷ []
put-entries_new [] g = refl
put-entries_new (h ∷ hs) g = ap (λ t. some h ∷ t) (put-entries_new hs g)

pub entries-append :
    (done : List Fragment) (f : Fragment) → entries (done ++ f ∷ []) ≡ entries done ++ some f ∷ []
entries-append [] f = refl
entries-append (h ∷ hs) f = ap (λ t. some h ∷ t) (entries-append hs f)

pub payloads-append :
    (os ps : List (Option Fragment)) → payloads (os ++ ps) ≡ payloads os ++ payloads ps
payloads-append [] ps = refl
payloads-append (none ∷ os) ps = payloads-append os ps
payloads-append (some f ∷ os) ps = rw (payloads-append os ps, append_assoc)

pub All-append {ℓ κ} :
    {A : Type ℓ} (P : A → Type κ) (xs : List A) (x : A) → All P xs → P x → All P (xs ++ x ∷ [])
All-append P [] x h k = (k, tt)
All-append P (y ∷ ys) x h k = (h.0, All-append P ys x h.1 k)

pub AllFull-append :
    (fr : Frame) (i n : ℕ) (fs : List Fragment) (f : Fragment)
    → i + length fs ≡ n
    → AllFull fr i fs
    → IsFull fr n f
    → AllFull fr i (fs ++ f ∷ [])
AllFull-append fr i n [] f e h k =
    let same : n ≡ i = omega (arith, e) in (subst (λ m. IsFull fr m f) same k, tt)
AllFull-append fr i n (g ∷ gs) f e h k =
    (h.0, AllFull-append fr (i + 1) n gs f (omega (arith, e)) h.1 k)

-- The capacity that `wavail` reads is the same for every fragment.
pub first_entry :
    (fr : Frame) (n : ℕ) (done : List Fragment) (last : Fragment)
    → AllFull fr 0 done
    → IsOpen fr n last
    → (f : Fragment) × (lookup_entry (entries done ++ some last ∷ []) 0 ≡ some f)
      × (capacity f ≡ total fr)
first_entry fr n [] last h k = (last, refl, k.0)
first_entry fr n (f ∷ fs) last h k = (f, refl, h.0.0)
