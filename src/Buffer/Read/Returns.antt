-- ===== src/Buffer/Read/Returns.antt =====
-- A read of any buffer returns, or panics: its fuel is not used up.
use tssdgo.Prelude.{
  ℕ, zero, suc, ◌+◌, ◌-◌, ◌<◌, ◌≡◌, refl, ap, Bool, true, false, Bool-cases, Option-cases, inl, inr,
  Option, none, some, List, [], ◌∷◌, length, take, ltb, leb, ◌==◌, if◌then◌else◌, arith, ℤ, pos,
  negsuc,
}
use tssdgo.Wire.{Error, Result, ok, err, panic, beyond, stuck, ◌>>=◌, insufficient_data}
use tssdgo.Fragment.{Fragment}
use tssdgo.Buffer.{Buffer, found, lookup_entry}
use tssdgo.Buffer.Read.{
  skip_used, take_chunk, read_rest, read_on, read, read_byte, byte_at, dump_size2, dump_size4,
  lacks, check_dump_sizet, check_dump_size,
}

-- Whatever the outcome is, the fuel was enough.
abbrev pub Returns {ℓ} : {A : Type ℓ} → Result A → Type 0
Returns stuck = ⊥
Returns _ = Unit

pub Returns->>= {ℓ κ} :
    {A : Type ℓ} {B : Type κ} (m : Result A) (k : A → Result B)
    → Returns m
    → ((a : A) → Returns (k a))
    → Returns (m >>= k)
Returns->>= (ok a) k h next = next a
Returns->>= (err e) k h next = tt
Returns->>= panic k h next = tt
Returns->>= beyond k h next = tt
Returns->>= stuck k h next = h

pub if-Returns {ℓ} :
    {A : Type ℓ} (c : Bool) (r s : Result A) → Returns r → Returns s → Returns (if c then r else s)
if-Returns true r s h k = h
if-Returns false r s h k = k

found-Returns : (o : Option Fragment) → Returns (found o)
found-Returns none = tt
found-Returns (some f) = tt

pub byte_at-Returns : (bs : List ℕ) (i : ℕ) → Returns (byte_at bs i)
byte_at-Returns [] i = tt
byte_at-Returns (x ∷ xs) zero = tt
byte_at-Returns (x ∷ xs) (suc i) = byte_at-Returns xs i

lookup_below :
    (os : List (Option Fragment)) (i : ℕ) (f : Fragment)
    → lookup_entry os i ≡ some f
    → i < length os
lookup_below [] i f e = absurd (cc)
lookup_below (o ∷ os) zero f e = omega arith
lookup_below (o ∷ os) (suc i) f e = omega (arith, lookup_below os i f e)

read_rest-Returns :
    (fuel n : ℕ) (b : Buffer)
    → 0 < fuel
    → length b.fragments < fuel + b.index
    → Returns (read_rest fuel n b)
unfolding read_rest
read_rest-Returns zero n b some_fuel enough = absurd (omega arith)
read_rest-Returns (suc fuel) n b some_fuel enough =
    elim (Option-cases (lookup_entry b.fragments b.index)) [
      | inl e ↦ rw e tt
      | inr (f, e) ↦
          let inside = lookup_below b.fragments b.index f e in
          let chunk = take n f.payload in
          rw e (
            if-Returns (n - length chunk == 0) _ _ tt (
              Returns->>= _ _
                (read_rest-Returns fuel (n - length chunk)
                  (record b { size = b.size - length chunk; index = b.index + 1 })
                  (omega (arith, inside, enough)) (omega (arith, enough)))
                λ x. tt))
    ]

-- What follows a step over a used fragment goes on with the same fragments.
skip_used_lem {ℓ} :
    {A : Type ℓ} (b : Buffer) (k : Buffer → Result A)
    → ((c : Buffer) → c.fragments ≡ b.fragments → Returns (k c))
    → Returns (skip_used b >>= k)
unfolding skip_used
skip_used_lem b k next = elim (Option-cases (lookup_entry b.fragments b.index)) [
  | inl e ↦ rw e tt
  | inr (f, e) ↦ rw e (elim (Bool-cases (leb (length f.payload) b.pos)) [
    | inl y ↦ rw y (next _ refl)
    | inr y ↦ rw y (next b refl)
  ])
]

take_chunk_lem {ℓ} :
    {A : Type ℓ} (n : ℕ) (b : Buffer) (k : List ℕ × Buffer → Result A)
    → ((bs : List ℕ) (c : Buffer) → c.fragments ≡ b.fragments → Returns (k (bs, c)))
    → Returns (take_chunk n b >>= k)
unfolding take_chunk
take_chunk_lem n b k next = elim (Option-cases (lookup_entry b.fragments b.index)) [
  | inl e ↦ rw e tt
  | inr (f, e) ↦ rw e (elim (Bool-cases (ltb (length f.payload) b.pos)) [
    | inl y ↦ rw y tt
    | inr y ↦ rw y (next _ _ refl)
  ])
]

read_on-Returns : (fuel n : ℕ) (b : Buffer) → length b.fragments < fuel → Returns (read_on fuel n b)
unfolding read_on
read_on-Returns fuel n b enough = take_chunk_lem n b _ λ front c same.
    if-Returns (leb n (length front)) _ _ tt (
      skip_used_lem c _ λ d also.
        Returns->>= _ _
          (read_rest-Returns fuel (n - length front) d (omega (arith, enough))
            (omega (arith, enough, ap length same, ap length also)))
          λ x. tt)

pub read-Returns : (n : ℕ) (b : Buffer) → Returns (read n b)
unfolding read
read-Returns n b = if-Returns (n == 0) _ _ tt (
    if-Returns (ltb b.size n) _ _ tt (
      skip_used_lem b _
        λ c same. read_on-Returns (length b.fragments + 1) n c (omega (arith, ap length same))))

pub read_byte-Returns : (b : Buffer) → Returns (read_byte b)
unfolding read_byte
read_byte-Returns b = Returns->>= (read 1 b) _ (read-Returns 1 b) λ x. tt

lacks-Returns : (b : Buffer) (n : ℤ) (e : Error) → Returns (lacks b n e)
lacks-Returns b (pos n) e = if-Returns (ltb b.size n) _ _ tt tt
lacks-Returns b (negsuc n) e = tt

pub check_dump_sizet-Returns : (b : Buffer) → Returns (check_dump_sizet b)
unfolding check_dump_sizet dump_size4
check_dump_sizet-Returns b =
    Returns->>= (dump_size4 b) _ (Returns->>= (read 4 b) _ (read-Returns 4 b) λ x. tt)
      λ (n, c). Returns->>= _ _ (lacks-Returns c n insufficient_data) λ x. tt

pub check_dump_size-Returns : (b : Buffer) → Returns (check_dump_size b)
unfolding check_dump_size dump_size2
check_dump_size-Returns b =
    Returns->>= (check_dump_sizet b) _ (check_dump_sizet-Returns b) λ (s, c).
      Returns->>= (dump_size2 c) _ (Returns->>= (read 2 c) _ (read-Returns 2 c) λ x. tt) λ x. tt
