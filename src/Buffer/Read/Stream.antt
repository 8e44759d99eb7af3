-- ===== src/Buffer/Read/Stream.antt =====
-- What the reading operations do, on the unread bytes as one piece.
use tssdgo.Prelude.{
  ℕ, zero, suc, ◌+◌, ◌-◌, ◌≤◌, ◌<◌, ◌≡◌, refl, ap, ◌∙◌, inl, inr, Option, some, List, [], ◌∷◌, ◌++◌,
  length, take, drop, length-append, length-take, length-drop, append-nil, take-append_le,
  drop-append_le, drop-append_ge, drop-drop, take_all, drop_all, arith, leb, ◌==◌, Bool-cases, true,
  false, leb→le, le→leb, lt→leb, le→ltb, ne→==, eq→==,
}
use tssdgo.Wire.{Result, ok}
use tssdgo.Fragment.{Fragment}
use tssdgo.Buffer.{Buffer, lookup_entry}
use tssdgo.Buffer.Read.{skip_used, take_chunk, read_rest, read_on, read}

abbrev pub flat : List Fragment → List ℕ
flat [] = []
flat (f ∷ fs) = f.payload ++ flat fs

-- The entries from key `i` on begin with these fragments.
abbrev pub At : List (Option Fragment) → ℕ → List Fragment → Type 0
At os i [] = Unit
At os i (f ∷ fs) = (lookup_entry os i ≡ some f) × At os (i + 1) fs

-- No fragment behind the current one is empty, but perhaps the last: `append` leaves them so, and
-- `peek_byte` would panic at an empty one.
abbrev pub Occupied : List Fragment → Type 0
Occupied [] = Unit
Occupied (f ∷ []) = Unit
Occupied (f ∷ (g ∷ gs)) = (0 < length f.payload) × Occupied (g ∷ gs)

pub Occupied-tail : (f : Fragment) (fs : List Fragment) → Occupied (f ∷ fs) → Occupied fs
Occupied-tail f [] h = tt
Occupied-tail f (g ∷ gs) h = h.1

Occupied-head :
    (f : Fragment) (fs : List Fragment)
    → Occupied (f ∷ fs)
    → 0 < length (flat (f ∷ fs))
    → 0 < length f.payload
Occupied-head f [] h pos = omega (arith, ap length (append-nil f.payload))
Occupied-head f (g ∷ gs) h pos = h.0

-- The unread bytes of `b` are `s`: the rest of the current fragment and those behind it.
pub record Holds (b : Buffer) (s : List ℕ) : Type 0 where
  pub current : Fragment
  pub behind : List Fragment
  pub at : At b.fragments b.index (current ∷ behind)
  pub within : b.pos ≤ length current.payload
  pub bytes : drop b.pos current.payload ++ flat behind ≡ s
  pub counted : b.size ≡ length s
  pub occupied : Occupied behind

lookup_in_range :
    (os : List (Option Fragment)) (i : ℕ) {f : Fragment}
    → lookup_entry os i ≡ some f
    → i < length os
lookup_in_range [] i h = cc
lookup_in_range (o ∷ os) zero h = omega arith
lookup_in_range (o ∷ os) (suc i) h = omega (arith, lookup_in_range os i h)

length-take_le : (n : ℕ) (xs : List ℕ) → n ≤ length xs → length (take n xs) ≡ n
length-take_le n xs h = omega (arith, length-take n xs)

pub take-append_ge :
    (n : ℕ) (xs ys : List ℕ) → length xs ≤ n → take n (xs ++ ys) ≡ xs ++ take (n - length xs) ys
take-append_ge n [] ys h = let e : n - 0 ≡ n = omega arith in rw e
take-append_ge zero (x ∷ xs) ys h = absurd (omega arith)
take-append_ge (suc n) (x ∷ xs) ys h =
    let e : suc n - suc (length xs) ≡ n - length xs = omega arith in
    rw (e, take-append_ge n xs ys (omega arith))

-- What a read of the first `n` unread bytes `s` leads to.
abbrev pub TakesFrom : Buffer → List ℕ → ℕ → Result (List ℕ × Buffer) → Type 0
TakesFrom b s n r =
    (b' : Buffer) × (r ≡ ok (take n s, b')) × Holds b' (drop n s) × (b'.fragments ≡ b.fragments)

module _ (fuel n : ℕ) (b : Buffer) (f : Fragment)
    (at : lookup_entry b.fragments b.index ≡ some f) where
  read_rest_last :
      (fs : List Fragment)
      → At b.fragments (b.index + 1) fs
      → b.pos ≡ 0
      → n ≤ length f.payload
      → b.size ≡ length (flat (f ∷ fs))
      → Occupied fs
      → TakesFrom b (flat (f ∷ fs)) n (read_rest (suc fuel) n b)
  unfolding read_rest
  read_rest_last fs run p short sz occ =
      let len = length-take_le n f.payload short in
      let done : (n - n == 0) ≡ true = eq→== (n - n) 0 (omega arith) in
      let e2 : b.pos + n ≡ n = omega arith in
      (
        record b { size = b.size - n; pos = b.pos + n },
        rw (at, len, done, take-append_le n f.payload (flat fs) short),
        record {
          current = f;
          behind = fs;
          at = (at, run);
          within = omega arith;
          bytes = rw (e2, drop-append_le n f.payload (flat fs) short);
          counted = omega (arith, length-drop n (f.payload ++ flat fs));
          occupied = occ;
        },
        refl,
      )

  read_rest_next :
      (s : List ℕ)
      → length f.payload < n
      → TakesFrom b s (n - length f.payload) (
          read_rest fuel
            (n - length f.payload)
            (record b { size = b.size - length f.payload; index = b.index + 1 }))
      → TakesFrom b (f.payload ++ s) n (read_rest (suc fuel) n b)
  unfolding read_rest
  read_rest_next s long (b', r, held, same) =
      let chunk = take_all n f.payload (omega arith) in
      let busy : (n - length f.payload == 0) ≡ false =
        ne→== (n - length f.payload) 0 (omega arith) in
      (
        b',
        rw (at, chunk, busy, r, take-append_ge n f.payload s (omega arith)),
        rw (drop-append_ge n f.payload s (omega arith)) held,
        same,
      )

-- The loop of `read` takes the first `n` bytes of the fragments from the index on.
read_rest_lem :
    (fuel n : ℕ) (b : Buffer) (f : Fragment) (fs : List Fragment)
    → length b.fragments ≤ b.index + fuel
    → At b.fragments b.index (f ∷ fs)
    → b.pos ≡ 0
    → n ≤ length (flat (f ∷ fs))
    → b.size ≡ length (flat (f ∷ fs))
    → Occupied fs
    → TakesFrom b (flat (f ∷ fs)) n (read_rest fuel n b)
read_rest_lem zero n b f fs h at p le sz occ =
    absurd (omega (arith, lookup_in_range b.fragments b.index at.0))
read_rest_lem (suc fuel) n b f [] h at p le sz occ =
    read_rest_last fuel n b f at.0 [] tt p (omega (arith, ap length (append-nil f.payload))) sz tt
read_rest_lem (suc fuel) n b f (g ∷ gs) h at p le sz occ =
    elim (Bool-cases (leb n (length f.payload))) [
      | inl e ↦
          read_rest_last fuel n b f at.0 (g ∷ gs) at.1 p (leb→le n (length f.payload) e) sz occ
      | inr e ↦
          let long : length f.payload < n = ground arith in
          let len = length-append f.payload (flat (g ∷ gs)) in
          read_rest_next fuel n b f at.0 (flat (g ∷ gs)) long (
            read_rest_lem fuel (n - length f.payload)
              (record b { size = b.size - length f.payload; index = b.index + 1 }) g gs
              (omega arith) at.1 p (omega (arith, len)) (omega (arith, len))
              (Occupied-tail g gs occ))
    ]

module _ (b : Buffer) (f : Fragment) (at : lookup_entry b.fragments b.index ≡ some f) where
  skip_used_full :
      length f.payload ≤ b.pos
      → skip_used b ≡ ok (record b { pos = b.pos - length f.payload; index = b.index + 1 })
  unfolding skip_used
  skip_used_full h = rw (at, le→leb (length f.payload) b.pos h)

  skip_used_room : b.pos < length f.payload → skip_used b ≡ ok b
  unfolding skip_used
  skip_used_room h = rw (at, lt→leb (length f.payload) b.pos h)

abbrev pub Skipped : Buffer → List ℕ → Type 0
Skipped b s =
    (b' : Buffer) × (skip_used b ≡ ok b')
    × (h : Holds b' s) × (b'.fragments ≡ b.fragments)
    × (b'.pos < length h.current.payload)

skip_used_over :
    (b : Buffer) (f : Fragment) (fs : List Fragment) (s : List ℕ)
    → At b.fragments b.index (f ∷ fs)
    → b.pos ≡ length f.payload
    → flat fs ≡ s
    → 0 < length s
    → b.size ≡ length s
    → Occupied fs
    → Skipped b s
skip_used_over b f [] s at p e h sz occ = absurd (omega (arith, ap length e))
skip_used_over b f (g ∷ gs) s at p e h sz occ =
    let z : b.pos - length f.payload ≡ 0 = omega arith in
    (
      record b { pos = b.pos - length f.payload; index = b.index + 1 },
      skip_used_full b f at.0 (omega arith),
      record {
        current = g;
        behind = gs;
        at = at.1;
        within = omega arith;
        bytes = rw z e;
        counted = sz;
        occupied = Occupied-tail g gs occ;
      },
      refl,
      omega (arith, Occupied-head g gs occ (omega (arith, ap length e)), z),
    )

-- After the skip the unread bytes are the same.
pub skip_used-Holds : (b : Buffer) (s : List ℕ) → Holds b s → 0 < length s → Skipped b s
skip_used-Holds b s held h = elim (Bool-cases (leb (length held.current.payload) b.pos)) [
  | inl e ↦
      let p : b.pos ≡ length held.current.payload =
        omega (arith, leb→le (length held.current.payload) b.pos e, held.within) in
      let gone = drop_all b.pos held.current.payload (omega arith) in
      skip_used_over b held.current held.behind s held.at p (rw gone at held.bytes) h held.counted
        held.occupied
  | inr e ↦ (b, skip_used_room b held.current held.at.0 (ground arith), held, refl, ground arith)
]

module _ (n : ℕ) (b : Buffer) (f : Fragment) (at : lookup_entry b.fragments b.index ≡ some f)
    (within : b.pos ≤ length f.payload) where
  abbrev left : List ℕ
  left = drop b.pos f.payload

  abbrev chunk : List ℕ
  chunk = take n left

  take_chunk_lem :
      take_chunk n b
      ≡ ok (chunk, record b { size = b.size - length chunk; pos = b.pos + length chunk })
  unfolding take_chunk
  take_chunk_lem = rw (at, le→ltb (length f.payload) b.pos within)

  read_on_here :
      (fuel : ℕ) (fs : List Fragment)
      → At b.fragments (b.index + 1) fs
      → n ≤ length left
      → b.size ≡ length (left ++ flat fs)
      → Occupied fs
      → TakesFrom b (left ++ flat fs) n (read_on fuel n b)
  unfolding read_on
  read_on_here fuel fs run short sz occ =
      let len = length-take_le n left short in
      (
        record b { size = b.size - n; pos = b.pos + n },
        rw (take_chunk_lem, len, le→leb n n (omega arith), take-append_le n left (flat fs) short),
        record {
          current = f;
          behind = fs;
          at = (at, run);
          within = omega (arith, length-drop b.pos f.payload);
          bytes = rw (drop-append_le n left (flat fs) short, drop-drop n b.pos f.payload);
          counted = omega (arith, length-drop n (left ++ flat fs));
          occupied = occ;
        },
        refl,
      )

  read_on_over :
      (fuel : ℕ) (s : List ℕ)
      → length left < n
      → TakesFrom b s (n - length left) (
          read_rest fuel
            (n - length left)
            (record b { size = b.size - length left; pos = 0; index = b.index + 1 }))
      → TakesFrom b (left ++ s) n (read_on fuel n b)
  unfolding read_on
  read_on_over fuel s long (b', r, held, same) =
      let whole = take_all n left (omega arith) in
      let z : b.pos + length left - length f.payload ≡ 0 =
        omega (arith, length-drop b.pos f.payload) in
      let b2 = record b { size = b.size - length left; pos = b.pos + length left } in
      (
        b',
        rw (
          take_chunk_lem,
          whole,
          lt→leb n (length left) long,
          skip_used_full b2 f at (omega (arith, length-drop b.pos f.payload)),
          z,
          r,
          take-append_ge n left s (omega arith),
        ),
        rw (drop-append_ge n left s (omega arith)) held,
        same,
      )

read_on_lem :
    (fuel n : ℕ) (b : Buffer) (f : Fragment) (fs : List Fragment)
    → At b.fragments b.index (f ∷ fs)
    → b.pos ≤ length f.payload
    → length b.fragments ≤ fuel
    → n ≤ length (drop b.pos f.payload ++ flat fs)
    → b.size ≡ length (drop b.pos f.payload ++ flat fs)
    → Occupied fs
    → TakesFrom b (drop b.pos f.payload ++ flat fs) n (read_on fuel n b)
read_on_lem fuel n b f [] at within enough h sz occ =
    read_on_here n b f at.0 within fuel [] tt
      (omega (arith, ap length (append-nil (drop b.pos f.payload)))) sz tt
read_on_lem fuel n b f (g ∷ gs) at within enough h sz occ =
    elim (Bool-cases (leb n (length (drop b.pos f.payload)))) [
      | inl e ↦
          read_on_here n b f at.0 within fuel (g ∷ gs) at.1
            (leb→le n (length (drop b.pos f.payload)) e) sz occ
      | inr e ↦
          let r = drop b.pos f.payload in
          let len = length-append r (flat (g ∷ gs)) in
          let b3 = record b { size = b.size - length r; pos = 0; index = b.index + 1 } in
          read_on_over n b f at.0 within fuel (flat (g ∷ gs)) (ground arith) (
            read_rest_lem fuel (n - length r) b3 g gs (omega arith) at.1 refl (omega (arith, len))
              (omega (arith, len)) (Occupied-tail g gs occ))
    ]

-- `read` takes the first `n` unread bytes when there are as many.
pub read-TakesFrom :
    (b : Buffer) (s : List ℕ) (n : ℕ) → Holds b s → n ≤ length s → TakesFrom b s n (read n b)
unfolding read
read-TakesFrom b s n held h = elim (Bool-cases (n == 0)) [
  | inl e ↦ let z : n ≡ 0 = ground arith in rw z (b, refl, held, refl)
  | inr e ↦
      let (b1, r1, h1, same1, _) = skip_used-Holds b s held (ground arith) in
      let (b2, r2, h2, same2) = rw h1.bytes at (
        read_on_lem (length b.fragments + 1) n b1 h1.current h1.behind h1.at h1.within
          (omega (arith, ap length same1)) (rw h1.bytes h) (rw h1.bytes h1.counted) h1.occupied) in
      (b2, rw (e, le→ltb b.size n (omega (arith, held.counted)), r1, r2), h2, same2 ∙ same1)
]
