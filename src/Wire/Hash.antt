-- ===== src/Wire/Hash.antt =====
-- tssd/tssd.go: `hash`, the default of HashFunc and ChecksumFunc, over md5 and hex; and the id that
-- `Flat.TID` of tssd/flat.go makes of random bytes.
use tssdgo.Prelude.{
  ℕ, zero, suc, ◌+◌, ◌-◌, ◌*◌, ◌%◌, ◌<◌, ◌≡◌, refl, Option, none, some, List, [], ◌∷◌, ◌++◌, length,
  take, drop, length-append, length-take, length-drop, le→ltb, ltb, if◌then◌else◌, arith,
}
use tssdgo.Wire.{Result, ok, panic, ◌>>=◌}

module _ (md5_sum : List ℕ → List ℕ) (encode_to_string : List ℕ → List ℕ) where
  -- The first six characters and the last six.
  unfoldable pub hash : List ℕ → Result (List ℕ)
  hash types =
      let s = encode_to_string (md5_sum types) in
      if ltb (length s) 6 then panic else ok (take 6 s ++ drop (length s - 6) s)

  -- A sum of md5 has 16 bytes, and hex writes two characters for each: `hash` does not panic, and its
  -- result has 12 bytes, whatever is hashed.
  pub length-hash :
      ((bs : List ℕ) → length (md5_sum bs) ≡ 16)
      → ((bs : List ℕ) → length (encode_to_string bs) ≡ 2 * length bs)
      → (types : List ℕ) → (h : List ℕ) × (hash types ≡ ok h) × (length h ≡ 12)
  unfolding hash
  length-hash sums doubled types =
      let s = encode_to_string (md5_sum types) in
      let long : length s ≡ 32 = omega (arith, doubled (md5_sum types), sums types) in
      (
        take 6 s ++ drop (length s - 6) s,
        rw (le→ltb (length s) 6 (omega (arith, long))) refl,
        omega (
          arith,
          long,
          length-append (take 6 s) (drop (length s - 6) s),
          length-take 6 s,
          length-drop (length s - 6) s,
        ),
      )

-- a to z, A to Z, 0 to 9.
abbrev count_up : ℕ → ℕ → List ℕ
count_up zero c = []
count_up (suc n) c = c ∷ count_up n (c + 1)

abbrev pub charset : List ℕ
charset = count_up 26 b'a' ++ (count_up 26 b'A' ++ count_up 10 b'0')

-- An index into a string panics behind its end.
abbrev pub char_at : List ℕ → ℕ → Result ℕ
char_at [] i = panic
char_at (c ∷ cs) zero = ok c
char_at (c ∷ cs) (suc i) = char_at cs i

-- The loop of `TID`.
unfoldable pub tid_chars : List ℕ → Result (List ℕ)
tid_chars [] = ok []
tid_chars (b ∷ bs) = char_at charset (b % 62) >>= λ c. tid_chars bs >>= λ cs. ok (c ∷ cs)

-- `TID`, with what `rand.Read` answers for ten bytes; `none` is its error.
unfoldable pub random_tid : Option (List ℕ) → Result (List ℕ)
random_tid none = ok []
random_tid (some bs) = tid_chars bs

char_at-below : (cs : List ℕ) (i : ℕ) → i < length cs → (c : ℕ) × (char_at cs i ≡ ok c)
char_at-below [] i h = absurd (omega arith)
char_at-below (c ∷ cs) zero h = (c, refl)
char_at-below (c ∷ cs) (suc i) h = char_at-below cs i (omega arith)

-- `TID` does not panic, and makes a character of each random byte.
pub length-tid_chars :
    (bs : List ℕ) → (cs : List ℕ) × (tid_chars bs ≡ ok cs) × (length cs ≡ length bs)
unfolding tid_chars
length-tid_chars [] = ([], refl, refl)
length-tid_chars (b ∷ bs) =
    let (c, e) = char_at-below charset (b % 62) (omega arith) in
    let (cs, r, n) = length-tid_chars bs in (c ∷ cs, rw (e, r) refl, omega (arith, n))
