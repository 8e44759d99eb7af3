-- ===== src/Receiver/Rounds.antt =====
-- The rounds of `Extract` end: the fuel is enough.
use tssdgo.Prelude.{
  ℕ, zero, suc, ◌+◌, ◌≤◌, ◌<◌, ◌≡◌, refl, sym, ap, Option, none, some, List, [], ◌++◌, length,
  length-append, length-drop, arith,
}
use mathlib.Core.Path.{subst}
use tssdgo.Wire.{ok, err, panic, beyond, stuck, ◌>>=◌, magic}
use tssdgo.Receiver.{RBuffer, Step, reset, index_of, detect_from, detect_magic, search_kept}
use tssdgo.Receiver.Detect.{located, search_kept_lem}
use tssdgo.Receiver.Extract.{
  ◌>>>◌, is_insufficient, next_round, unmarshal_fragment, extract_loop, extract,
}
use tssdgo.Buffer.Read.Returns.{Returns, if-Returns}
use tssdgo.Receiver.Returns.{unmarshal_fragment-Returns}
use tssdgo.Receiver.Progress.{Fair, Shrinks, search_again, unmarshal_fragment-Fair}

-- The search returns. Without an error the number of bytes held is in `P`.
abbrev Leaves : (ℕ → Type 0) → Step → Type 0
Leaves P (ok (more, none, r)) = P (length r.data_bytes)
Leaves P stuck = ⊥
Leaves P _ = Unit

same_next :
    (P : ℕ → Type 0) (s : Step) (next next' : RBuffer → Step)
    → Leaves P s
    → ((r : RBuffer) → P (length r.data_bytes) → next r ≡ next' r)
    → (s >>> next) ≡ (s >>> next')
same_next P (ok (more, none, r)) next next' h k = k r h
same_next P (ok (more, some e, r)) next next' h k = refl
same_next P (err e) next next' h k = refl
same_next P panic next next' h k = refl
same_next P beyond next next' h k = refl
same_next P stuck next next' h k = refl

next_Returns :
    (P : ℕ → Type 0) (s : Step) (next : RBuffer → Step)
    → Leaves P s
    → ((r : RBuffer) → P (length r.data_bytes) → Returns (next r))
    → Returns (s >>> next)
next_Returns P (ok (more, none, r)) next h k = k r h
next_Returns P (ok (more, some e, r)) next h k = tt
next_Returns P (err e) next h k = tt
next_Returns P panic next h k = tt
next_Returns P beyond next h k = tt
next_Returns P stuck next h k = h

Shrinks-Leaves : (n : ℕ) (s : Step) → Shrinks n s → Leaves (λ k. k + 5 ≤ n) s
Shrinks-Leaves n (ok (more, none, r)) h = h
Shrinks-Leaves n (ok (more, some e, r)) h = tt
Shrinks-Leaves n (err e) h = tt
Shrinks-Leaves n panic h = tt
Shrinks-Leaves n beyond h = tt
Shrinks-Leaves n stuck h = h

located-Leaves :
    (o : Option ℕ) (u : List ℕ) (r : RBuffer) → Leaves (λ k. k ≤ length u) (located o u r)
located-Leaves none u r = tt
located-Leaves (some i) u r = omega (arith, length-drop i u)

detect_from-Leaves :
    (o : Option ℕ) (d : List ℕ) (r : RBuffer)
    → Leaves (λ k. k ≤ length (r.data_bytes ++ d)) (detect_from o d 0 r)
detect_from-Leaves none d r =
    subst (Leaves (λ k. k ≤ length (r.data_bytes ++ d))) (sym (search_kept_lem d r))
      (located-Leaves (index_of magic (r.data_bytes ++ d)) (r.data_bytes ++ d) r)
detect_from-Leaves (some i) d r = omega arith

module _ (parse : List ℕ → Option ℕ) (checksum_func : List ℕ → List ℕ) where
  same_round :
      (bs : List ℕ) (m : Step) (again again' : RBuffer → Step)
      → Fair bs m
      → ((r : RBuffer) → r.data_bytes ≡ bs → again r ≡ again' r)
      → (m >>= next_round parse checksum_func again) ≡ (m >>= next_round parse checksum_func again')
  same_round bs (ok (more, none, r)) again again' h k = refl
  same_round bs (ok (more, some e, r)) again again' h k = rw (k r h.0) refl
  same_round bs (err e) again again' h k = refl
  same_round bs panic again again' h k = refl
  same_round bs beyond again again' h k = refl
  same_round bs stuck again again' h k = refl

  -- One round, over the same number of bytes or fewer.
  round_same :
      (r : RBuffer) (again again' : RBuffer → Step)
      → ((r2 : RBuffer) → length r2.data_bytes ≡ length r.data_bytes → again r2 ≡ again' r2)
      → (unmarshal_fragment parse checksum_func r >>= next_round parse checksum_func again)
        ≡ (unmarshal_fragment parse checksum_func r >>= next_round parse checksum_func again')
  round_same r again again' k =
      same_round r.data_bytes (unmarshal_fragment parse checksum_func r) again again'
        (unmarshal_fragment-Fair parse checksum_func r.data_bytes r refl) λ r2 e. k r2 (ap length e)

  next_round-Returns :
      (bs : List ℕ) (m : Step) (again : RBuffer → Step)
      → Fair bs m
      → Returns m
      → ((r : RBuffer) → r.data_bytes ≡ bs → Returns (again r))
      → Returns (m >>= next_round parse checksum_func again)
  next_round-Returns bs (ok (more, none, r)) again h there k = tt
  next_round-Returns bs (ok (more, some e, r)) again h there k =
      if-Returns (is_insufficient e) _ _ tt (k r h.0)
  next_round-Returns bs (err e) again h there k = tt
  next_round-Returns bs panic again h there k = tt
  next_round-Returns bs beyond again h there k = tt
  next_round-Returns bs stuck again h there k = there

  round_lem :
      (r : RBuffer) (again : RBuffer → Step)
      → ((r2 : RBuffer) → length r2.data_bytes ≡ length r.data_bytes → Returns (again r2))
      → Returns (unmarshal_fragment parse checksum_func r >>= next_round parse checksum_func again)
  round_lem r again k =
      next_round-Returns r.data_bytes (unmarshal_fragment parse checksum_func r) again
        (unmarshal_fragment-Fair parse checksum_func r.data_bytes r refl)
        (unmarshal_fragment-Returns parse checksum_func r) λ r2 e. k r2 (ap length e)

  loop-Returns :
      (fuel : ℕ) (r : RBuffer)
      → length r.data_bytes < fuel
      → Returns (extract_loop parse checksum_func fuel [] 5 (reset r))
  unfolding extract_loop detect_magic reset
  loop-Returns zero r h = absurd (omega arith)
  loop-Returns (suc fuel) r h =
      next_Returns (λ n. n + 5 ≤ length r.data_bytes) (search_kept [] 5 (reset r)) _
        (Shrinks-Leaves (length r.data_bytes) _ (search_again (reset r)))
        λ r1 less. round_lem r1 _ λ r2 e. loop-Returns fuel r2 (omega (arith, h, less, e))

  loop_same :
      (fuel k : ℕ) (r : RBuffer)
      → length r.data_bytes < fuel
      → extract_loop parse checksum_func fuel [] 5 (reset r)
        ≡ extract_loop parse checksum_func (fuel + k) [] 5 (reset r)
  unfolding extract_loop detect_magic reset
  loop_same zero k r h = absurd (omega arith)
  loop_same (suc fuel) k r h =
      let next : suc fuel + k ≡ suc (fuel + k) = omega arith in
      rw next (
        same_next (λ n. n + 5 ≤ length r.data_bytes) (search_kept [] 5 (reset r)) _ _
          (Shrinks-Leaves (length r.data_bytes) _ (search_again (reset r)))
          λ r1 less. round_same r1 _ _ λ r2 e. loop_same fuel k r2 (omega (arith, h, less, e)))

-- Any more rounds than those that `extract` has change nothing.
extract-eq-loop :
    (parse : List ℕ → Option ℕ) (checksum_func : List ℕ → List ℕ) (input : List ℕ) (r : RBuffer)
    (k : ℕ)
    → extract parse checksum_func input r
      ≡ extract_loop parse checksum_func (length r.data_bytes + length input + 2 + k) input 0 r
unfolding extract extract_loop detect_magic
extract-eq-loop parse checksum_func input r k =
    let n = length r.data_bytes + length input + 1 in
    let fuel : length r.data_bytes + length input + 2 ≡ suc n = omega arith in
    let more : suc n + k ≡ suc (n + k) = omega arith in
    rw (fuel, more)
      (same_next (λ m. m ≤ length (r.data_bytes ++ input)) (detect_from r.magic_at input 0 r) _ _
        (detect_from-Leaves r.magic_at input r)
        λ r1 le. round_same parse checksum_func r1 _ _ λ r2 e.
          loop_same parse checksum_func n k r2
            (omega (arith, le, e, length-append r.data_bytes input)))

-- `Extract` ends, whatever comes in and whatever it holds: its loop has a round for every byte held
-- and every byte that comes in, and never uses them up; any more rounds change nothing.
pub extract-Returns :
    (parse : List ℕ → Option ℕ) (checksum_func : List ℕ → List ℕ) (input : List ℕ) (r : RBuffer)
    → Returns (extract parse checksum_func input r)
      × ((k : ℕ)
          → extract parse checksum_func input r
            ≡ extract_loop parse checksum_func
                (length r.data_bytes + length input + 2 + k)
                input
                0
                r)
unfolding extract extract_loop detect_magic
extract-Returns parse checksum_func input r =
    let n = length r.data_bytes + length input + 1 in
    let fuel : length r.data_bytes + length input + 2 ≡ suc n = omega arith in
    (
      rw fuel (
          next_Returns (λ m. m ≤ length (r.data_bytes ++ input)) (detect_from r.magic_at input 0 r)
            _ (detect_from-Leaves r.magic_at input r)
            λ r1 le. round_lem parse checksum_func r1 _ λ r2 e.
              loop-Returns parse checksum_func n r2
                (omega (arith, le, e, length-append r.data_bytes input))),
      extract-eq-loop parse checksum_func input r,
    )
