-- ===== src/Buffer/Assemble/Wanted.antt =====
-- What `Wanted` reports.
use tssdgo.Prelude.{
  ℕ, zero, suc, ◌+◌, ◌<◌, ◌≡◌, refl, ◌⊎◌, inl, inr, Bool-cases, ltb, ltb→lt, Option-cases, true,
  false, Option, none, some, List, arith,
}
use tssdgo.Fragment.{Fragment}
use tssdgo.Buffer.{Buffer, fragment_count, lookup_entry}
use tssdgo.Buffer.Assemble.{is_ending, wanted_loop, wanted}

-- The entries below key `k` are there, and none of them ends the object.
abbrev pub OpenBelow : List (Option Fragment) → ℕ → Type 0
OpenBelow os k =
    (i : ℕ) → i < k → (f : Fragment) × (lookup_entry os i ≡ some f) × (is_ending f ≡ false)

-- The answer `w` when the first entry that ends the object, or is not there, has key `k`.
abbrev pub Answer : List (Option Fragment) → ℕ → ℕ → ℕ → Type 0
Answer os n w k =
    OpenBelow os k
    × (((f : Fragment) × (lookup_entry os k ≡ some f) × (is_ending f ≡ true) × (w ≡ 0))
        ⊎ (((lookup_entry os k ≡ none) ⊎ (k ≡ n)) × (w ≡ k + 1)))

OpenBelow-suc :
    (os : List (Option Fragment)) (k : ℕ) (f : Fragment)
    → OpenBelow os k
    → lookup_entry os k ≡ some f
    → is_ending f ≡ false
    → OpenBelow os (k + 1)
OpenBelow-suc os k f below e h i lt = elim (Bool-cases (ltb i k)) [
  | inl c ↦ below i (ltb→lt i k c)
  | inr c ↦ let same : i ≡ k = ground arith in (f, rw same e, h)
]

wanted_loop-Answer :
    (os : List (Option Fragment)) (n i : ℕ)
    → OpenBelow os i
    → (k : ℕ) × Answer os (i + n) (wanted_loop os n i) k
unfolding wanted_loop
wanted_loop-Answer os zero i below = (i, (below, inr (inr (omega arith), refl)))
wanted_loop-Answer os (suc n) i below = elim (Option-cases (lookup_entry os i)) [
  | inl e ↦ (i, (below, inr (inl e, rw (e, wanted_loop))))
  | inr (f, e) ↦ elim (Bool-cases (is_ending f)) [
    | inl h ↦ (i, (below, inl (f, e, h, rw (e, wanted_loop, h))))
    | inr h ↦
        let step : i + suc n ≡ (i + 1) + n = omega arith in
        rw (e, wanted_loop, h, step)
          (wanted_loop-Answer os n (i + 1) (OpenBelow-suc os i f below e h))
  ]
]

-- `Wanted` walks from the first fragment on past those that are there and do not end the object.
-- It answers 0 when the walk meets the ending fragment, and otherwise the number (from 1) of the
-- fragment at which it stopped: the first that is absent, or the one behind all that are counted.
pub wanted-Answer : (b : Buffer) → (k : ℕ) × Answer b.fragments (fragment_count b) (wanted b) k
unfolding wanted
wanted-Answer b =
    let zero_add : 0 + fragment_count b ≡ fragment_count b = omega arith in
    rw zero_add at
      (wanted_loop-Answer b.fragments (fragment_count b) 0 (λ i lt. absurd (omega arith)))
