-- ===== src/Buffer/Assemble/Text.antt =====
-- Go's `==` on strings decides equality.
use tssdgo.Prelude.{arith, ℕ, ◌≡◌, refl, List, [], ◌∷◌, ◌==◌, Bool-cases, inl, inr, true}
use tssdgo.Buffer.Assemble.{same_text}

pub same_text_refl : (s : List ℕ) → same_text s s ≡ true
same_text_refl [] = refl
same_text_refl (x ∷ xs) = rw (same_text_refl xs) (ground arith)

pub same_text→≡ : (s t : List ℕ) → same_text s t ≡ true → s ≡ t
same_text→≡ [] [] h = refl
same_text→≡ (x ∷ xs) [] h = cc
same_text→≡ [] (y ∷ ys) h = cc
same_text→≡ (x ∷ xs) (y ∷ ys) h = elim (Bool-cases (x == y)) [
  | inl e ↦
      let first : x ≡ y = ground arith in
      let rest = same_text→≡ xs ys (rw e at h) in rw (first, rest)
  | inr e ↦ absurd (let no = rw e at h in cc)
]
