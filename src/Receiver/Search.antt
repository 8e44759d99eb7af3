-- ===== src/Receiver/Search.antt =====
-- The search for the magic over the border of what was kept and what has come in.
use tssdgo.Prelude.{
  ℕ, zero, suc, ◌+◌, ◌-◌, ◌≤◌, ◌<◌, ◌≡◌, refl, sym, ap, ◌∙◌, inl, inr, true, false, Option, none,
  some, List, [], ◌∷◌, ◌++◌, length, drop, length-drop, drop-append_le, drop-drop, drop_nil, arith,
  ltb, ltb→lt, Bool-cases,
}
use tssdgo.Receiver.{starts_with, add_one, index_of}

pub starts_with-append :
    (p s t : List ℕ) → length p ≤ length s → starts_with p (s ++ t) ≡ starts_with p s
starts_with-append [] s t h = refl
starts_with-append (p ∷ ps) [] t h = absurd (omega arith)
starts_with-append (p ∷ ps) (x ∷ s) t h = rw (starts_with-append ps s t (omega arith)) refl

pub starts_with_short : (p s : List ℕ) → length s < length p → starts_with p s ≡ false
starts_with_short [] s h = absurd (omega arith)
starts_with_short (p ∷ ps) [] h = refl
starts_with_short (p ∷ ps) (x ∷ s) h = rw (starts_with_short ps s (omega arith)) (ground arith)

-- The first place at which `s` has `p`.
abbrev pub IsFirst : List ℕ → List ℕ → Option ℕ → Type 0
IsFirst p s none = (j : ℕ) → starts_with p (drop j s) ≡ false
IsFirst p s (some i) =
    (starts_with p (drop i s) ≡ true) × ((j : ℕ) → j < i → starts_with p (drop j s) ≡ false)

IsFirst-later :
    (p : List ℕ) (x : ℕ) (s : List ℕ) (o : Option ℕ)
    → starts_with p (x ∷ s) ≡ false
    → IsFirst p s o
    → IsFirst p (x ∷ s) (add_one o)
IsFirst-later p x s none h all = λ j. at j
  where
    at : (j : ℕ) → starts_with p (drop j (x ∷ s)) ≡ false
    at zero = h
    at (suc j) = all j
IsFirst-later p x s (some i) h (here, before) = (here, λ j. at j)
  where
    at : (j : ℕ) → j < suc i → starts_with p (drop j (x ∷ s)) ≡ false
    at zero lt = h
    at (suc j) lt = before j (omega arith)

pub index_of-IsFirst : (p s : List ℕ) → IsFirst p s (index_of p s)
unfolding index_of
index_of-IsFirst p [] = elim (Bool-cases (starts_with p [])) [
  | inl e ↦ rw e (e, λ j lt. absurd (omega arith))
  | inr e ↦ rw e (λ j. rw (drop_nil j) e)
]
index_of-IsFirst p (x ∷ s) = elim (Bool-cases (starts_with p (x ∷ s))) [
  | inl e ↦ rw e (e, λ j lt. absurd (omega arith))
  | inr e ↦ rw e (IsFirst-later p x s (index_of p s) e (index_of-IsFirst p s))
]

IsFirst-unique : (p s : List ℕ) (o o' : Option ℕ) → IsFirst p s o → IsFirst p s o' → o ≡ o'
IsFirst-unique p s none none h k = refl
IsFirst-unique p s none (some i) h k = absurd (let no = h i in let yes = k.0 in cc)
IsFirst-unique p s (some i) none h k = absurd (let no = k i in let yes = h.0 in cc)
IsFirst-unique p s (some i) (some j) h k = elim (Bool-cases (ltb i j)) [
  | inl e ↦ absurd (let no = k.1 i (ltb→lt i j e) in let yes = h.0 in cc)
  | inr e ↦ elim (Bool-cases (ltb j i)) [
    | inl f ↦ absurd (let no = h.1 j (ltb→lt j i f) in let yes = k.0 in cc)
    | inr f ↦ let same : i ≡ j = ground arith in ap some same
  ]
]

pub IsFirst-index_of : (p s : List ℕ) (o : Option ℕ) → IsFirst p s o → index_of p s ≡ o
IsFirst-index_of p s o h = IsFirst-unique p s (index_of p s) o (index_of-IsFirst p s) h

abbrev pub shift : ℕ → Option ℕ → Option ℕ
shift k none = none
shift k (some i) = some (k + i)

-- Far enough from its end a text is not changed by what follows.
pub local :
    (p s t : List ℕ) (j : ℕ)
    → j + length p ≤ length s
    → starts_with p (drop j (s ++ t)) ≡ starts_with p (drop j s)
local p s t j h =
    let room : length p ≤ length (drop j s) = omega (arith, length-drop j s) in
    rw (drop-append_le j s t (omega (arith, h))) (starts_with-append p (drop j s) t room)

pub within :
    (p s : List ℕ) (i : ℕ)
    → starts_with p (drop i s) ≡ true
    → 0 < length p
    → i + length p ≤ length s
within p s i h pos = elim (Bool-cases (ltb (length (drop i s)) (length p))) [
  | inl e ↦ absurd (let no = starts_with_short p (drop i s) (ltb→lt _ _ e) in cc)
  | inr e ↦
      let enough : length p ≤ length (drop i s) = ground arith in
      omega (arith, enough, length-drop i s)
]

pub IsFirst-append :
    (p s t : List ℕ) (i : ℕ) → 0 < length p → IsFirst p s (some i) → IsFirst p (s ++ t) (some i)
IsFirst-append p s t i pos (here, before) =
    let fits = within p s i here pos in
    (local p s t i fits ∙ here, λ j lt. local p s t j (omega (arith, lt, fits)) ∙ before j lt)

pub IsFirst-shift :
    (p u : List ℕ) (k : ℕ) (o : Option ℕ)
    → ((j : ℕ) → j < k → starts_with p (drop j u) ≡ false)
    → IsFirst p (drop k u) o
    → IsFirst p u (shift k o)
IsFirst-shift p u k none below h = λ j. elim (Bool-cases (ltb j k)) [
  | inl e ↦ below j (ltb→lt j k e)
  | inr e ↦
      let split : k + (j - k) ≡ j = ground arith in
      rw split at (sym (ap (starts_with p) (drop-drop (j - k) k u)) ∙ h (j - k))
]
IsFirst-shift p u k (some i) below (here, before) = (
  sym (ap (starts_with p) (drop-drop i k u)) ∙ here,
  λ j lt. elim (Bool-cases (ltb j k)) [
    | inl e ↦ below j (ltb→lt j k e)
    | inr e ↦
        let split : k + (j - k) ≡ j = ground arith in
        rw split at
          (sym (ap (starts_with p) (drop-drop (j - k) k u)) ∙ before (j - k) (ground arith))
  ],
)

-- Nothing in `s`: the search in `s ++ t` may begin where fewer bytes than `p` has are left of `s`.
pub IsFirst-tail :
    (p s t : List ℕ) (k : ℕ) (o : Option ℕ)
    → IsFirst p s none
    → k < length s + 1
    → k + length p ≤ length s + 1
    → IsFirst p (drop k s ++ t) o
    → IsFirst p (s ++ t) (shift k o)
IsFirst-tail p s t k o none_in within_s close h =
    IsFirst-shift p (s ++ t) k o (λ j lt. local p s t j (omega (arith, close, lt)) ∙ none_in j)
      (rw (drop-append_le k s t (omega (arith, within_s))) h)
