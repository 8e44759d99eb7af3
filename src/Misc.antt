-- ===== src/Misc.antt =====
-- tssd/misc.go: the comparisons SliceEqual, SliceSliceEqual, TimeSliceEqual and TypesEqual; and
-- isMagic and `Heads` of tssd/tssd.go. The tests alone call them.
use tssdgo.Prelude.{
  ℕ, ◌-◌, ◌%◌, ◌≡◌, refl, ap, ◌∙◌, Bool, true, false, ◌&&◌, List, [], ◌∷◌, length, take, ltb,
  le→ltb, ◌==◌, ==→eq, if◌then◌else◌, Bool-cases, inl, inr, arith, map,
}
use tssdgo.Wire.{Result, ok, panic, magic, tarraym_head_length, Schema}
use tssdgo.Fragment.{Fragment}
use tssdgo.Buffer.Assemble.{same_text}
use tssdgo.Receiver.Frame.{frame_of}

module _ {A : Type 0} (eq : A → A → Bool) where
  -- The loop of `SliceEqual`; the second slice is as long as the first.
  abbrev pub equal_items : List A → List A → Bool
  equal_items (x ∷ a) (y ∷ b) = if eq x y then equal_items a b else false
  equal_items _ _ = true

  -- `SliceEqual`, and `TimeSliceEqual` with `Equal` of times.
  unfoldable pub slice_equal : List A → List A → Bool
  slice_equal a b = if length a == length b then equal_items a b else false

  -- The loop of `SliceSliceEqual`.
  abbrev pub equal_slices : List (List A) → List (List A) → Bool
  equal_slices (x ∷ a) (y ∷ b) = if slice_equal x y then equal_slices a b else false
  equal_slices _ _ = true

  unfoldable pub slice_slice_equal : List (List A) → List (List A) → Bool
  slice_slice_equal a b =
      if length a == 0 && length b == 0
      then true
      else if length a == length b
      then equal_slices a b
      else false

  module _ (right : (x y : A) → eq x y ≡ true → x ≡ y) where
    equal_items-right : (a b : List A) → length a ≡ length b → equal_items a b ≡ true → a ≡ b
    equal_items-right [] [] n h = refl
    equal_items-right [] (y ∷ b) n h = absurd (omega (arith, n))
    equal_items-right (x ∷ a) [] n h = absurd (omega (arith, n))
    equal_items-right (x ∷ a) (y ∷ b) n h = elim (Bool-cases (eq x y)) [
      | inl e ↦
          let rest = equal_items-right a b (omega (arith, n)) (rw e at h) in
          ap (λ z. z ∷ a) (right x y e) ∙ ap (λ c. y ∷ c) rest
      | inr e ↦ absurd (let no = rw e at h in cc)
    ]

    -- Slices that `SliceEqual` takes for equal are equal, when its items are.
    pub slice_equal-right : (a b : List A) → slice_equal a b ≡ true → a ≡ b
    unfolding slice_equal
    slice_equal-right a b h = elim (Bool-cases (length a == length b)) [
      | inl e ↦ equal_items-right a b (==→eq (length a) (length b) e) (rw e at h)
      | inr e ↦ absurd (let no = rw e at h in cc)
    ]

-- `TypesEqual`; an int8 is its bit pattern.
unfoldable pub types_equal : List ℕ → List ℕ → Bool
types_equal types expect =
    if length types == length expect
    then slice_equal (λ x y. x == y) types (map (λ e. e % 256) expect)
    else false

-- `isMagic`
unfoldable pub is_magic : List ℕ → Result Bool
is_magic bs =
    if ltb (length bs) (length magic) then panic else ok (same_text (take (length magic) bs) magic)

-- `Heads()`: the heads without the array head of the payload.
unfoldable pub heads_bytes : Fragment → Result (List ℕ)
heads_bytes f =
    if ltb (length f.heads) tarraym_head_length
    then panic
    else ok (take (length f.heads - tarraym_head_length) f.heads)

-- A fragment on the wire begins with the magic.
pub is_magic-frame_of :
    (format : ℕ → List ℕ) (s : Schema) (payload sum : List ℕ)
    → is_magic (frame_of format s payload sum) ≡ ok true
unfolding is_magic
is_magic-frame_of format s payload sum =
    rw (le→ltb (length (frame_of format s payload sum)) (length magic) (omega arith)) refl
