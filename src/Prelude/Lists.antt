-- ===== src/Prelude/Lists.antt =====
-- Lists measured and cut by native numbers, under the library's names.
use Prim.Native.Nat.{◌<◌, ℕ, zero, suc, ◌+◌, ◌-◌, ◌≤◌, min}
use mathlib.Core.Path.{◌≡◌, refl, ap, ◌∙◌}
use mathlib.Core.List.{List, [], ◌∷◌, ◌++◌, append_assoc}
use mathlib.Core.Option.{Option, none, some}
use native.Mathlib.Omega.{arith}

module _ {ℓ} {A : Type ℓ} where
  abbrev pub length : List A → ℕ
  length [] = 0
  length (x ∷ xs) = suc (length xs)

  abbrev pub get_elem? : List A → ℕ → Option A
  get_elem? [] i = none
  get_elem? (x ∷ xs) zero = some x
  get_elem? (x ∷ xs) (suc i) = get_elem? xs i

  -- A write out of bounds changes nothing.
  abbrev pub set : List A → ℕ → A → List A
  set [] i v = []
  set (x ∷ xs) zero v = v ∷ xs
  set (x ∷ xs) (suc i) v = x ∷ set xs i v

  abbrev pub take : ℕ → List A → List A
  take zero xs = []
  take (suc n) [] = []
  take (suc n) (x ∷ xs) = x ∷ take n xs

  abbrev pub drop : ℕ → List A → List A
  drop zero xs = xs
  drop (suc n) [] = []
  drop (suc n) (x ∷ xs) = drop n xs

  abbrev pub replicate : ℕ → A → List A
  replicate zero a = []
  replicate (suc n) a = a ∷ replicate n a

  abbrev pub All {κ} : (A → Type κ) → List A → Type κ
  All P [] = Unit {κ}
  All P (x ∷ xs) = P x × All P xs

  pub nil_of_empty : (xs : List A) → length xs ≡ 0 → xs ≡ []
  nil_of_empty [] h = refl
  nil_of_empty (x ∷ xs) h = absurd (omega arith)

  pub length-append : (xs ys : List A) → length (xs ++ ys) ≡ length xs + length ys
  length-append [] ys = omega arith
  length-append (x ∷ xs) ys = omega (arith, length-append xs ys)

  pub take-append-drop : (n : ℕ) (xs : List A) → take n xs ++ drop n xs ≡ xs
  take-append-drop zero xs = refl
  take-append-drop (suc n) [] = refl
  take-append-drop (suc n) (x ∷ xs) = rw (take-append-drop n xs)

  pub length-take : (n : ℕ) (xs : List A) → length (take n xs) ≡ min n (length xs)
  length-take zero xs = omega arith
  length-take (suc n) [] = omega arith
  length-take (suc n) (x ∷ xs) = omega (arith, length-take n xs)

  pub length-drop : (n : ℕ) (xs : List A) → length (drop n xs) ≡ length xs - n
  length-drop zero xs = omega arith
  length-drop (suc n) [] = omega arith
  length-drop (suc n) (x ∷ xs) = omega (arith, length-drop n xs)

  pub length-replicate : (n : ℕ) (a : A) → length (replicate n a) ≡ n
  length-replicate zero a = refl
  length-replicate (suc n) a = ap suc (length-replicate n a)

  pub length-set : (xs : List A) (i : ℕ) (v : A) → length (set xs i v) ≡ length xs
  length-set [] i v = refl
  length-set (x ∷ xs) zero v = refl
  length-set (x ∷ xs) (suc i) v = ap suc (length-set xs i v)

  -- A prefix of known length is what `take` and `drop` find.
  pub take-append : (n : ℕ) (xs ys : List A) → length xs ≡ n → take n (xs ++ ys) ≡ xs
  take-append zero [] ys h = refl
  take-append (suc n) [] ys h = absurd (omega arith)
  take-append zero (x ∷ xs) ys h = absurd (omega arith)
  take-append (suc n) (x ∷ xs) ys h = ap (λ t. x ∷ t) (take-append n xs ys (omega arith))

  pub drop-append : (n : ℕ) (xs ys : List A) → length xs ≡ n → drop n (xs ++ ys) ≡ ys
  drop-append zero [] ys h = refl
  drop-append (suc n) [] ys h = absurd (omega arith)
  drop-append zero (x ∷ xs) ys h = absurd (omega arith)
  drop-append (suc n) (x ∷ xs) ys h = drop-append n xs ys (omega arith)

  pub take_all : (n : ℕ) (xs : List A) → length xs ≤ n → take n xs ≡ xs
  take_all zero [] h = refl
  take_all (suc n) [] h = refl
  take_all zero (x ∷ xs) h = absurd (omega arith)
  take_all (suc n) (x ∷ xs) h = ap (λ t. x ∷ t) (take_all n xs (omega arith))

  pub drop_all : (n : ℕ) (xs : List A) → length xs ≤ n → drop n xs ≡ []
  drop_all zero [] h = refl
  drop_all (suc n) [] h = refl
  drop_all zero (x ∷ xs) h = absurd (omega arith)
  drop_all (suc n) (x ∷ xs) h = drop_all n xs (omega arith)

  pub drop_nil : (n : ℕ) → drop n [] ≡ []
  drop_nil zero = refl
  drop_nil (suc n) = refl

  -- Cutting inside the first of two lists.
  pub take-append_le : (n : ℕ) (xs ys : List A) → n ≤ length xs → take n (xs ++ ys) ≡ take n xs
  take-append_le zero xs ys h = refl
  take-append_le (suc n) [] ys h = absurd (omega arith)
  take-append_le (suc n) (x ∷ xs) ys h = ap (λ t. x ∷ t) (take-append_le n xs ys (omega arith))

  pub drop-append_le :
      (n : ℕ) (xs ys : List A) → n ≤ length xs → drop n (xs ++ ys) ≡ drop n xs ++ ys
  drop-append_le zero xs ys h = refl
  drop-append_le (suc n) [] ys h = absurd (omega arith)
  drop-append_le (suc n) (x ∷ xs) ys h = drop-append_le n xs ys (omega arith)

  -- Cutting behind the first of two lists.
  pub drop-append_ge :
      (n : ℕ) (xs ys : List A) → length xs ≤ n → drop n (xs ++ ys) ≡ drop (n - length xs) ys
  drop-append_ge n [] ys h = ap (λ (k : ℕ). drop k ys) (omega arith)
  drop-append_ge zero (x ∷ xs) ys h = absurd (omega arith)
  drop-append_ge (suc n) (x ∷ xs) ys h =
      drop-append_ge n xs ys (omega arith) ∙ ap (λ (k : ℕ). drop k ys) (omega arith)

  pub drop-drop : (m n : ℕ) (xs : List A) → drop m (drop n xs) ≡ drop (n + m) xs
  drop-drop m zero xs = let e : 0 + m ≡ m = omega arith in rw e
  drop-drop m (suc n) [] = let e : suc n + m ≡ suc (n + m) = omega arith in rw (e, drop_nil)
  drop-drop m (suc n) (x ∷ xs) =
      let e : suc n + m ≡ suc (n + m) = omega arith in rw (e, drop-drop m n xs)

  pub set-append :
      (xs : List A) (x : A) (ys : List A) (v : A) (n : ℕ)
      → length xs ≡ n
      → set (xs ++ x ∷ ys) n v ≡ xs ++ v ∷ ys
  set-append [] x ys v zero h = refl
  set-append [] x ys v (suc n) h = absurd (omega arith)
  set-append (y ∷ xs) x ys v zero h = absurd (omega arith)
  set-append (y ∷ xs) x ys v (suc n) h = ap (λ t. y ∷ t) (set-append xs x ys v n (omega arith))

  pub get_elem?-append :
      (xs : List A) (x : A) (ys : List A) (n : ℕ)
      → length xs ≡ n
      → get_elem? (xs ++ x ∷ ys) n ≡ some x
  get_elem?-append [] x ys zero h = refl
  get_elem?-append [] x ys (suc n) h = absurd (omega arith)
  get_elem?-append (y ∷ xs) x ys zero h = absurd (omega arith)
  get_elem?-append (y ∷ xs) x ys (suc n) h = get_elem?-append xs x ys n (omega arith)

  pub get_elem?-some : (xs : List A) (i : ℕ) (x : A) → get_elem? xs i ≡ some x → i < length xs
  get_elem?-some [] i x e = absurd (cc)
  get_elem?-some (y ∷ ys) zero x e = omega arith
  get_elem?-some (y ∷ ys) (suc i) x e = omega (arith, get_elem?-some ys i x e)

  pub get_elem?-none : (xs : List A) (i : ℕ) → get_elem? xs i ≡ none → length xs ≤ i
  get_elem?-none [] i e = omega arith
  get_elem?-none (y ∷ ys) zero e = absurd (cc)
  get_elem?-none (y ∷ ys) (suc i) e = omega (arith, get_elem?-none ys i e)

  pub get_elem?-below : (xs : List A) (i : ℕ) → i < length xs → (x : A) × (get_elem? xs i ≡ some x)
  get_elem?-below [] i h = absurd (omega arith)
  get_elem?-below (y ∷ ys) zero h = (y, refl)
  get_elem?-below (y ∷ ys) (suc i) h = get_elem?-below ys i (omega arith)

  pub set-append_left :
      (xs ys : List A) (n : ℕ) (v : A) → suc n ≤ length xs → set (xs ++ ys) n v ≡ set xs n v ++ ys
  set-append_left [] ys n v h = absurd (omega arith)
  set-append_left (x ∷ xs) ys zero v h = refl
  set-append_left (x ∷ xs) ys (suc n) v h =
      ap (λ t. x ∷ t) (set-append_left xs ys n v (omega arith))

  pub set-append_right :
      (xs ys : List A) (n : ℕ) (v : A) → set (xs ++ ys) (length xs + n) v ≡ xs ++ set ys n v
  set-append_right [] ys n v = ap (λ (k : ℕ). set ys k v) (zero_add n)
    where
      zero_add : (k : ℕ) → 0 + k ≡ k
      zero_add k = omega arith
  set-append_right (x ∷ xs) ys n v =
      let e : suc (length xs) + n ≡ suc (length xs + n) = omega arith in
      rw (e, set-append_right xs ys n v)

  -- Bytes put over what stands at an offset, one by one.
  abbrev pub overwrite : ℕ → List A → List A → List A
  overwrite n [] xs = xs
  overwrite n (v ∷ vs) xs = overwrite (n + 1) vs (set xs n v)

  pub overwrite-append :
      (xs ys zs vs : List A)
      → length ys ≡ length vs
      → overwrite (length xs) vs (xs ++ (ys ++ zs)) ≡ xs ++ (vs ++ zs)
  overwrite-append xs [] zs [] h = refl
  overwrite-append xs [] zs (v ∷ vs) h = absurd (omega arith)
  overwrite-append xs (y ∷ ys) zs [] h = absurd (omega arith)
  overwrite-append xs (y ∷ ys) zs (v ∷ vs) h =
      let e : length xs + 1 ≡ length (xs ++ v ∷ []) = omega (arith, length-append xs (v ∷ [])) in
      rw (set-append xs y (ys ++ zs) v (length xs) refl, e, ← append_assoc xs (v ∷ []) (ys ++ zs))
        (overwrite-append (xs ++ v ∷ []) ys zs vs (omega arith)
          ∙ append_assoc xs (v ∷ []) (vs ++ zs))

  pub length-overwrite : (n : ℕ) (vs xs : List A) → length (overwrite n vs xs) ≡ length xs
  length-overwrite n [] xs = refl
  length-overwrite n (v ∷ vs) xs = length-overwrite (n + 1) vs (set xs n v) ∙ length-set xs n v
