-- ===== src/Fragment/Laws.antt =====
-- Writes into the array of a fragment keep the lengths of its slices.
use tssdgo.Prelude.{
  ℕ, ◌+◌, ◌-◌, ◌≤◌, ◌≡◌, refl, sym, ap, ◌∙◌, List, ◌++◌, length, take, drop, length-append,
  length-take, length-drop, arith, append_assoc, take-append, drop-append, take-append_le,
  take-append-drop, drop-append_ge, drop-append_le, drop-drop, zero, suc, [], ◌∷◌,
}
use tssdgo.Fragment.{Fragment, memory, capacity, write_at, poke, raw_data}

length-memory : (f : Fragment) → length (memory f) ≡ capacity f
length-memory f =
    omega (arith, length-append f.heads (f.payload ++ f.spare), length-append f.payload f.spare)

pub length-write_at :
    (pos : ℕ) (bs xs : List ℕ)
    → pos + length bs ≤ length xs
    → length (write_at pos bs xs) ≡ length xs
length-write_at pos bs xs h = omega (
  arith,
  length-append (take pos xs) (bs ++ drop (pos + length bs) xs),
  length-append bs (drop (pos + length bs) xs),
  length-take pos xs,
  length-drop (pos + length bs) xs,
)

module _ (pos : ℕ) (bs : List ℕ) (f : Fragment) (h : pos + length bs ≤ capacity f) where
  whole : length (write_at pos bs (memory f)) ≡ capacity f
  whole = omega (arith, length-write_at pos bs (memory f), length-memory f)

  pub length-poke_heads : length (poke pos bs f).heads ≡ length f.heads
  unfolding poke
  length-poke_heads =
      omega (arith, length-take (length f.heads) (write_at pos bs (memory f)), whole)

  pub length-poke_payload : length (poke pos bs f).payload ≡ length f.payload
  unfolding poke
  length-poke_payload = omega (
    arith,
    length-take (length f.payload) (drop (length f.heads) (write_at pos bs (memory f))),
    length-drop (length f.heads) (write_at pos bs (memory f)),
    whole,
  )

  pub length-poke_spare : length (poke pos bs f).spare ≡ length f.spare
  unfolding poke
  length-poke_spare =
      omega
        (arith, length-drop (length f.heads + length f.payload) (write_at pos bs (memory f)), whole)

  pub capacity-poke : capacity (poke pos bs f) ≡ capacity f
  capacity-poke = omega (arith, length-poke_heads, length-poke_payload, length-poke_spare)

-- A write at `pos` leaves what stands behind it, and what stands before it.
drop-write_at :
    (n pos : ℕ) (bs xs : List ℕ)
    → pos + length bs ≤ n
    → n ≤ length xs
    → drop n (write_at pos bs xs) ≡ drop n xs
drop-write_at n pos bs xs h k =
    let q = pos + length bs in
    let len : length (take pos xs ++ bs) ≡ q =
      omega (arith, length-append (take pos xs) bs, length-take pos xs) in
    let whole : q + (n - length (take pos xs ++ bs)) ≡ n = omega (arith, len) in
    ap (drop n) (sym (append_assoc (take pos xs) bs (drop q xs)))
    ∙ (drop-append_ge n (take pos xs ++ bs) (drop q xs) (omega (arith, len))
        ∙ (drop-drop (n - length (take pos xs ++ bs)) q xs ∙ ap (λ (m : ℕ). drop m xs) whole))

take-write_at :
    (n pos : ℕ) (bs xs : List ℕ)
    → n ≤ pos
    → pos ≤ length xs
    → take n (write_at pos bs xs) ≡ take n xs
take-write_at n pos bs xs h k =
    let inside : n ≤ length (take pos xs) = omega (arith, length-take pos xs) in
    take-append_le n (take pos xs) (bs ++ drop (pos + length bs) xs) inside
    ∙ (sym (take-append_le n (take pos xs) (drop pos xs) inside)
        ∙ ap (take n) (take-append-drop pos xs))

take_nil : (n : ℕ) → take {A = ℕ} n [] ≡ []
take_nil zero = refl
take_nil (suc n) = refl

take-drop : (p h : ℕ) (xs : List ℕ) → take p (drop h xs) ≡ drop h (take (h + p) xs)
take-drop p zero xs = let e : 0 + p ≡ p = omega arith in rw e refl
take-drop p (suc h) [] = let e : suc h + p ≡ suc (h + p) = omega arith in rw e (take_nil p)
take-drop p (suc h) (x ∷ xs) =
    let e : suc h + p ≡ suc (h + p) = omega arith in rw e (take-drop p h xs)

module _ (pos : ℕ) (bs : List ℕ) (f : Fragment) where
  payload_in : take (length f.payload) (drop (length f.heads) (memory f)) ≡ f.payload
  payload_in =
      ap (take (length f.payload))
        (drop-append (length f.heads) f.heads (f.payload ++ f.spare) refl)
      ∙ take-append (length f.payload) f.payload f.spare refl

  -- A write into the heads leaves the payload.
  pub poke_heads-payload : pos + length bs ≤ length f.heads → (poke pos bs f).payload ≡ f.payload
  unfolding poke
  poke_heads-payload h =
      ap (take (length f.payload))
        (drop-write_at (length f.heads) pos bs (memory f) h (omega (arith, length-memory f)))
      ∙ payload_in

  -- As does one behind it.
  pub poke_behind-payload :
      length f.heads + length f.payload ≤ pos
      → pos ≤ capacity f
      → (poke pos bs f).payload ≡ f.payload
  unfolding poke
  poke_behind-payload h k =
      let m = write_at pos bs (memory f) in
      let front =
        take-write_at (length f.heads + length f.payload) pos bs (memory f) h
          (omega (arith, length-memory f, k)) in
      take-drop (length f.payload) (length f.heads) m
      ∙ (ap (drop (length f.heads)) front
          ∙ (sym (take-drop (length f.payload) (length f.heads) (memory f)) ∙ payload_in))

write_at-append :
    (pos : ℕ) (bs xs ys : List ℕ)
    → pos + length bs ≤ length xs
    → write_at pos bs (xs ++ ys) ≡ write_at pos bs xs ++ ys
write_at-append pos bs xs ys h =
    let front = take-append_le pos xs ys (omega (arith, h)) in
    let back = drop-append_le (pos + length bs) xs ys h in
    rw (front, back)
      (sym (
        append_assoc (take pos xs) (bs ++ drop (pos + length bs) xs) ys
        ∙ ap (λ t. take pos xs ++ t) (append_assoc bs (drop (pos + length bs) xs) ys)))

-- A write into the heads, seen in the heads.
pub poke-heads :
    (pos : ℕ) (bs : List ℕ) (f : Fragment)
    → pos + length bs ≤ length f.heads
    → (poke pos bs f).heads ≡ write_at pos bs f.heads
unfolding poke
poke-heads pos bs f h =
    ap (take (length f.heads)) (write_at-append pos bs f.heads (f.payload ++ f.spare) h)
    ∙ take-append (length f.heads) (write_at pos bs f.heads) (f.payload ++ f.spare)
        (length-write_at pos bs f.heads h)

memory-poke :
    (pos : ℕ) (bs : List ℕ) (f : Fragment) → memory (poke pos bs f) ≡ write_at pos bs (memory f)
unfolding poke
memory-poke pos bs f =
    let m = write_at pos bs (memory f) in
    let p = length f.payload in
    let h = length f.heads in
    ap (λ t. take h m ++ (take p (drop h m) ++ t)) (sym (drop-drop p h m))
    ∙ (ap (λ t. take h m ++ t) (take-append-drop p (drop h m)) ∙ take-append-drop h m)

-- A write right behind the payload, seen up to its end.
pub poke-raw_data :
    (bs : List ℕ) (f : Fragment)
    → length f.heads + length f.payload + length bs ≤ capacity f
    → take
        (length f.heads + length f.payload + length bs)
        (memory (poke (length f.heads + length f.payload) bs f))
      ≡ (f.heads ++ f.payload) ++ bs
poke-raw_data bs f h =
    let n = length f.heads + length f.payload in
    let len : length (f.heads ++ f.payload) ≡ n = length-append f.heads f.payload in
    let front : take n (memory f) ≡ f.heads ++ f.payload =
      ap (take n) (sym (append_assoc f.heads f.payload f.spare))
      ∙ take-append n (f.heads ++ f.payload) f.spare len in
    let whole : length ((f.heads ++ f.payload) ++ bs) ≡ n + length bs =
      omega (arith, length-append (f.heads ++ f.payload) bs, len) in
    ap (take (n + length bs)) (memory-poke n bs f)
    ∙ (ap (λ t. take (n + length bs) (t ++ (bs ++ drop (n + length bs) (memory f)))) front
        ∙ (ap (take (n + length bs))
              (sym (append_assoc (f.heads ++ f.payload) bs (drop (n + length bs) (memory f))))
            ∙ take-append (n + length bs) ((f.heads ++ f.payload) ++ bs)
                (drop (n + length bs) (memory f)) whole))

pub raw_data-whole :
    (f : Fragment)
    → f.data_len ≡ length f.heads + length f.payload
    → raw_data f ≡ f.heads ++ f.payload
unfolding raw_data
raw_data-whole f e =
    ap (λ m. take m (memory f)) e
    ∙ (ap (take (length f.heads + length f.payload)) (sym (append_assoc f.heads f.payload f.spare))
        ∙ take-append (length f.heads + length f.payload) (f.heads ++ f.payload) f.spare
            (length-append f.heads f.payload))
