-- ===== src/Receiver/Detect.antt =====
-- `detectMagic` against a search of the whole stream.
use tssdgo.Prelude.{
  ℕ, ◌+◌, ◌-◌, ◌≤◌, ◌<◌, ◌≡◌, ◌⊎◌, refl, sym, ap, ◌∙◌, inl, inr, true, false, Option, none, some,
  List, ◌++◌, length, take, drop, length-append, length-take, length-drop, append_assoc,
  drop-append, drop-append_le, drop-append_ge, drop-drop, drop_all, take-append-drop, take_all,
  arith, ltb, ltb→lt, Bool-cases, Option-cases, le→ltb,
}
use mathlib.Core.Path.{subst}
use tssdgo.Wire.{magic, ok, fragment_min_header_size}
use tssdgo.Receiver.{
  RBuffer, Step, starts_with, index_of, found_magic, keep_bytes, at_most, search_new, search_joint,
  search_kept, detect_from, detect_magic,
}
use tssdgo.Receiver.Search.{
  IsFirst, index_of-IsFirst, IsFirst-index_of, IsFirst-append, IsFirst-shift, IsFirst-tail, shift,
  starts_with_short, within, local,
}

abbrev pub last_four : List ℕ → List ℕ
last_four u = drop (length u - 4) u

-- What a search of the whole stream `u` leads to: the bytes from the first magic on, or the last
-- four, in which a magic may begin.
abbrev pub located : Option ℕ → List ℕ → RBuffer → Step
located (some i) u r = ok (
  fragment_min_header_size - length (drop i u),
  none,
  record r { data_bytes = drop i u; magic_at = some 0 },
)
located none u r = keep_bytes (last_four u) r

found_here :
    (bs : List ℕ) (r : RBuffer)
    → starts_with magic bs ≡ true
    → found_magic bs r ≡ located (some 0) bs r
unfolding found_magic
found_here bs r h =
    let at : index_of magic bs ≡ some 0 =
      IsFirst-index_of magic bs (some 0) (h, λ j lt. absurd (omega arith)) in
    rw at refl

-- The search of `u` has found the magic at `i`.
found_at :
    (u bs : List ℕ) (i : ℕ) (r : RBuffer)
    → index_of magic u ≡ some i
    → drop i u ≡ bs
    → found_magic bs r ≡ located (index_of magic u) u r
found_at u bs i r at same =
    let first = rw at at (index_of-IsFirst magic u) in
    rw (at, ← same) (found_here (drop i u) r first.0)

at_most_lem : (n : ℕ) → ((n ≤ 4) × (at_most 4 n ≡ n)) ⊎ ((4 ≤ n) × (at_most 4 n ≡ 4))
at_most_lem n = elim (Bool-cases (ltb n 4)) [
  | inl e ↦ inl (omega (arith, ltb→lt n 4 e), rw e refl)
  | inr e ↦ inr (ground arith, rw e refl)
]

-- Fewer than five bytes were kept.
module _ (a d : List ℕ) (few : length a < 5) where
  short_none : length a + length d < 5 → index_of magic (a ++ d) ≡ none
  short_none h = IsFirst-index_of magic (a ++ d) none λ j.
      starts_with_short magic (drop j (a ++ d))
        (omega (arith, length-drop j (a ++ d), length-append a d))

  joined : List ℕ
  joined = a ++ take (at_most 4 (length d)) d

  whole : joined ++ drop (at_most 4 (length d)) d ≡ a ++ d
  unfolding joined
  whole =
      append_assoc a (take (at_most 4 (length d)) d) (drop (at_most 4 (length d)) d)
      ∙ ap (λ t. a ++ t) (take-append-drop (at_most 4 (length d)) d)

  length-joined : length joined ≤ length a + 4
  unfolding joined
  length-joined =
      let l = length-append a (take (at_most 4 (length d)) d) in
      let t = length-take (at_most 4 (length d)) d in
      elim (at_most_lem (length d)) [
        | inl h ↦ omega (arith, l, t, h.0, h.1)
        | inr h ↦ omega (arith, l, t, h.0, h.1)
      ]

  joined-some :
      (i : ℕ) → index_of magic joined ≡ some i → (index_of magic (a ++ d) ≡ some i) × (i ≤ length a)
  joined-some i e =
      let first = rw e at (index_of-IsFirst magic joined) in
      let longer =
        IsFirst-append magic joined (drop (at_most 4 (length d)) d) i (omega arith) first in
      (
        IsFirst-index_of magic (a ++ d) (some i)
            (subst (λ u. IsFirst magic u (some i)) whole longer),
        omega (arith, within magic joined i first.0 (omega arith), length-joined),
      )

  -- No magic begins in the kept bytes.
  joined-none :
      index_of magic joined ≡ none
      → (j : ℕ) → j < length a
      → starts_with magic (drop j (a ++ d)) ≡ false
  unfolding joined
  joined-none e j lt =
      let all : (k : ℕ) → starts_with magic (drop k joined) ≡ false =
        (rw e at (index_of-IsFirst magic joined)) in
      elim (at_most_lem (length d)) [
        | inl (le, h) ↦
            let same : joined ≡ a ++ d =
              ap (λ t. a ++ t) (rw h (take_all (length d) d (omega arith))) in
            subst (λ u. starts_with magic (drop j u) ≡ false) same (all j)
        | inr (ge, h) ↦
            let len : length joined ≡ length a + 4 = omega (
              arith,
              length-append a (take (at_most 4 (length d)) d),
              length-take (at_most 4 (length d)) d,
              h,
              ge,
            ) in
            subst (λ u. starts_with magic (drop j u) ≡ false) whole
              (local magic joined (drop (at_most 4 (length d)) d) j (omega (arith, len, lt))
                ∙ all j)
      ]

  joined-shift :
      index_of magic joined ≡ none → index_of magic (a ++ d) ≡ shift (length a) (index_of magic d)
  joined-shift e = IsFirst-index_of magic (a ++ d) (shift (length a) (index_of magic d)) (
      IsFirst-shift magic (a ++ d) (length a) (index_of magic d) (joined-none e)
        (rw (drop-append (length a) a d refl) (index_of-IsFirst magic d)))

  kept_four :
      5 ≤ length a + length d
      → drop (length a - (4 - at_most 4 (length d))) a ++ drop (length d - at_most 4 (length d)) d
        ≡ last_four (a ++ d)
  kept_four many =
      let len = length-append a d in
      elim (at_most_lem (length d)) [
        | inl (le, h) ↦
            let cut : length (a ++ d) - 4 ≡ length a - (4 - length d) =
              omega (arith, len, le, many) in
            let none_cut : length d - length d ≡ 0 = omega arith in
            rw (h, cut, none_cut)
              (sym (drop-append_le (length a - (4 - length d)) a d (omega arith)))
        | inr (ge, h) ↦
            let all_of_a : length a - (4 - 4) ≡ length a = omega arith in
            let behind : length (a ++ d) - 4 - length a ≡ length d - 4 = omega (arith, len, ge) in
            let left = drop-append_ge (length (a ++ d) - 4) a d (omega (arith, len, ge)) in
            rw (h, all_of_a, drop_all (length a) a (omega arith)) (rw behind at (sym left))
      ]

module _ (d : List ℕ) (r : RBuffer) (few : length r.data_bytes < 5) where
  search_new_lem :
      5 ≤ length r.data_bytes + length d
      → index_of magic (joined r.data_bytes d few) ≡ none
      → search_new d r ≡ located (index_of magic (r.data_bytes ++ d)) (r.data_bytes ++ d) r
  unfolding search_new
  search_new_lem many e =
      let a = r.data_bytes in
      let moved = joined-shift a d few e in
      elim (Option-cases (index_of magic d)) [
        | inl h ↦
            let room : ltb (length a) (4 - at_most 4 (length d)) ≡ false =
              le→ltb _ _ (elim (at_most_lem (length d)) [
                | inl (le, k) ↦ omega (arith, k, many)
                | inr (ge, k) ↦ omega (arith, k)
              ]) in
            let whole_none : index_of magic (a ++ d) ≡ none = moved ∙ ap (shift (length a)) h in
            rw (h, search_new, room, whole_none) (ap (λ t. keep_bytes t r) (kept_four a d few many))
        | inr (i, h) ↦
            let at : index_of magic (a ++ d) ≡ some (length a + i) =
              moved ∙ ap (shift (length a)) h in
            let behind : drop (length a + i) (a ++ d) ≡ drop i d =
              sym (drop-drop i (length a) (a ++ d))
              ∙ ap (drop i) (drop-append (length a) a d refl) in
            rw (h, search_new) (found_at (a ++ d) (drop i d) (length a + i) r at behind)
      ]

  search_joint_lem :
      search_joint d r ≡ located (index_of magic (r.data_bytes ++ d)) (r.data_bytes ++ d) r
  unfolding search_joint joined
  search_joint_lem =
      let a = r.data_bytes in
      elim (Bool-cases (ltb (length a + length d) 5)) [
        | inl e ↦
            let short = ltb→lt _ _ e in
            let all : length (a ++ d) - 4 ≡ 0 = omega (arith, length-append a d, short) in
            rw (e, short_none a d few short, all) refl
        | inr e ↦
            let many : 5 ≤ length a + length d = ground arith in
            elim (Option-cases (index_of magic (a ++ take (at_most 4 (length d)) d))) [
              | inl h ↦ rw (e, h, search_joint) (search_new_lem many h)
              | inr (i, h) ↦
                  let (at, le) = joined-some a d few i h in
                  let cut : ltb (length a) i ≡ false = le→ltb _ _ le in
                  rw (e, h, search_joint, cut)
                    (found_at (a ++ d) (drop i a ++ d) i r at (drop-append_le i a d le))
            ]
      ]

located-shift :
    (u : List ℕ) (k : ℕ) (o : Option ℕ) (r : RBuffer)
    → k + 4 ≤ length u
    → located o (drop k u) r ≡ located (shift k o) u r
located-shift u k (some i) r h = rw (drop-drop i k u) refl
located-shift u k none r h =
    let e : k + (length (drop k u) - 4) ≡ length u - 4 = omega (arith, length-drop k u, h) in
    ap (λ t. keep_bytes t r) (drop-drop (length (drop k u) - 4) k u ∙ ap (λ (n : ℕ). drop n u) e)

located_kept :
    (bs : List ℕ) (o : Option ℕ) (u : List ℕ) (r : RBuffer)
    → located o u (record r { data_bytes = bs }) ≡ located o u r
located_kept bs none u r = refl
located_kept bs (some i) u r = refl

module _ (d : List ℕ) (r : RBuffer) where
  pub search_kept_lem :
      search_kept d 0 r ≡ located (index_of magic (r.data_bytes ++ d)) (r.data_bytes ++ d) r
  unfolding search_kept
  search_kept_lem =
      let s = r.data_bytes in
      let k = length s - 4 in
      elim (Bool-cases (ltb (length s) 5)) [
        | inl e ↦ rw e (search_joint_lem d r (ltb→lt _ _ e))
        | inr e ↦
            let many : 5 ≤ length s = ground arith in
            let here : ltb (length s) 0 ≡ false = le→ltb _ _ (omega arith) in
            elim (Option-cases (index_of magic s)) [
              | inr (i, h) ↦
                  let first = rw h at (index_of-IsFirst magic s) in
                  let at =
                    IsFirst-index_of magic (s ++ d) (some i)
                      (IsFirst-append magic s d i (omega arith) first) in
                  let fits = within magic s i first.0 (omega arith) in
                  let sum : 0 + i ≡ i = omega arith in
                  rw (e, search_kept, here, h, sum)
                    (found_at (s ++ d) (drop i s ++ d) i r at
                      (drop-append_le i s d (omega (arith, fits))))
              | inl h ↦
                  let left : length (drop k s) < 5 = omega (arith, length-drop k s, many) in
                  let all : (j : ℕ) → starts_with magic (drop j s) ≡ false =
                    (rw h at (index_of-IsFirst magic s)) in
                  let moved : index_of magic (s ++ d) ≡ shift k (index_of magic (drop k s ++ d)) =
                    IsFirst-index_of magic (s ++ d) _ (
                      IsFirst-tail magic s d k (index_of magic (drop k s ++ d)) all (omega arith)
                        (omega (arith, many)) (index_of-IsFirst magic (drop k s ++ d))) in
                  let same : drop k (s ++ d) ≡ drop k s ++ d = drop-append_le k s d (omega arith) in
                  let shifted = rw same at (
                    located-shift (s ++ d) k (index_of magic (drop k s ++ d)) r
                      (omega (arith, length-append s d, many))) in
                  rw (e, search_kept, here, h)
                    (search_joint_lem d (record r { data_bytes = drop k s }) left
                      ∙ (located_kept (drop k s) _ _ r
                          ∙ shifted
                          ∙ ap (λ o. located o (s ++ d) r) (sym moved)))
            ]
      ]

-- `detectMagic` over the bytes kept and the bytes that come in does what one search of the whole
-- stream does: it stops at the first magic, also where that lies across the border of the two,
-- drops what stands before it, and never panics; without one it keeps the last four bytes, asks for
-- more, and forgets nothing in which a magic may begin.
pub detect_magic-located :
    (d : List ℕ) (r : RBuffer)
    → r.magic_at ≡ none
    → detect_magic d 0 r ≡ located (index_of magic (r.data_bytes ++ d)) (r.data_bytes ++ d) r
unfolding detect_magic
detect_magic-located d r e = ap (λ o. detect_from o d 0 r) e ∙ search_kept_lem d r
