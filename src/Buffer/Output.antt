-- ===== src/Buffer/Output.antt =====
-- tssd/buffer.go: `Fragments` and `WriteFragments`, with `Fragment.Write` of tssd/tssd.go, over an
-- io.Writer.
use tssdgo.Prelude.{
  ℕ, zero, suc, ◌+◌, ◌≤◌, ◌≡◌, refl, sym, ap, ◌∙◌, Option, none, some, List, [], ◌∷◌, ◌++◌, length,
  take, take-append_le, take_all, ◌-◌, append-nil, append_assoc, length-append, arith,
}
use tssdgo.Wire.{Error, Result, ok, ◌>>=◌}
use tssdgo.Fragment.{Fragment, raw_data}
use tssdgo.Buffer.{Buffer, found, lookup_entry, fragment_count, count_entries, one_if_some}
use mathlib.Core.Path.{subst}
use tssdgo.Buffer.Read.Stream.{take-append_ge}
use tssdgo.Buffer.Write.State.{entries, count-entries_full}

-- The keys from `i` on, of which `n` are left; a missing one gives nil.
abbrev pub fragments_from : List (Option Fragment) → ℕ → ℕ → List (Option Fragment)
fragments_from os zero i = []
fragments_from os (suc n) i = lookup_entry os i ∷ fragments_from os n (i + 1)

-- `Fragments`
unfoldable pub fragment_list : Buffer → List (Option Fragment)
fragment_list b = fragments_from b.fragments (fragment_count b) 0

-- `Write` of the writer: how many bytes it took, its error, and the writer.
module _ (Writer : Type 0) (write : List ℕ → Writer → ℕ × Option Error × Writer) where
  -- `Fragment.Write`
  abbrev pub write_fragment : Fragment → Writer → ℕ × Option Error × Writer
  write_fragment f w = write (raw_data f) w

  -- Behind a `Write`: an error ends the loop, with the bytes so far.
  abbrev pub written :
      (Writer → Result (ℕ × Option Error × Writer))
      → ℕ × Option Error × Writer
      → Result (ℕ × Option Error × Writer)
  written more (l, some e, w) = ok (l, some e, w)
  written more (l, none, w) = more w >>= λ (n, e, w'). ok (l + n, e, w')

  -- The loop of `WriteFragments`, with `n` keys left from key `i` on.
  unfoldable pub write_loop :
      List (Option Fragment) → ℕ → ℕ → Writer → Result (ℕ × Option Error × Writer)
  write_loop os zero i w = ok (0, none, w)
  write_loop os (suc n) i w =
      found (lookup_entry os i) >>= λ f. written (write_loop os n (i + 1)) (write_fragment f w)

  unfoldable pub write_fragments : Buffer → Writer → Result (ℕ × Option Error × Writer)
  write_fragments b w = write_loop b.fragments (fragment_count b) 0 w

  -- The bytes of the fragments, one behind the other.
  abbrev pub wire : List Fragment → List ℕ
  wire [] = []
  wire (f ∷ fs) = raw_data f ++ wire fs

  -- What io.Writer documents, where `sink` is what the writer has been given: it takes a part of the
  -- bytes from their front, and all of them if it has no error.
  pub record IsWriter (sink : Writer → List ℕ) : Type 0 where
    pub at_most : (bs : List ℕ) (w : Writer) → (write bs w).0 ≤ length bs
    pub all : (bs : List ℕ) (w : Writer) → (write bs w).1 ≡ none → (write bs w).0 ≡ length bs
    pub kept : (bs : List ℕ) (w : Writer) → sink (write bs w).2 ≡ sink w ++ take (write bs w).0 bs

  -- What sending the fragments comes to: how many bytes the writer took, its error, and the writer.
  -- The first error ends it, and none is made up.
  pub data Sends : List Fragment → Writer → ℕ → Option Error → Writer → Type 0 where
    all_sent : {w : Writer} → Sends [] w 0 none w
    one_sent :
        {f : Fragment} {fs : List Fragment} {w w' : Writer} {n : ℕ} {e : Option Error}
        → (write (raw_data f) w).1 ≡ none
        → Sends fs (write (raw_data f) w).2 n e w'
        → Sends (f ∷ fs) w ((write (raw_data f) w).0 + n) e w'
    refused :
        {f : Fragment} {fs : List Fragment} {w : Writer} {e : Error}
        → (write (raw_data f) w).1 ≡ some e
        → Sends (f ∷ fs) w (write (raw_data f) w).0 (some e) (write (raw_data f) w).2

  -- The call returns what sending comes to. What the writer was given is the front of the bytes of the
  -- fragments, as long as is answered; all of them if there is no error.
  abbrev pub Delivers :
      (Writer → List ℕ) → List Fragment → Writer → Result (ℕ × Option Error × Writer) → Type 0
  Delivers sink gs w r =
      (n : ℕ) × (e : Option Error) × (w' : Writer) × (r ≡ ok (n, e, w'))
      × Sends gs w n e w'
      × (sink w' ≡ sink w ++ take n (wire gs))
      × (n ≤ length (wire gs))
      × (e ≡ none → n ≡ length (wire gs))

  module _ (sink : Writer → List ℕ) (contract : IsWriter sink) where
    next_one :
        (f : Fragment) (fs : List Fragment) (w : Writer)
        (more : Writer → Result (ℕ × Option Error × Writer))
        → ((w1 : Writer) → Delivers sink fs w1 (more w1))
        → Delivers sink (f ∷ fs) w (written more (write (raw_data f) w))
    next_one f fs w more after =
        let bs = raw_data f in
        go (write bs w) refl (contract.at_most bs w) (contract.all bs w) (contract.kept bs w)
      where
        go :
            (p : ℕ × Option Error × Writer)
            → write (raw_data f) w ≡ p
            → p.0 ≤ length (raw_data f)
            → (p.1 ≡ none → p.0 ≡ length (raw_data f))
            → sink p.2 ≡ sink w ++ take p.0 (raw_data f)
            → Delivers sink (f ∷ fs) w (written more p)
        go (l, some e, w1) at less all kept =
            let bs = raw_data f in
            let stop : Sends (f ∷ fs) w (write bs w).0 (some e) (write bs w).2 =
              refused (ap (λ p. p.1) at) in
            (
              l,
              some e,
              w1,
              refl,
              subst (λ (p : ℕ × Option Error × Writer). Sends (f ∷ fs) w p.0 (some e) p.2) at stop,
              kept ∙ ap (λ t. sink w ++ t) (sym (take-append_le l bs (wire fs) less)),
              omega (arith, length-append bs (wire fs), less),
              λ h. absurd (cc),
            )
        go (l, none, w1) at less all kept =
            let bs = raw_data f in
            let rest = wire fs in
            let (n, e, w2, r, sent, given, few, whole) = after w1 in
            let full : l ≡ length bs = all refl in
            let whole_chunk = take_all l bs (omega arith) in
            let left : l + n - length bs ≡ n = omega arith in
            let both : take (l + n) (bs ++ rest) ≡ bs ++ take n rest =
              take-append_ge (l + n) bs rest (omega arith) ∙ ap (λ k. bs ++ take k rest) left in
            let behind : Sends fs (write bs w).2 n e w2 =
              subst (λ (p : ℕ × Option Error × Writer). Sends fs p.2 n e w2) (sym at) sent in
            let step : Sends (f ∷ fs) w ((write bs w).0 + n) e w2 =
              one_sent (ap (λ p. p.1) at) behind in
            (
              l + n,
              e,
              w2,
              rw r refl,
              subst (λ (p : ℕ × Option Error × Writer). Sends (f ∷ fs) w (p.0 + n) e w2) at step,
              given
                  ∙ (ap (λ t. t ++ take n rest) (kept ∙ ap (λ t. sink w ++ t) whole_chunk)
                      ∙ (append_assoc (sink w) bs (take n rest)
                          ∙ ap (λ t. sink w ++ t) (sym both))),
              omega (arith, length-append bs rest),
              λ h. omega (arith, length-append bs rest, whole h),
            )

    loop_lem :
        (os : List (Option Fragment)) (gs : List Fragment) (i : ℕ) (w : Writer)
        → ((j : ℕ) → lookup_entry os (i + j) ≡ lookup_entry (entries gs) j)
        → Delivers sink gs w (write_loop os (length gs) i w)
    unfolding write_loop
    loop_lem os [] i w at =
        (0, none, w, refl, all_sent, sym (append-nil (sink w)), omega arith, λ h. refl)
    loop_lem os (g ∷ gs) i w at =
        let here : lookup_entry os i ≡ some g =
          let first : i + 0 ≡ i = omega arith in ap (lookup_entry os) (sym first) ∙ at 0 in
        rw here (
          next_one g gs w (write_loop os (length gs) (i + 1)) λ w1. loop_lem os gs (i + 1) w1 λ j.
            let next : (i + 1) + j ≡ i + suc j = omega arith in
            ap (lookup_entry os) next ∙ at (suc j))

    -- `WriteFragments` of a buffer with consecutive fragments gives their data to the writer in order,
    -- each once, and ends at the first error of the writer and only there, which it answers, with the
    -- number of bytes that the writer took; without an error these are all. The writer is one that
    -- does what io.Writer documents.
    pub write_fragments-Delivers :
        (b : Buffer) (gs : List Fragment) (w : Writer)
        → b.fragments ≡ entries gs
        → b.stray ≡ none
        → Delivers sink gs w (write_fragments b w)
    unfolding write_fragments
    write_fragments-Delivers b gs w at no_stray =
        let count : fragment_count b ≡ length gs = omega (
          arith,
          ap (one_if_some {A = Fragment}) no_stray,
          ap count_entries at,
          count-entries_full gs,
        ) in
        rw (count, at)
          (loop_lem (entries gs) gs 0 w
            λ j. let same : 0 + j ≡ j = omega arith in ap (lookup_entry (entries gs)) same)
