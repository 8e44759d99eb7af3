-- ===== src/Buffer/Assemble/Complete.antt =====
-- When all fragments of an object have come, and not before, nothing is wanted and the buffer holds
-- the payloads in their order.
use tssdgo.Prelude.{
  ℕ, zero, suc, ◌+◌, ◌-◌, ◌≤◌, ◌<◌, ◌≡◌, refl, sym, ap, ◌∙◌, ◌⊎◌, inl, inr, true, Bool-cases,
  Option-cases, Option, none, some, List, [], ◌∷◌, ◌++◌, length, drop, get_elem?, get_elem?-some,
  get_elem?-none, ◌==◌, if◌then◌else◌, eq→==, ==→eq, arith, All,
}
use mathlib.Core.Path.{subst}
use tssdgo.Fragment.{Fragment}
use tssdgo.Buffer.{Buffer, new_buffer, lookup_entry, payloads, count_entries, one_if_some}
use tssdgo.Buffer.Read.Stream.{Holds, At, Occupied, Occupied-tail, flat}
use tssdgo.Buffer.Assemble.{abs_fid, is_ending, wanted, payload_length, push}
use tssdgo.Buffer.Assemble.Wanted.{OpenBelow, wanted-Answer}
use tssdgo.Buffer.Assemble.Gather.{push_all, Among, IsObject, Gathered, new-Gathered, push-Gathered}

-- Every key has the fragment of its place.
abbrev IsWhole : List Fragment → List (Option Fragment) → Type 0
IsWhole gs os = (j : ℕ) → lookup_entry os j ≡ get_elem? gs j

payloads-flat :
    (os : List (Option Fragment)) (gs : List Fragment) → IsWhole gs os → payloads os ≡ flat gs
payloads-flat [] [] h = refl
payloads-flat [] (g ∷ gs) h = absurd (let e = h 0 in cc)
payloads-flat (o ∷ os) [] h =
    let e : o ≡ none = h 0 in rw (e, payloads) (payloads-flat os [] (λ j. h (suc j)))
payloads-flat (o ∷ os) (g ∷ gs) h =
    let e : o ≡ some g = h 0 in
    rw (e, payloads) (ap (λ bs. g.payload ++ bs) (payloads-flat os gs (λ j. h (suc j))))

count_whole :
    (os : List (Option Fragment)) (gs : List Fragment)
    → IsWhole gs os
    → count_entries os ≡ length gs
count_whole [] [] h = refl
count_whole [] (g ∷ gs) h = absurd (let e = h 0 in cc)
count_whole (o ∷ os) [] h =
    let e : o ≡ none = h 0 in
    omega (arith, ap (one_if_some {A = Fragment}) e, count_whole os [] (λ j. h (suc j)))
count_whole (o ∷ os) (g ∷ gs) h =
    let e : o ≡ some g = h 0 in
    omega (arith, ap (one_if_some {A = Fragment}) e, count_whole os gs (λ j. h (suc j)))

At-whole :
    (os : List (Option Fragment)) (i : ℕ) (gs : List Fragment)
    → ((j : ℕ) → lookup_entry os (i + j) ≡ get_elem? gs j)
    → At os i gs
At-whole os i [] h = tt
At-whole os i (g ∷ gs) h =
    let first : i + 0 ≡ i = omega arith in
    (
      ap (lookup_entry os) (sym first) ∙ h 0,
      At-whole os (i + 1) gs λ j.
          let next : (i + 1) + j ≡ i + suc j = omega arith in ap (lookup_entry os) next ∙ h (suc j),
    )

Holds-whole :
    (b : Buffer) (gs : List Fragment)
    → (b.index ≡ 0) × (b.pos ≡ 0)
    → b.size ≡ length (payloads b.fragments)
    → 0 < length gs
    → Occupied gs
    → IsWhole gs b.fragments
    → Holds b (flat gs)
Holds-whole b [] start sized some_piece occupied h = absurd (omega arith)
Holds-whole b (f ∷ fs) (at_index, at_pos) sized some_piece occupied h =
    let from_first : At b.fragments 0 (f ∷ fs) =
      At-whole b.fragments 0 (f ∷ fs)
        λ j. let same : 0 + j ≡ j = omega arith in ap (lookup_entry b.fragments) same ∙ h j in
    record {
      current = f;
      behind = fs;
      at = subst (λ i. At b.fragments i (f ∷ fs)) (sym at_index) from_first;
      within = omega (arith, at_pos);
      bytes = ap (λ p. drop p f.payload ++ flat fs) at_pos;
      counted = sized ∙ ap length (payloads-flat b.fragments (f ∷ fs) h);
      occupied = Occupied-tail f fs occupied;
    }

place-Among : (gs : List Fragment) (j : ℕ) (f : Fragment) → get_elem? gs j ≡ some f → Among f gs
place-Among [] j f e = absurd (cc)
place-Among (g ∷ gs) zero f e = inl (cc)
place-Among (g ∷ gs) (suc j) f e = inr (place-Among gs j f e)

module _ (types tid : List ℕ) (gs : List Fragment) (object : IsObject types tid gs) where
  Among-place :
      (f : Fragment) (hs : List Fragment) → Among f hs → (i : ℕ) × (get_elem? hs i ≡ some f)
  Among-place f [] m = absurd m
  Among-place f (h ∷ hs) (inl e) = (0, ap (λ g. some g) e)
  Among-place f (h ∷ hs) (inr m) = let (i, at) = Among-place f hs m in (suc i, at)

  -- What is there, or comes, is there in the end.
  push_all-Gathered :
      (ps : List Fragment) (b : Buffer)
      → All (λ f. Among f gs) ps
      → Gathered types tid gs b
      → Gathered types tid gs (push_all ps b)
        × ((j : ℕ) (f : Fragment)
            → get_elem? gs j ≡ some f
            → (lookup_entry b.fragments j ≡ some f) ⊎ Among f ps
            → lookup_entry (push_all ps b).fragments j ≡ some f)
  push_all-Gathered [] b members g = (g, λ j f at o. elim o [ inl e ↦ e | inr m ↦ absurd m ])
  push_all-Gathered (p ∷ ps) b members g =
      let (i, place) = Among-place p gs members.0 in
      let (pushed, after) = push-Gathered types tid gs p b i place (object.pieces i p place) g in
      let (all, there) = push_all-Gathered ps (push (some p) b).2 members.1 pushed in
      (all, λ j f at o. there j f at (came i place after j f at o))
    where
      came :
          (i : ℕ)
          → get_elem? gs i ≡ some p
          → ((j : ℕ)
              → lookup_entry (push (some p) b).2.fragments j
                ≡ (if i == j then some p else lookup_entry b.fragments j))
          → (j : ℕ) (f : Fragment) → get_elem? gs j ≡ some f
          → (lookup_entry b.fragments j ≡ some f) ⊎ Among f (p ∷ ps)
          → (lookup_entry (push (some p) b).2.fragments j ≡ some f) ⊎ Among f ps
      came i place after j f at (inl e) = elim (Bool-cases (i == j)) [
        | inl h ↦ inl (after j ∙ rw h (sym place ∙ (ap (get_elem? gs) (==→eq i j h) ∙ at)))
        | inr h ↦ inl (after j ∙ rw h e)
      ]
      came i place after j f at (inr (inl e)) =
          let same : i ≡ j = omega (
            arith,
            (object.pieces i p place).id,
            (object.pieces j f at).id,
            ap (λ g. abs_fid g.schema.fid) e,
          ) in
          inl (after j ∙ rw (eq→== i j same) (ap (λ g. some g) e))
      came i place after j f at (inr (inr m)) = inr m

  module _ (b : Buffer) (g : Gathered types tid gs b) where
    present : (j : ℕ) (f : Fragment) → lookup_entry b.fragments j ≡ some f → get_elem? gs j ≡ some f
    present j f e = elim (g.kept j) [ inl k ↦ absurd (cc) | inr k ↦ sym k ∙ e ]

    filled-IsWhole :
        ((j : ℕ) (f : Fragment) → get_elem? gs j ≡ some f → lookup_entry b.fragments j ≡ some f)
        → IsWhole gs b.fragments
    filled-IsWhole h j = elim (Option-cases (get_elem? gs j)) [
      | inr (f, e) ↦ h j f e ∙ sym e
      | inl e ↦ elim (g.kept j) [ inl k ↦ k ∙ sym e | inr k ↦ k ]
    ]

    whole-Holds : IsWhole gs b.fragments → Holds b (flat gs)
    whole-Holds h =
        let sized : b.size ≡ length (payloads b.fragments) =
          omega (arith, g.counted, ap payload_length g.no_stray) in
        Holds-whole b gs g.at_start sized object.some_piece object.occupied h

    wanted-IsWhole : wanted b ≡ 0 → IsWhole gs b.fragments
    wanted-IsWhole none_wanted =
        let (k, (below, answer)) = wanted-Answer b in
        elim answer [
          | inr (o, w) ↦ absurd (omega (arith, w, none_wanted))
          | inl (f, at, end, w) ↦ all_below k f below at end
        ]
      where
        all_below :
            (k : ℕ) (f : Fragment)
            → OpenBelow b.fragments k
            → lookup_entry b.fragments k ≡ some f
            → is_ending f ≡ true
            → IsWhole gs b.fragments
        all_below k f below at end =
            let place = present k f at in
            let last = ==→eq (k + 1) (length gs) (sym (object.ending k f place) ∙ end) in
            filled-IsWhole λ j f' e. elim (Bool-cases (j == k)) [
              | inl same ↦
                  let at_end = ==→eq j k same in
                  ap (lookup_entry b.fragments) at_end
                  ∙ (at ∙ (sym place ∙ (ap (get_elem? gs) (sym at_end) ∙ e)))
              | inr other ↦
                  let range = get_elem?-some gs j f' e in
                  let (f2, e2, unending) = below j (ground arith) in
                  e2 ∙ (sym (present j f2 e2) ∙ e)
            ]

    not_past : (k : ℕ) → OpenBelow b.fragments k → length gs ≤ k → ⊥
    not_past k below past =
        let n = length gs - 1 in
        let (f, e, unending) = below n (omega (arith, object.some_piece)) in
        let end = object.ending n f (present n f e) in
        let last = eq→== (n + 1) (length gs) (omega (arith, object.some_piece)) in absurd (cc)

    whole-wanted : IsWhole gs b.fragments → wanted b ≡ 0
    whole-wanted h =
        let (k, (below, answer)) = wanted-Answer b in
        elim answer [
          | inl (f, at, end, w) ↦ w
          | inr (o, w) ↦ absurd (
              not_past k below (elim o [
                | inl e ↦ get_elem?-none gs k (sym (h k) ∙ e)
                | inr e ↦ omega (
                  arith,
                  e,
                  ap (one_if_some {A = Fragment}) g.no_stray,
                  count_whole b.fragments gs h,
                )
              ]))
        ]

-- Fragments of one object are pushed into a new buffer, in any order, some of them more than once.
-- If all have come, `Wanted` answers 0. When it answers 0, all have come: every key has the
-- fragment of its place, and the unread bytes are the payloads in the order of the ids.
pub push_all-Holds :
    (types tid : List ℕ) (gs ps : List Fragment) (mtu : ℕ)
    → IsObject types tid gs
    → All (λ f. Among f gs) ps
    → (((f : Fragment) → Among f gs → Among f ps) → wanted (push_all ps (new_buffer mtu)) ≡ 0)
      × (wanted (push_all ps (new_buffer mtu)) ≡ 0
          → ((j : ℕ) → lookup_entry (push_all ps (new_buffer mtu)).fragments j ≡ get_elem? gs j)
            × Holds (push_all ps (new_buffer mtu)) (flat gs))
push_all-Holds types tid gs ps mtu object members =
    let (g, there) =
      push_all-Gathered types tid gs object ps (new_buffer mtu) members
        (new-Gathered types tid gs mtu) in
    let b = push_all ps (new_buffer mtu) in
    (
      λ all. whole-wanted types tid gs object b g (
          filled-IsWhole types tid gs object b g
            λ j f e. there j f e (inr (all f (place-Among gs j f e)))),
      λ none_wanted.
          let whole = wanted-IsWhole types tid gs object b g none_wanted in
          (whole, whole-Holds types tid gs object b g whole),
    )
