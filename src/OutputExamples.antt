-- ===== src/OutputExamples.antt =====
-- Two fragments are written to a writer that takes five bytes in all.
use tssdgo.Prelude.{
  ℕ, zero, suc, sym, ap, ◌-◌, ◌≡◌, refl, Option, none, some, List, [], ◌∷◌, ◌++◌, length, take,
  take_all, leb, leb→le, Bool-cases, inl, inr, if◌then◌else◌, arith, length-take,
}
use tssdgo.Wire.{Error, other, no_header, no_schema}
use tssdgo.Fragment.{Fragment}
use tssdgo.Buffer.{Buffer, new_buffer}
use tssdgo.Buffer.Write.State.{entries}
use tssdgo.Buffer.Output.{write_fragments, IsWriter, Delivers, write_fragments-Delivers}

-- What it was given.
abbrev taking : List ℕ → List ℕ → ℕ × Option Error × List ℕ
taking bs w =
    let room = 5 - length w in
    (length (take room bs), if leb (length bs) room then none else some other, w ++ take room bs)

take-take : (n : ℕ) (bs : List ℕ) → take (length (take n bs)) bs ≡ take n bs
take-take zero bs = refl
take-take (suc n) [] = refl
take-take (suc n) (b ∷ bs) = ap (λ t. b ∷ t) (take-take n bs)

taking-IsWriter : IsWriter (List ℕ) taking (λ w. w)
taking-IsWriter = record {
  at_most = λ bs w. omega (arith, length-take (5 - length w) bs);
  all = λ bs w e. elim (Bool-cases (leb (length bs) (5 - length w))) [
    | inl h ↦ ap length (take_all (5 - length w) bs (leb→le (length bs) (5 - length w) h))
    | inr h ↦ absurd (let no = rw h at e in cc)
  ];
  kept = λ bs w. ap (λ t. w ++ t) (sym (take-take (5 - length w) bs));
}

abbrev short_fragment : List ℕ → Fragment
short_fragment payload = record {
  header = no_header;
  schema = no_schema;
  heads = [];
  payload = payload;
  spare = [];
  data_len = 3;
  checksum = [];
}

abbrev two_fragments : List Fragment
two_fragments = short_fragment (1 ∷ 2 ∷ 3 ∷ []) ∷ short_fragment (4 ∷ 5 ∷ 6 ∷ []) ∷ []

abbrev sending : Buffer
sending = record (new_buffer 3) { fragments = entries two_fragments }

write_fragments-Delivers_example :
    Delivers (List ℕ) taking (λ w. w) two_fragments [] (write_fragments (List ℕ) taking sending [])
write_fragments-Delivers_example =
    write_fragments-Delivers (List ℕ) taking (λ w. w) taking-IsWriter sending two_fragments [] refl
      refl
