-- ===== src/Buffer/Write/Last.antt =====
-- The last fragment of a buffer, as `finish` leaves it in front of the checksums.
use tssdgo.Prelude.{
  ℕ, ◌+◌, ◌-◌, ◌≤◌, ◌≡◌, refl, ap, ◌∙◌, inl, inr, some, List, [], ◌∷◌, ◌++◌, length, take,
  length-take, arith, ltb, leb, ◌==◌, Bool-cases, le→ltb, le→leb, true, false,
}
use tssdgo.Wire.{ok, le2, le4, neg16}
use tssdgo.Fragment.{write_at, Fragment, capacity, poke, append_data}
use tssdgo.Fragment.Laws.{length-poke_heads, capacity-poke, poke_heads-payload, poke-heads}
use tssdgo.Buffer.{Buffer}
use tssdgo.Buffer.Write.{finish_sizes}
use tssdgo.Buffer.Write.State.{
  stamped, Frame, total, entries, writer, IsOpen, lookup-entries, put-entries,
}
use tssdgo.Buffer.Write.Rounds.{with_id, with_id_lengths, with_id-stamp, with_id-heads}
use tssdgo.Buffer.Write.Checksums.{with_fragments}

with_id-payload :
    (fr : Frame) (n : ℕ) (f : Fragment) → 18 ≤ length f.heads → (with_id fr n f).payload ≡ f.payload
unfolding with_id
with_id-payload fr n f h = elim (Bool-cases (length fr.heads == 0)) [
  | inl e ↦ rw e refl
  | inr e ↦ elim (Bool-cases (ltb f.data_len 17)) [
    | inl d ↦ rw (e, d) refl
    | inr d ↦
        let bs = take (f.data_len - 16) (le2 n) in
        rw (e, d)
          (poke_heads-payload 16 bs f (omega (arith, h, length-take (f.data_len - 16) (le2 n))))
  ]
]

-- The last fragment, as `finish` leaves it in front of the checksums.
module _ (fr : Frame) (done : List Fragment) (last : Fragment)
    (opening : IsOpen fr (length done) last) (long : 22 ≤ length fr.heads) where
  abbrev pub cut_last : Fragment
  cut_last = record last { data_len = length fr.heads + length last.payload }

  abbrev pub named_last : Fragment
  named_last = with_id fr (neg16 (length done + 1)) cut_last

  abbrev pub sized_last : Fragment
  sized_last = poke (length fr.heads - 6) (le4 (length last.payload + 2)) named_last

  abbrev pub sealed_last : Fragment
  sealed_last = poke (length fr.heads - 2) (le2 (length last.payload)) sized_last

  named_lengths :
      (capacity named_last ≡ capacity last)
      × (length named_last.heads ≡ length last.heads)
      × (length named_last.payload ≡ length last.payload)
  named_lengths = with_id_lengths fr (neg16 (length done + 1)) cut_last (omega (arith, opening))

  size_fits : length fr.heads - 6 + length (le4 (length last.payload + 2)) ≤ capacity named_last
  size_fits = omega (arith, named_lengths, opening, long)

  count_fits : length fr.heads - 2 + length (le2 (length last.payload)) ≤ capacity sized_last
  count_fits = omega (
    arith,
    named_lengths,
    opening,
    long,
    capacity-poke (length fr.heads - 6) (le4 (length last.payload + 2)) named_last size_fits,
  )

  sized_heads : length sized_last.heads ≡ length fr.heads
  sized_heads =
      length-poke_heads (length fr.heads - 6) (le4 (length last.payload + 2)) named_last size_fits
      ∙ (named_lengths.1 ∙ opening.1)

  pub sealed_heads : length sealed_last.heads ≡ length fr.heads
  sealed_heads =
      length-poke_heads (length fr.heads - 2) (le2 (length last.payload)) sized_last count_fits
      ∙ sized_heads

  pub sealed_capacity : capacity sealed_last ≡ total fr
  sealed_capacity =
      capacity-poke (length fr.heads - 2) (le2 (length last.payload)) sized_last count_fits
      ∙ (capacity-poke (length fr.heads - 6) (le4 (length last.payload + 2)) named_last size_fits
          ∙ (named_lengths.0 ∙ opening.0))

  pub sealed_payload : sealed_last.payload ≡ last.payload
  sealed_payload =
      poke_heads-payload (length fr.heads - 2) (le2 (length last.payload)) sized_last
        (omega (arith, sized_heads, long))
      ∙ (poke_heads-payload (length fr.heads - 6) (le4 (length last.payload + 2)) named_last
            (omega (arith, named_lengths, opening, long))
          ∙ with_id-payload fr (neg16 (length done + 1)) cut_last (omega (arith, opening, long)))

  -- The heads of the last fragment: its id, and the sizes of its payload.
  pub sealed_heads_bytes :
      sealed_last.heads
      ≡ write_at (length fr.heads - 2) (le2 (length last.payload)) (
          write_at
            (length fr.heads - 6)
            (le4 (length last.payload + 2))
            (stamped (neg16 (length done + 1)) last.heads))
  sealed_heads_bytes =
      let named =
        with_id-heads fr (neg16 (length done + 1)) cut_last (omega (arith, long)) opening.1
          (omega (arith, long)) in
      poke-heads (length fr.heads - 2) (le2 (length last.payload)) sized_last
        (omega (arith, sized_heads, long))
      ∙ ap (write_at (length fr.heads - 2) (le2 (length last.payload))) (
          poke-heads (length fr.heads - 6) (le4 (length last.payload + 2)) named_last
            (omega (arith, named_lengths, opening, long))
          ∙ ap (write_at (length fr.heads - 6) (le4 (length last.payload + 2))) named)

  pub sealed_data : sealed_last.data_len ≡ length fr.heads + length last.payload
  unfolding poke
  sealed_data = (with_id-stamp fr (neg16 (length done + 1)) cut_last).0

  pub sealed_schema : sealed_last.schema ≡ last.schema
  unfolding poke
  sealed_schema = (with_id-stamp fr (neg16 (length done + 1)) cut_last).1

  abbrev pub in_writer : Fragment → Buffer
  in_writer f = with_fragments (entries done ++ some f ∷ []) (writer fr done last)

  pub sizes_lem :
      finish_sizes (length done) (length fr.heads) (length last.payload) (in_writer named_last)
      ≡ ok (in_writer sealed_last)
  unfolding finish_sizes append_data
  sizes_lem =
      let six : ltb (length fr.heads) 6 ≡ false = le→ltb _ _ (omega (arith, long)) in
      let in1 : ltb (capacity named_last) (length fr.heads - 6) ≡ false =
        le→ltb _ _ (omega (arith, size_fits)) in
      let fit1 : leb (length fr.heads - 6 + length (le4 (length last.payload + 2)))
            (capacity named_last)
          ≡ true =
        le→leb _ _ size_fits in
      let in2 : ltb (capacity sized_last) (length fr.heads - 2) ≡ false =
        le→ltb _ _ (omega (arith, count_fits)) in
      let fit2 : leb (length fr.heads - 2 + length (le2 (length last.payload)))
            (capacity sized_last)
          ≡ true =
        le→leb _ _ count_fits in
      rw
        (
          six,
          lookup-entries done named_last [],
          in1,
          fit1,
          in2,
          fit2,
          put-entries done named_last sealed_last [],
        )
        refl
