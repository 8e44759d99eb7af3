-- ===== src/Buffer/Write/Rounds.antt =====
-- One round of `append` on a buffer that is being written, and the whole loop.
use tssdgo.Prelude.{
  false, ℕ, zero, suc, ◌+◌, ◌-◌, ◌%◌, ◌≤◌, ◌<◌, ◌≡◌, refl, ap, ◌∙◌, ◌⊎◌, inl, inr, Option, none,
  some, List, [], ◌∷◌, ◌++◌, length, take, drop, length-append, length-take, length-drop,
  length-replicate, take_all, append-nil, append_assoc, take-append-drop, arith, le→leb, lt→leb,
  le→ltb, ne→==, eq→==, ltb, leb, ◌==◌, if◌then◌else◌, Bool-cases, leb→le,
}
use tssdgo.Wire.{Schema, Result, ok, le2}
use tssdgo.Fragment.{Fragment, capacity, poke, append_payload}
use tssdgo.Fragment.Laws.{poke-heads, length-poke_heads, length-poke_payload, capacity-poke}
use tssdgo.Buffer.{Buffer, count_entries, payloads}
use tssdgo.Buffer.Write.{
  schema_of, fresh_fragment, with_default_mtu, add_fragment, open_fragment, ensure_fragment,
  update_fragment_id, fill_fragment, append_round, append_loop, append,
}
use tssdgo.Buffer.Write.State.{
  stamped, Frame, IsStamped, types_of, total, entries, state, ready, writer, IsFull, IsOpen,
  AllFull, AllFull-append, count-entries, count-entries_full, lookup-entries, put-entries,
  put-entries_new, entries-append, payloads-append, first_entry,
}

abbrev new_fragment : Frame → ℕ → Fragment
new_fragment fr i = unfold fresh_fragment in fresh_fragment (state fr i 0 [])

-- A fragment with the id `n` written into its heads, as `update_fragment_id` does.
unfoldable pub with_id : Frame → ℕ → Fragment → Fragment
with_id fr n f =
    if length fr.heads == 0
    then f
    else if ltb f.data_len 17
    then f
    else poke 16 (take (f.data_len - 16) (le2 n)) f

-- What `open_fragment` adds behind `i` full fragments.
pub opened : Frame → ℕ → Fragment
opened fr i = with_id fr ((i + 1) % 0x10000) (new_fragment fr i)

id_fits : (d n : ℕ) (c : ℕ) → 17 ≤ d → d ≤ c → 16 + length (take (d - 16) (le2 n)) ≤ c
id_fits d n c h k = omega (arith, length-take (d - 16) (le2 n))

new_fragment-capacity : (fr : Frame) (i : ℕ) → capacity (new_fragment fr i) ≡ total fr
unfolding fresh_fragment
new_fragment-capacity fr i = omega (arith, length-replicate {A = ℕ} (total fr - length fr.heads) 0)

pub with_id_lengths :
    (fr : Frame) (n : ℕ) (f : Fragment)
    → f.data_len ≤ capacity f
    → (capacity (with_id fr n f) ≡ capacity f)
      × (length (with_id fr n f).heads ≡ length f.heads)
      × (length (with_id fr n f).payload ≡ length f.payload)
unfolding with_id
with_id_lengths fr n f h = elim (Bool-cases (length fr.heads == 0)) [
  | inl e ↦ rw e (refl, refl, refl)
  | inr e ↦ rw e (elim (Bool-cases (ltb f.data_len 17)) [
    | inl d ↦ rw d (refl, refl, refl)
    | inr d ↦ rw d (
        let fits = id_fits f.data_len n (capacity f) (ground arith) h in
        let bs = take (f.data_len - 16) (le2 n) in
        (
          capacity-poke 16 bs f fits,
          length-poke_heads 16 bs f fits,
          length-poke_payload 16 bs f fits,
        ))
  ])
]

pub with_id-stamp :
    (fr : Frame) (n : ℕ) (f : Fragment)
    → ((with_id fr n f).data_len ≡ f.data_len) × ((with_id fr n f).schema ≡ f.schema)
unfolding with_id poke
with_id-stamp fr n f = elim (Bool-cases (length fr.heads == 0)) [
  | inl e ↦ rw e (refl, refl)
  | inr e ↦ elim (Bool-cases (ltb f.data_len 17)) [
    | inl d ↦ rw (e, d) (refl, refl)
    | inr d ↦ rw (e, d) (refl, refl)
  ]
]

pub with_id-heads :
    (fr : Frame) (n : ℕ) (f : Fragment)
    → 18 ≤ length fr.heads
    → length f.heads ≡ length fr.heads
    → 18 ≤ f.data_len
    → (with_id fr n f).heads ≡ stamped n f.heads
unfolding with_id
with_id-heads fr n f long same ends =
    let some_heads : (length fr.heads == 0) ≡ false =
      ne→== (length fr.heads) 0 (omega (arith, long)) in
    let enough : ltb f.data_len 17 ≡ false = le→ltb f.data_len 17 (omega (arith, ends)) in
    let both : take (f.data_len - 16) (le2 n) ≡ le2 n =
      take_all (f.data_len - 16) (le2 n) (omega (arith, ends)) in
    rw (some_heads, enough, both) (poke-heads 16 (le2 n) f (omega (arith, long, same)))

schema_of-types : (o : Option Schema) (i : ℕ) → (schema_of o i).types ≡ types_of o
schema_of-types none i = refl
schema_of-types (some s) i = refl

opened-IsStamped : (fr : Frame) (i : ℕ) → IsStamped fr i (opened fr i)
unfolding opened fresh_fragment
opened-IsStamped fr i h =
    let (ends, schema) = with_id-stamp fr ((i + 1) % 0x10000) (new_fragment fr i) in
    (
      ends ∙ omega arith,
      ap (λ s. s.types) schema ∙ schema_of-types fr.schema i,
      λ long.
          with_id-heads fr ((i + 1) % 0x10000) (new_fragment fr i) long refl (omega (arith, long)),
    )

pub opened_lem :
    (fr : Frame) (i : ℕ) → IsOpen fr i (opened fr i) × (length (opened fr i).payload ≡ 0)
unfolding opened fresh_fragment
opened_lem fr i =
    let f = new_fragment fr i in
    let l = with_id_lengths fr ((i + 1) % 0x10000) f (omega (arith, new_fragment-capacity fr i)) in
    ((l.0 ∙ new_fragment-capacity fr i, l.1, omega (arith, l.2), opened-IsStamped fr i), l.2)

pub update_id :
    (fr : Frame) (w m : ℕ) (done : List Fragment) (f : Fragment) (n : ℕ)
    → update_fragment_id (length done) n (state fr w m (entries done ++ some f ∷ []))
      ≡ ok (record (state fr w m (entries done ++ some f ∷ [])) {
        fragments = entries done ++ some (with_id fr n f) ∷ [];
      })
unfolding update_fragment_id with_id
update_id fr w m done f n = elim (Bool-cases (length fr.heads == 0)) [
  | inl e ↦ rw e refl
  | inr e ↦
      rw (e, lookup-entries done f [])
        (elim (Bool-cases (ltb f.data_len 17)) [
          | inl d ↦ rw d refl
          | inr d ↦ rw (d, put-entries done f _ []) refl
        ])
]

pub ensure-writer :
    (fr : Frame) (done : List Fragment) (last : Fragment)
    → ensure_fragment (writer fr done last) ≡ ok (writer fr done last)
unfolding ensure_fragment
ensure-writer fr done last = rw (
    ne→== (length done) (0 + count_entries (entries done ++ some last ∷ []))
      (omega (arith, count-entries done (some last ∷ []))))

default_mtu :
    (fr : Frame) (w n : ℕ) (os : List (Option Fragment))
    → 0 < fr.width
    → with_default_mtu (state fr w n os) ≡ state fr w n os
unfolding with_default_mtu
default_mtu fr w n os h = rw (ne→== (total fr) 0 (omega arith)) refl

pub add-ready :
    (fr : Frame) (done : List Fragment)
    → add_fragment (ready fr done) ≡ ok (writer fr done (opened fr (length done)))
unfolding add_fragment fresh_fragment opened
add-ready fr done =
    let size = length (payloads (entries done)) in
    let f = new_fragment fr (length done) in
    let id = (length done + 1) % 0x10000 in
    let e : size + length (with_id fr id f).payload ≡ size =
      omega (arith, opened_lem fr (length done)) in
    rw
      (
        le→ltb (total fr) (length fr.heads) (omega arith),
        le→ltb (total fr) fr.len_checksum (omega arith),
        put-entries_new,
        e,
      )
      (update_id fr (length done) size done f id)

pub ensure-ready :
    (fr : Frame) (done : List Fragment)
    → 0 < fr.width
    → ensure_fragment (ready fr done) ≡ ok (writer fr done (opened fr (length done)))
unfolding ensure_fragment open_fragment
ensure-ready fr done h =
    rw
      (
        eq→== (length done) (0 + count_entries (entries done))
            (omega (arith, count-entries_full done)),
        default_mtu fr (length done) (length (payloads (entries done))) (entries done) h,
      )
      (add-ready fr done)

module _ (fr : Frame) (done : List Fragment) (last : Fragment) (bs : List ℕ) where
  -- The last fragment with more bytes behind its payload.
  abbrev pub filled : Fragment
  filled = record last { payload = last.payload ++ bs; spare = drop (length bs) last.spare }

  fill-writer :
      length bs ≤ length last.spare
      → fill_fragment bs (writer fr done last) ≡ ok (writer fr done filled)
  unfolding fill_fragment append_payload
  fill-writer h =
      rw
        (
          lookup-entries done last [],
          le→leb (length bs) (length last.spare) h,
          put-entries done last _ [],
        )
        (ap (λ n. ok (state fr (length done) n (entries done ++ some filled ∷ [])))
          (omega (arith, length-append last.payload bs)))

advance :
    (fr : Frame) (done : List Fragment) (f : Fragment)
    → state fr
        (length done + 1)
        (length (payloads (entries done)) + length f.payload)
        (entries done ++ some f ∷ [])
      ≡ ready fr (done ++ f ∷ [])
advance fr done f = rw (
  entries-append done f,
  length-append done (f ∷ []),
  payloads-append (entries done) (some f ∷ []),
  append-nil f.payload,
  length-append (payloads (entries done)) f.payload,
)

-- A round on a buffer that `ensure_fragment` makes into a writer.
module _ (fr : Frame) (done : List Fragment) (last : Fragment) (full : AllFull fr 0 done)
    (fits : IsOpen fr (length done) last) (bs : List ℕ) (b : Buffer)
    (start : ensure_fragment b ≡ ok (writer fr done last)) where
  room : length last.payload + length last.spare + length fr.heads ≡ total fr
  room = omega (arith, fits)

  gap :
      total fr - (length fr.heads + fr.len_checksum + length last.payload)
      ≡ fr.width - length last.payload
  gap = omega arith

  pub round_fits :
      length last.payload + length bs ≤ fr.width
      → append_round bs b ≡ ok (none, writer fr done (filled fr done last bs))
  unfolding append_round
  round_fits h =
      let (base, e, cap) = first_entry fr (length done) done last full fits in
      rw (
        start,
        lookup-entries done last [],
        e,
        cap,
        le→leb (length fr.heads + fr.len_checksum + length last.payload + length bs) (total fr)
            (omega arith),
        fill-writer fr done last bs (omega (arith, room)),
      )

  pub round_full :
      fr.width < length last.payload + length bs
      → append_round bs b
        ≡ ok (
          some (drop (fr.width - length last.payload) bs),
          ready fr (done ++ filled fr done last (take (fr.width - length last.payload) bs) ∷ []),
        )
  unfolding append_round
  round_full h =
      let (base, e, cap) = first_entry fr (length done) done last full fits in
      rw
        (
          start,
          lookup-entries done last [],
          e,
          cap,
          lt→leb (length fr.heads + fr.len_checksum + length last.payload + length bs) (total fr)
              (omega arith),
          le→ltb (total fr) (length fr.heads + fr.len_checksum + length last.payload) (omega arith),
          gap,
          fill-writer fr done last (take (fr.width - length last.payload) bs)
              (omega (arith, room, length-take (fr.width - length last.payload) bs)),
        )
        (ap (λ t. ok (some (drop (fr.width - length last.payload) bs), t)) (advance fr done _))

-- Appending ended in a state of the same frame, with `bs` behind what was there.
abbrev pub Appended : Frame → List ℕ → Result Buffer → Type 0
Appended fr c r =
    (done : List Fragment) × (last : Fragment) × (r ≡ ok (writer fr done last))
    × AllFull fr 0 done
    × IsOpen fr (length done) last
    × (payloads (entries done ++ some last ∷ []) ≡ c)

payloads-filled :
    (fr : Frame) (done : List Fragment) (last : Fragment) (bs : List ℕ)
    → payloads (entries done ++ some (filled fr done last bs) ∷ [])
      ≡ payloads (entries done ++ some last ∷ []) ++ bs
payloads-filled fr done last bs = simp (payloads-append, append-nil, append_assoc)

filled-IsOpen :
    (fr : Frame) (done : List Fragment) (last : Fragment) (bs : List ℕ)
    → IsOpen fr (length done) last
    → length last.payload + length bs ≤ fr.width
    → IsOpen fr (length done) (filled fr done last bs)
filled-IsOpen fr done last bs k h = (
  omega (arith, length-append last.payload bs, length-drop (length bs) last.spare),
  k.1,
  omega (arith, length-append last.payload bs),
  k.3,
)

cons_of_pos : (xs : List ℕ) → 0 < length xs → (y : ℕ) × (ys : List ℕ) × (xs ≡ y ∷ ys)
cons_of_pos [] h = absurd (omega arith)
cons_of_pos (y ∷ ys) h = (y, ys, refl)

pub nil_of_zero : (xs : List ℕ) → length xs ≡ 0 → xs ≡ []
nil_of_zero [] h = refl
nil_of_zero (y ∷ ys) h = absurd (omega arith)

-- A fragment filled to the brim.
module _ (fr : Frame) (done : List Fragment) (last : Fragment) (bs : List ℕ)
    (fits : IsOpen fr (length done) last) (more : fr.width < length last.payload + length bs) where
  abbrev gap_bytes : ℕ
  gap_bytes = fr.width - length last.payload

  abbrev brim : Fragment
  brim = filled fr done last (take gap_bytes bs)

  brim-IsFull : IsFull fr (length done) brim
  brim-IsFull = (
    omega (
      arith,
      length-append last.payload (take gap_bytes bs),
      length-drop (length (take gap_bytes bs)) last.spare,
      length-take gap_bytes bs,
    ),
    fits.1,
    omega (arith, length-append last.payload (take gap_bytes bs), length-take gap_bytes bs),
    fits.3,
  )

  brim-payloads :
      (next : Fragment)
      → length next.payload ≡ 0
      → payloads (entries (done ++ brim ∷ []) ++ some next ∷ []) ++ drop gap_bytes bs
        ≡ payloads (entries done ++ some last ∷ []) ++ bs
  brim-payloads next e =
      rw (entries-append done brim, append_assoc (entries done) (some brim ∷ []) (some next ∷ []))
        (simp
          (payloads-append, append-nil, nil_of_zero next.payload e, append_assoc, take-append-drop))

-- The loop, from any buffer that `ensure_fragment` makes into a writer; a first round that takes
-- nothing is paid by one more unit of fuel.
loop-Appended :
    (fr : Frame) (positive : 0 < fr.width) (fuel : ℕ) (x : ℕ) (xs : List ℕ) (done : List Fragment)
    (last : Fragment) (b : Buffer)
    → AllFull fr 0 done
    → IsOpen fr (length done) last
    → ensure_fragment b ≡ ok (writer fr done last)
    → (length (x ∷ xs) < fuel) ⊎ ((length (x ∷ xs) ≤ fuel) × (length last.payload ≡ 0))
    → Appended fr
        (payloads (entries done ++ some last ∷ []) ++ x ∷ xs)
        (append_loop fuel (x ∷ xs) b)
unfolding append_loop
loop-Appended fr positive zero x xs done last b full fits start h = absurd (omega arith)
loop-Appended fr positive (suc fuel) x xs done last b full fits start h =
    elim (Bool-cases (leb (length last.payload + length (x ∷ xs)) fr.width)) [
      | inl e ↦
          let le = leb→le (length last.payload + length (x ∷ xs)) fr.width e in
          rw (round_fits fr done last full fits (x ∷ xs) b start le) (
            done,
            filled fr done last (x ∷ xs),
            refl,
            full,
            filled-IsOpen fr done last (x ∷ xs) fits le,
            payloads-filled fr done last (x ∷ xs),
          )
      | inr e ↦
          let more : fr.width < length last.payload + length (x ∷ xs) = ground arith in
          let k = fr.width - length last.payload in
          let f = filled fr done last (take k (x ∷ xs)) in
          let (y, ys, rest) =
            cons_of_pos (drop k (x ∷ xs)) (omega (arith, length-drop k (x ∷ xs))) in
          let next = opened fr (length (done ++ f ∷ [])) in
          let empty = opened_lem fr (length (done ++ f ∷ [])) in
          let joined = brim-payloads fr done last (x ∷ xs) fits more next empty.1 in
          rw (round_full fr done last full fits (x ∷ xs) b start more, ← joined, rest)
            (loop-Appended fr positive fuel y ys (done ++ f ∷ []) next (ready fr (done ++ f ∷ []))
              (AllFull-append fr 0 (length done) done f (omega arith) full
                (brim-IsFull fr done last (x ∷ xs) fits more))
              empty.0 (ensure-ready fr (done ++ f ∷ []) positive)
              (inr (omega (arith, ap length rest, length-drop k (x ∷ xs)), empty.1)))
    ]

-- `append` puts `bs` behind what a writer holds, and leaves a writer.
pub append-Appended :
    (fr : Frame) (done : List Fragment) (last : Fragment) (bs : List ℕ)
    → 0 < fr.width
    → AllFull fr 0 done
    → IsOpen fr (length done) last
    → Appended fr
        (payloads (entries done ++ some last ∷ []) ++ bs)
        (append bs (writer fr done last))
unfolding append
append-Appended fr done last [] positive full fits =
    (done, last, unfold append_loop in refl, full, fits, rw append-nil)
append-Appended fr done last (x ∷ xs) positive full fits =
    loop-Appended fr positive (length (x ∷ xs) + 2) x xs done last (writer fr done last) full fits
      (ensure-writer fr done last) (inl (omega arith))

-- The same from a buffer with no fragment yet: the first byte opens one.
pub append-first :
    (fr : Frame) (x : ℕ) (xs : List ℕ)
    → 0 < fr.width
    → Appended fr (x ∷ xs) (append (x ∷ xs) (ready fr []))
unfolding append
append-first fr x xs positive =
    let next = opened fr 0 in
    let empty = opened_lem fr 0 in
    let (done, last, e, full, fits, c) =
      loop-Appended fr positive (length (x ∷ xs) + 2) x xs [] next (ready fr []) tt empty.0
        (ensure-ready fr [] positive) (inr (omega arith, empty.1)) in
    (done, last, e, full, fits, c ∙ rw (nil_of_zero next.payload empty.1))
