-- ===== src/Buffer/Assemble/Push.antt =====
-- What `Push` does to the map of fragments and to `Size`.
use tssdgo.Prelude.{
  ℕ, zero, suc, ◌+◌, ◌≤◌, ◌≡◌, ◌≢◌, refl, sym, ap, false, ◌∙◌, Option, none, some, List, [], ◌∷◌,
  length, length-append, arith, ◌==◌, if◌then◌else◌, ne→==, Bool-cases, Option-cases, inl, inr,
  true,
}
use tssdgo.Wire.{Schema}
use tssdgo.Fragment.{Fragment, raw_data}
use tssdgo.Buffer.{Buffer, lookup_entry, put_entry, payloads}
use tssdgo.Buffer.Assemble.{
  payload_length, abs_fid, place_fragment, adopt, same_text, schema_or, push, wanted,
}

-- The map law: one entry is replaced, the others stay.
pub lookup-put :
    (os : List (Option Fragment)) (i j : ℕ) (f : Fragment)
    → lookup_entry (put_entry os i f) j ≡ (if i == j then some f else lookup_entry os j)
lookup-put [] zero zero f = refl
lookup-put [] zero (suc j) f = ground arith
lookup-put [] (suc i) zero f = ground arith
lookup-put [] (suc i) (suc j) f = lookup-put [] i j f ∙ ground arith
lookup-put (o ∷ os) zero zero f = refl
lookup-put (o ∷ os) zero (suc j) f = ground arith
lookup-put (o ∷ os) (suc i) zero f = ground arith
lookup-put (o ∷ os) (suc i) (suc j) f = lookup-put os i j f ∙ ground arith

length-payloads_put :
    (os : List (Option Fragment)) (i : ℕ) (f : Fragment)
    → length (payloads (put_entry os i f)) + payload_length (lookup_entry os i)
      ≡ length (payloads os) + length f.payload
length-payloads_put [] zero f = omega (arith, length-append f.payload [])
length-payloads_put [] (suc i) f = length-payloads_put [] i f
length-payloads_put (none ∷ os) zero f = omega (arith, length-append f.payload (payloads os))
length-payloads_put (some g ∷ os) zero f =
    omega (arith, length-append f.payload (payloads os), length-append g.payload (payloads os))
length-payloads_put (none ∷ os) (suc i) f = length-payloads_put os i f
length-payloads_put (some g ∷ os) (suc i) f = omega (
  arith,
  length-append g.payload (payloads (put_entry os i f)),
  length-append g.payload (payloads os),
  length-payloads_put os i f,
)

-- `Size` is the number of payload bytes in the map: nothing has been read yet.
abbrev pub IsCounted : Buffer → Type 0
IsCounted b = b.size ≡ length (payloads b.fragments) + payload_length b.stray

payload_length-le :
    (os : List (Option Fragment)) (i : ℕ)
    → payload_length (lookup_entry os i) ≤ length (payloads os)
payload_length-le [] i = omega arith
payload_length-le (none ∷ os) zero = omega arith
payload_length-le (some g ∷ os) zero = omega (arith, length-append g.payload (payloads os))
payload_length-le (none ∷ os) (suc i) = payload_length-le os i
payload_length-le (some g ∷ os) (suc i) =
    omega (arith, length-append g.payload (payloads os), payload_length-le os i)

pub place-IsCounted :
    (k : ℕ) (f : Fragment) (b : Buffer) → IsCounted b → IsCounted (place_fragment k f b)
place-IsCounted zero f b h = omega (arith, h)
place-IsCounted (suc i) f b h =
    omega (arith, h, length-payloads_put b.fragments i f, payload_length-le b.fragments i)

adopt-IsCounted :
    (f : Fragment) (b : Buffer)
    → IsCounted b
    → (b.schema ≡ none → b.size ≡ 0)
    → IsCounted (adopt f b)
unfolding adopt
adopt-IsCounted f b h fresh = elim (Option-cases b.schema) [
  | inl e ↦ rw (e, adopt) (omega (arith, fresh e))
  | inr (s, e) ↦ rw (e, adopt) h
]

-- If `Size` is the number of payload bytes held, and is 0 while the buffer has no schema (the first
-- fragment then replaces its map), every `Push`, accepted or refused, of a new fragment or of one that
-- is there already, keeps `Size` equal to the number of payload bytes held.
pub push-IsCounted :
    (o : Option Fragment) (b : Buffer)
    → IsCounted b
    → (b.schema ≡ none → b.size ≡ 0)
    → IsCounted (push o b).2
unfolding push
push-IsCounted none b h fresh = h
push-IsCounted (some f) b h fresh =
    let counted = adopt-IsCounted f b h fresh in
    let placed = place-IsCounted (abs_fid f.schema.fid) f (adopt f b) counted in
    elim (Bool-cases (length (raw_data f) == 0)) [
      | inl e ↦ rw e h
      | inr e ↦
          rw e
            (elim (Bool-cases
              (same_text (schema_or f.schema (adopt f b).schema).types f.schema.types)) [
                | inl s ↦
                    rw s
                      (elim (Bool-cases
                        (same_text (schema_or f.schema (adopt f b).schema).tid f.schema.tid)) [
                          | inl t ↦ rw t placed
                          | inr t ↦ rw t counted
                        ])
                | inr s ↦ rw s counted
              ])
    ]

-- A fragment that belongs to the object of the buffer, with data and an id other than 0, is
-- accepted: the map then has it under its id, and every other key as before; the answer is what
-- `Wanted` says of the new map.
pub push_accepted :
    (f : Fragment) (b : Buffer) (s : Schema) (i : ℕ)
    → b.schema ≡ some s
    → same_text s.types f.schema.types ≡ true
    → same_text s.tid f.schema.tid ≡ true
    → length (raw_data f) ≢ 0
    → abs_fid f.schema.fid ≡ suc i
    → ((push (some f) b).1 ≡ none)
      × ((push (some f) b).0 ≡ wanted (push (some f) b).2)
      × ((j : ℕ)
          → lookup_entry (push (some f) b).2.fragments j
            ≡ (if i == j then some f else lookup_entry b.fragments j))
unfolding push adopt
push_accepted f b s i e types tid filled id =
    let kept : adopt f b ≡ b = simp (e, adopt) in
    let held : schema_or f.schema b.schema ≡ s = rw e refl in
    rw (ne→== (length (raw_data f)) 0 filled, kept, held, types, tid, id)
      (refl, refl, λ j. lookup-put b.fragments i j f)

-- The fragment belongs to the object with schema `s`, has data, and has the id `i + 1`.
abbrev pub IsPart : Schema → ℕ → Fragment → Type 0
IsPart s i f =
    (same_text s.types f.schema.types ≡ true)
    × (same_text s.tid f.schema.tid ≡ true)
    × (length (raw_data f) ≢ 0)
    × (abs_fid f.schema.fid ≡ suc i)

push_placed :
    (f : Fragment) (b : Buffer) (s : Schema) (i : ℕ)
    → b.schema ≡ some s
    → IsPart s i f
    → (push (some f) b).2 ≡ place_fragment (suc i) f b
unfolding push adopt
push_placed f b s i e (types, tid, filled, id) =
    let kept : adopt f b ≡ b = simp (e, adopt) in
    let held : schema_or f.schema b.schema ≡ s = rw e refl in
    rw (ne→== (length (raw_data f)) 0 filled, kept, held, types, tid, id) refl

put-put :
    (os : List (Option Fragment)) (i j k : ℕ) (f g : Fragment)
    → i ≢ j
    → lookup_entry (put_entry (put_entry os i f) j g) k
      ≡ lookup_entry (put_entry (put_entry os j g) i f) k
put-put os i j k f g distinct =
    let one =
      lookup-put (put_entry os i f) j k g
      ∙ ap (λ o. if j == k then some g else o) (lookup-put os i k f) in
    let two =
      lookup-put (put_entry os j g) i k f
      ∙ ap (λ o. if i == k then some f else o) (lookup-put os j k g) in
    elim (Bool-cases (i == k)) [
      | inl e ↦
          let other : (j == k) ≡ false = ne→== j k (λ h. distinct (ground arith)) in
          rw (other, e) at one ∙ sym (rw e at two)
      | inr e ↦ rw e at one ∙ sym (rw e at two)
    ]

-- Two fragments of the buffer's object with different ids can come in either order: after both
-- pushes every key of the map has the same fragment.
pub push-push :
    (f g : Fragment) (b : Buffer) (s : Schema) (i j k : ℕ)
    → b.schema ≡ some s
    → IsPart s i f
    → IsPart s j g
    → i ≢ j
    → lookup_entry (push (some g) (push (some f) b).2).2.fragments k
      ≡ lookup_entry (push (some f) (push (some g) b).2).2.fragments k
push-push f g b s i j k e part_f part_g distinct =
    let first = push_placed f b s i e part_f in
    let second = push_placed g b s j e part_g in
    let one = push_placed g (place_fragment (suc i) f b) s j e part_g in
    let two = push_placed f (place_fragment (suc j) g b) s i e part_f in
    let left =
      ap (λ c. lookup_entry (push (some g) c).2.fragments k) first
      ∙ ap (λ c. lookup_entry c.fragments k) one in
    let right =
      ap (λ c. lookup_entry (push (some f) c).2.fragments k) second
      ∙ ap (λ c. lookup_entry c.fragments k) two in
    left ∙ (put-put b.fragments i j k f g distinct ∙ sym right)
