-- ===== src/Receiver/Route/Taken.antt =====
-- `Buffer` of the receiver hands over a complete object, and forgets it.
use tssdgo.Prelude.{
  ℕ, ◌≡◌, ◌≢◌, refl, ap, ◌∙◌, ◌&&◌, inl, inr, Option, none, some, List, [], ◌∷◌, ◌==◌,
  if◌then◌else◌, Bool-cases, arith,
}
use tssdgo.Fragment.{Fragment}
use tssdgo.Buffer.{Buffer}
use tssdgo.Buffer.Assemble.{wanted, same_text}
use tssdgo.Registry.{lookup_key}
use tssdgo.Buffer.Assemble.Text.{same_text_refl, same_text→≡}
use tssdgo.Receiver.{RBuffer, Objects}
use tssdgo.Receiver.Route.{
  delete_key, or_empty, complete_in, take_complete, take_buffer, push_fragment,
}
use tssdgo.Receiver.Route.Filed.{
  objects_at, object_at, Distinct, delete_key-other, delete_key-same, with_objects, objects_at-with,
  IsSorted, pushed_object, push_fragment-object_at, push_fragment-IsSorted,
}

-- What the search for a complete object may answer.
abbrev Answers : Objects → Option (List ℕ × Buffer) → Type 0
Answers m none = (t : List ℕ) (b : Buffer) → lookup_key t m ≡ some b → wanted b ≢ 0
Answers m (some (tid, b)) = (lookup_key tid m ≡ some b) × (wanted b ≡ 0)

Answers-later :
    (k : List ℕ) (a : Buffer) (m : Objects) (o : Option (List ℕ × Buffer))
    → wanted a ≢ 0
    → lookup_key k m ≡ none
    → Answers m o
    → Answers ((k, a) ∷ m) o
Answers-later k a m none incomplete absent h = λ t b e. elim (Bool-cases (same_text k t)) [
  | inl y ↦ λ z.
      incomplete
        (let same : some a ≡ some b = rw y at e in let whole : a ≡ b = cc in ap wanted whole ∙ z)
  | inr n ↦ h t b (rw n at e)
]
Answers-later k a m (some (tid, b)) incomplete absent (there, done) =
    elim (Bool-cases (same_text k tid)) [
      | inl y ↦ absurd (let same = same_text→≡ k tid y in cc)
      | inr n ↦ (rw n there, done)
    ]

complete_in-Answers : (m : Objects) → Distinct m → Answers m (complete_in m)
unfolding complete_in
complete_in-Answers [] h = λ t b e. absurd cc
complete_in-Answers ((k, a) ∷ m) h = elim (Bool-cases (wanted a == 0)) [
  | inl y ↦ rw (y, same_text_refl k) (refl, ground arith)
  | inr n ↦
      let incomplete : wanted a ≢ 0 = λ z. ground arith in
      rw n (Answers-later k a m (complete_in m) incomplete h.0 (complete_in-Answers m h.1))
]

-- The answer and the receiver after `Buffer(family, version)`.
abbrev pub Takes : List ℕ → List ℕ → RBuffer → Option Buffer × RBuffer → Type 0
Takes family version r (none, r') =
    (r' ≡ r) × ((t : List ℕ) (b : Buffer) → object_at family version t r ≡ some b → wanted b ≢ 0)
Takes family version r (some b, r') =
    (wanted b ≡ 0)
    × ((tid : List ℕ) × (object_at family version tid r ≡ some b)
        × ((u v t : List ℕ)
            → object_at u v t r' ≡ (
                if same_text family u && same_text version v && same_text tid t
                then none
                else object_at u v t r)))

taken_at :
    (family version tid u v t : List ℕ) (r : RBuffer)
    → object_at u v t (with_objects family version (delete_key tid (objects_at family version r)) r)
      ≡ (if same_text family u && same_text version v && same_text tid t
          then none
          else object_at u v t r)
taken_at family version tid u v t r =
    let objects = objects_at family version r in
    let here = ap (lookup_key t) (objects_at-with family version u v (delete_key tid objects) r) in
    elim (Bool-cases (same_text family u)) [
      | inl e ↦ elim (Bool-cases (same_text version v)) [
        | inl y ↦
            let a = same_text→≡ family u e in
            let b = same_text→≡ version v y in
            elim (Bool-cases (same_text tid t)) [
              | inl z ↦
                  let c = same_text→≡ tid t z in
                  here ∙ rw (e, y, z, ← c) (delete_key-same tid objects)
              | inr z ↦ here ∙ rw (e, y, z) (delete_key-other tid t objects z ∙ rw (a, b) refl)
            ]
        | inr y ↦ here ∙ rw (e, y) refl
      ]
      | inr e ↦ here ∙ rw e refl
    ]

take_lem :
    (family version : List ℕ) (r : RBuffer) (o : Option (List ℕ × Buffer))
    → Answers (objects_at family version r) o
    → Takes family version r (
        take_complete family version
          (or_empty (lookup_key family r.results))
          (objects_at family version r)
          o
          r)
take_lem family version r none h = (refl, h)
take_lem family version r (some (tid, b)) (there, done) =
    (done, (tid, there, λ u v t. taken_at family version tid u v t r))

-- `Buffer(family, version)` hands over an object of that family and version that wants no fragment,
-- forgets it under its id, and leaves every other object; it hands over nothing only if every
-- object there wants a fragment, and then nothing changes. No id must be there twice.
pub take_buffer-Takes :
    (family version : List ℕ) (r : RBuffer)
    → Distinct (objects_at family version r)
    → Takes family version r (take_buffer family version r)
unfolding take_buffer
take_buffer-Takes family version r h =
    take_lem family version r (complete_in (objects_at family version r))
      (complete_in-Answers (objects_at family version r) h)

is_some-Takes :
    (family version tid : List ℕ) (r : RBuffer) (b : Buffer) (answer : Option Buffer × RBuffer)
    → Takes family version r answer
    → object_at family version tid r ≡ some b
    → wanted b ≡ 0
    → (whole : Buffer) × (answer.0 ≡ some whole) × (wanted whole ≡ 0)
is_some-Takes family version tid r b (none, r') h there done = absurd (h.1 tid b there done)
is_some-Takes family version tid r b (some whole, r') h there done = (whole, refl, h.0)

module _ (index : List (List ℕ × (List ℕ × List ℕ))) where
  -- When `Push` of the receiver reports no error, `Buffer` for the family and version of the
  -- fragment hands over a complete object.
  pub take_buffer-push_fragment :
      (f : Fragment) (r : RBuffer) (family version : List ℕ)
      → IsSorted index r
      → lookup_key f.schema.types index ≡ some (family, version)
      → (push_fragment index f r).0 ≡ none
      → (whole : Buffer) × ((take_buffer family version (push_fragment index f r).1).0 ≡ some whole)
        × (wanted whole ≡ 0)
  take_buffer-push_fragment f r family version sorted e h =
      let (filed, answer, others) = push_fragment-object_at index f r family version e in
      let (complete, fine) = answer h in
      let r' = (push_fragment index f r).1 in
      let there : object_at family version f.schema.tid r'
          ≡ some (pushed_object family version f r).2 =
        filed family version f.schema.tid
        ∙ rw (same_text_refl family, same_text_refl version, same_text_refl f.schema.tid) refl in
      let distinct = (push_fragment-IsSorted index f r sorted).1 family version in
      is_some-Takes family version f.schema.tid r' (pushed_object family version f r).2
        (take_buffer family version r') (take_buffer-Takes family version r' distinct) there
        complete
