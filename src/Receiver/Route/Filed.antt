-- ===== src/Receiver/Route/Filed.antt =====
-- `Push` of the receiver files a fragment under its family, version and id.
use tssdgo.Prelude.{
  ℕ, zero, suc, arith, ◌≡◌, ◌⊎◌, refl, sym, ap, ◌∙◌, Bool, true, false, ◌&&◌, inl, inr, Option,
  none, some, List, [], ◌∷◌, length, ◌==◌, if◌then◌else◌, Bool-cases, Option-cases,
}
use mathlib.Core.Path.{subst}
use tssdgo.Wire.{Error, Schema, schema_unmatch, invalid_data, fragment_id_unmatch}
use tssdgo.Fragment.{Fragment, raw_data}
use tssdgo.Buffer.{Buffer}
use tssdgo.Buffer.Assemble.{push, wanted, adopt, same_text, place_fragment, abs_fid, schema_or}
use tssdgo.Registry.{lookup_key, put_key}
use tssdgo.Buffer.Assemble.Text.{same_text→≡}
use tssdgo.Receiver.{RBuffer, Objects, new_rbuffer}
use tssdgo.Receiver.Route.{
  delete_key, or_empty, or_new, push_object, push_error, push_located, push_fragment,
}

-- The object under a family, a version and an id.
abbrev pub objects_at : List ℕ → List ℕ → RBuffer → Objects
objects_at family version r = or_empty (lookup_key version (or_empty (lookup_key family r.results)))

abbrev pub object_at : List ℕ → List ℕ → List ℕ → RBuffer → Option Buffer
object_at family version tid r = lookup_key tid (objects_at family version r)

-- No id twice.
abbrev pub Distinct : Objects → Type 0
Distinct [] = Unit
Distinct ((k, b) ∷ m) = (lookup_key k m ≡ none) × Distinct m

pub delete_key-other :
    {A : Type 0} (k j : List ℕ) (m : List (List ℕ × A))
    → same_text k j ≡ false
    → lookup_key j (delete_key k m) ≡ lookup_key j m
unfolding delete_key
delete_key-other k j [] h = refl
delete_key-other k j ((i, a) ∷ m) h = elim (Bool-cases (same_text i k)) [
  | inl e ↦
      let same = same_text→≡ i k e in
      let no : same_text i j ≡ false = rw same h in rw (e, no) (delete_key-other k j m h)
  | inr e ↦ elim (Bool-cases (same_text i j)) [
    | inl y ↦ rw (e, y) refl
    | inr n ↦ rw (e, n) (delete_key-other k j m h)
  ]
]

pub delete_key-same :
    {A : Type 0} (k : List ℕ) (m : List (List ℕ × A)) → lookup_key k (delete_key k m) ≡ none
unfolding delete_key
delete_key-same k [] = refl
delete_key-same k ((i, a) ∷ m) = elim (Bool-cases (same_text i k)) [
  | inl e ↦ rw e (delete_key-same k m)
  | inr e ↦ rw (e, e) (delete_key-same k m)
]

delete_key-absent :
    (k j : List ℕ) (m : Objects) → lookup_key j m ≡ none → lookup_key j (delete_key k m) ≡ none
unfolding delete_key
delete_key-absent k j [] h = refl
delete_key-absent k j ((i, b) ∷ m) h = elim (Bool-cases (same_text i j)) [
  | inl e ↦ absurd (let found = rw e at h in cc)
  | inr e ↦ elim (Bool-cases (same_text i k)) [
    | inl y ↦ rw y (delete_key-absent k j m (rw e at h))
    | inr y ↦ rw (y, e) (delete_key-absent k j m (rw e at h))
  ]
]

pub delete_key-Distinct : (k : List ℕ) (m : Objects) → Distinct m → Distinct (delete_key k m)
unfolding delete_key
delete_key-Distinct k [] h = tt
delete_key-Distinct k ((i, b) ∷ m) h = elim (Bool-cases (same_text i k)) [
  | inl y ↦ rw y (delete_key-Distinct k m h.1)
  | inr y ↦ rw y (delete_key-absent k i m h.0, delete_key-Distinct k m h.1)
]

abbrev pub is_at : List ℕ → List ℕ → List ℕ → List ℕ → List ℕ → List ℕ → Bool
is_at family version tid f v t = same_text family f && (same_text version v && same_text tid t)

pub place-cases :
    (family version tid u v t : List ℕ)
    → ((same_text family u && same_text version v && same_text tid t ≡ true)
        × (family ≡ u)
        × (version ≡ v)
        × (tid ≡ t))
      ⊎ (same_text family u && same_text version v && same_text tid t ≡ false)
place-cases family version tid u v t = elim (Bool-cases (same_text family u)) [
  | inl a ↦ elim (Bool-cases (same_text version v)) [
    | inl b ↦ elim (Bool-cases (same_text tid t)) [
      | inl c ↦
          inl (
            rw (a, b, c) refl,
            same_text→≡ family u a,
            same_text→≡ version v b,
            same_text→≡ tid t c,
          )
      | inr c ↦ inr (rw (a, b, c) refl)
    ]
    | inr b ↦ inr (rw (a, b) refl)
  ]
  | inr a ↦ inr (rw a refl)
]

-- A receiver with other objects under one family and version.
abbrev pub with_objects : List ℕ → List ℕ → Objects → RBuffer → RBuffer
with_objects family version objects r = record r {
  results =
      put_key family (put_key version objects (or_empty (lookup_key family r.results))) r.results;
}

pub objects_at-with :
    (family version u v : List ℕ) (objects : Objects) (r : RBuffer)
    → objects_at u v (with_objects family version objects r)
      ≡ (if same_text family u && same_text version v then objects else objects_at u v r)
objects_at-with family version u v objects r = elim (Bool-cases (same_text family u)) [
  | inl e ↦ elim (Bool-cases (same_text version v)) [
    | inl y ↦ rw (e, y) refl
    | inr n ↦
        let same = same_text→≡ family u e in
        rw (e, n) (ap (λ k. or_empty (lookup_key v (or_empty (lookup_key k r.results)))) same)
  ]
  | inr e ↦ rw e refl
]

-- Other objects with distinct ids under one family and version.
pub with_objects-Distinct :
    (family version u v : List ℕ) (objects : Objects) (r : RBuffer)
    → Distinct objects
    → Distinct (objects_at u v r)
    → Distinct (objects_at u v (with_objects family version objects r))
with_objects-Distinct family version u v objects r h k =
    let there = objects_at-with family version u v objects r in
    subst Distinct (sym there) (elim (Bool-cases (same_text family u && same_text version v)) [
      | inl e ↦ rw e h
      | inr e ↦ rw e k
    ])

-- `Push` leaves one of three buffers.
push-cases :
    (P : ℕ × Option Error × Buffer → Type 0) (f : Fragment) (b : Buffer)
    → P (wanted b, some invalid_data, b)
    → ((e : Error) → P (wanted (adopt f b), some e, adopt f b))
    → (let placed = place_fragment (abs_fid f.schema.fid) f (adopt f b) in
        P (wanted placed, none, placed))
    → P (push (some f) b)
unfolding push
push-cases P f b same adopted placed =
    let s = schema_or f.schema (adopt f b).schema in
    elim (Bool-cases (length (raw_data f) == 0)) [
      | inl e ↦ rw e same
      | inr e ↦ elim (Bool-cases (same_text s.types f.schema.types)) [
        | inl y ↦ elim (Bool-cases (same_text s.tid f.schema.tid)) [
          | inl z ↦ rw (e, y, z) placed
          | inr z ↦ rw (e, y, z) (adopted fragment_id_unmatch)
        ]
        | inr y ↦ rw (e, y) (adopted schema_unmatch)
      ]
    ]

push_error-none : (m : ℕ) (e : Option Error) → push_error (m, e) ≡ none → (e ≡ none) × (m ≡ 0)
push_error-none m (some e) h = absurd cc
push_error-none m none h = elim (Bool-cases (m == 0)) [
  | inl z ↦ (refl, ground arith)
  | inr z ↦ absurd (let no = rw z at h in cc)
]

push-wanted : (f : Fragment) (b : Buffer) → (push (some f) b).0 ≡ wanted (push (some f) b).2
push-wanted f b = push-cases (λ x. x.0 ≡ wanted x.2) f b refl (λ e. refl) refl

place_fragment-schema :
    (k : ℕ) (f : Fragment) (b : Buffer) → (place_fragment k f b).schema ≡ b.schema
place_fragment-schema zero f b = refl
place_fragment-schema (suc k) f b = refl

adopt-schema : (f : Fragment) (b : Buffer) → (adopt f b).schema ≡ some (schema_or f.schema b.schema)
unfolding adopt
adopt-schema f b = elim (Option-cases b.schema) [
  | inl e ↦ rw (e, adopt) refl
  | inr (s, e) ↦ rw (e, adopt) e
]

schema_or-either :
    (o : Option Schema) (t s : Schema) → some (schema_or t o) ≡ some s → (o ≡ some s) ⊎ (s ≡ t)
schema_or-either none t s h = inr cc
schema_or-either (some u) t s h = inl h

-- The schema of a buffer after `Push` is the one it had, or that of the fragment.
push-schema :
    (f : Fragment) (b : Buffer) (s : Schema)
    → (push (some f) b).2.schema ≡ some s
    → (b.schema ≡ some s) ⊎ (s ≡ f.schema)
push-schema f b s =
    let adopted : (adopt f b).schema ≡ some s → (b.schema ≡ some s) ⊎ (s ≡ f.schema) =
      λ h. schema_or-either b.schema f.schema s (sym (adopt-schema f b) ∙ h) in
    push-cases (λ x. x.2.schema ≡ some s → (b.schema ≡ some s) ⊎ (s ≡ f.schema)) f b inl
      (λ e. adopted)
      λ h. adopted (sym (place_fragment-schema (abs_fid f.schema.fid) f (adopt f b)) ∙ h)

abbrev schema_in : Option Buffer → Option Schema
schema_in none = none
schema_in (some b) = b.schema

-- The object that a fragment of a registered type goes to, behind its `Push`.
abbrev pub pushed_object : List ℕ → List ℕ → Fragment → RBuffer → ℕ × Option Error × Buffer
pushed_object family version f r = push (some f) (or_new (object_at family version f.schema.tid r))

module _ (index : List (List ℕ × (List ℕ × List ℕ))) where
  same_place :
      (family version u v t : List ℕ) (r : RBuffer)
      → same_text family u ≡ true
      → same_text version v ≡ true
      → object_at family version t r ≡ object_at u v t r
  same_place family version u v t r e y =
      let a = same_text→≡ family u e in let b = same_text→≡ version v y in rw (a, b) refl

  pub filed_at :
      (f : Fragment) (r : RBuffer) (family version u v t : List ℕ)
      → object_at u v t (push_located index (some (family, version)) f r).1 ≡ (
          if same_text family u && same_text version v && same_text f.schema.tid t
          then some (pushed_object family version f r).2
          else object_at u v t r)
  filed_at f r family version u v t =
      let objects = or_empty (lookup_key version (or_empty (lookup_key family r.results))) in
      let pushed = (push_object f objects).1 in
      let here = ap (lookup_key t) (objects_at-with family version u v pushed r) in
      elim (Bool-cases (same_text family u)) [
        | inl e ↦ elim (Bool-cases (same_text version v)) [
          | inl y ↦ elim (Bool-cases (same_text f.schema.tid t)) [
            | inl z ↦ here ∙ rw (e, y, z) refl
            | inr z ↦
                let kept = delete_key-other f.schema.tid t objects z in
                here ∙ rw (e, y, z, kept) (same_place family version u v t r e y)
          ]
          | inr y ↦ here ∙ rw (e, y) refl
        ]
        | inr e ↦ here ∙ rw e refl
      ]

  -- Every object under a family, a version and an id has that id, and its type is registered there.
  abbrev pub IsFiled : RBuffer → Type 0
  IsFiled r =
      (u v t : List ℕ) (b : Buffer) (s : Schema)
      → object_at u v t r ≡ some b
      → b.schema ≡ some s
      → (s.tid ≡ t) × (lookup_key s.types index ≡ some (u, v))

  -- And no id is there twice.
  abbrev pub IsSorted : RBuffer → Type 0
  IsSorted r = IsFiled r × ((u v : List ℕ) → Distinct (objects_at u v r))

  pub new_rbuffer-IsSorted : IsSorted new_rbuffer
  unfolding new_rbuffer
  new_rbuffer-IsSorted = (λ u v t b s h e. absurd cc, λ u v. tt)

  -- The buffer that was there, or a new one, has the schema of an object filed here.
  or_new-schema :
      (o : Option Buffer) (s : Schema)
      → (or_new o).schema ≡ some s
      → (b : Buffer) × (o ≡ some b) × (b.schema ≡ some s)
  or_new-schema none s h = absurd cc
  or_new-schema (some b) s h = (b, refl, h)

  pushed-IsFiled :
      (f : Fragment) (r : RBuffer) (family version : List ℕ) (s : Schema)
      → IsFiled r
      → lookup_key f.schema.types index ≡ some (family, version)
      → (pushed_object family version f r).2.schema ≡ some s
      → (s.tid ≡ f.schema.tid) × (lookup_key s.types index ≡ some (family, version))
  pushed-IsFiled f r family version s filed at h =
      elim (push-schema f (or_new (object_at family version f.schema.tid r)) s h) [
        | inl old ↦
            let (b, there, e) = or_new-schema (object_at family version f.schema.tid r) s old in
            filed family version f.schema.tid b s there e
        | inr e ↦ (ap (λ x. x.tid) e, ap (λ x. lookup_key x.types index) e ∙ at)
      ]

  located-IsSorted :
      (f : Fragment) (r : RBuffer) (family version : List ℕ)
      → IsSorted r
      → lookup_key f.schema.types index ≡ some (family, version)
      → IsSorted (push_located index (some (family, version)) f r).1
  located-IsSorted f r family version (filed, distinct) at =
      let objects = objects_at family version r in
      let set : Distinct (push_object f objects).1 = (
        delete_key-same f.schema.tid objects,
        delete_key-Distinct f.schema.tid objects (distinct family version),
      ) in
      (
        λ u v t b s h e. elim (place-cases family version f.schema.tid u v t) [
          | inl (y, eu, ev, et) ↦
              let there : some (pushed_object family version f r).2 ≡ some b =
                sym (filed_at f r family version u v t ∙ rw y refl) ∙ h in
              let schema : (pushed_object family version f r).2.schema ≡ some s =
                ap (λ o. schema_in o) there ∙ e in
              let (tid, place) = pushed-IsFiled f r family version s filed at schema in
              (tid ∙ et, rw (← eu, ← ev) place)
          | inr n ↦ filed u v t b s (sym (filed_at f r family version u v t ∙ rw n refl) ∙ h) e
        ],
        λ u v.
            with_objects-Distinct family version u v (push_object f objects).1 r set (distinct u v),
      )

  -- Filing a fragment keeps every object filed under its own id, in the family and version that its
  -- type is registered for, and no id is there twice.
  pub push_fragment-IsSorted :
      (f : Fragment) (r : RBuffer) → IsSorted r → IsSorted (push_fragment index f r).1
  unfolding push_fragment
  push_fragment-IsSorted f r h = elim (Option-cases (lookup_key f.schema.types index)) [
    | inl e ↦ rw e h
    | inr ((family, version), e) ↦ rw e (located-IsSorted f r family version h e)
  ]

  -- A fragment of a registered type goes to the object with its family, version and id, or to a new
  -- one. That object is what `Push` of Buffer makes of it, every other object is as it was, and the
  -- answer is no error only if that `Push` has no error and nothing is missing.
  pub push_fragment-object_at :
      (f : Fragment) (r : RBuffer) (family version : List ℕ)
      → lookup_key f.schema.types index ≡ some (family, version)
      → ((u v t : List ℕ)
          → object_at u v t (push_fragment index f r).1 ≡ (
              if same_text family u && same_text version v && same_text f.schema.tid t
              then some (pushed_object family version f r).2
              else object_at u v t r))
        × ((push_fragment index f r).0 ≡ none
            → (wanted (pushed_object family version f r).2 ≡ 0)
              × ((pushed_object family version f r).1 ≡ none))
        × ((push_fragment index f r).1.unregistered ≡ r.unregistered)
  unfolding push_fragment
  push_fragment-object_at f r family version e =
      let b = or_new (object_at family version f.schema.tid r) in
      let complete : push_error ((push (some f) b).0, (push (some f) b).1) ≡ none
          → (wanted (push (some f) b).2 ≡ 0) × ((push (some f) b).1 ≡ none) =
        λ h.
          let (fine, zero_left) = push_error-none (push (some f) b).0 (push (some f) b).1 h in
          (sym (push-wanted f b) ∙ zero_left, fine) in
      rw e (λ u v t. filed_at f r family version u v t, λ h. complete h, refl)
