-- ===== src/Buffer/Assemble/Gather.antt =====
-- The fragments of an object, pushed in any order.
use tssdgo.Prelude.{
  ℕ, suc, ◌+◌, ◌<◌, ◌≡◌, ◌≢◌, refl, sym, ap, ◌∙◌, ◌⊎◌, inl, inr, true, Bool-cases, Option-cases,
  none, some, List, [], ◌∷◌, length, get_elem?, ◌==◌, if◌then◌else◌, ne→==, ==→eq, arith,
}
use mathlib.Core.Path.{subst}
use tssdgo.Wire.{Schema}
use tssdgo.Fragment.{Fragment, raw_data}
use tssdgo.Buffer.{Buffer, new_buffer, lookup_entry, put_entry, payloads}
use tssdgo.Buffer.Read.Stream.{Occupied}
use tssdgo.Buffer.Assemble.{
  same_text, is_ending, abs_fid, place_fragment, adopt, schema_or, push, payload_length,
}
use tssdgo.Buffer.Assemble.Push.{lookup-put, IsCounted, place-IsCounted}
use tssdgo.Buffer.Assemble.Text.{same_text_refl}

-- One fragment after another.
abbrev pub push_all : List Fragment → Buffer → Buffer
push_all [] b = b
push_all (f ∷ fs) b = push_all fs (push (some f) b).2

abbrev pub Among : Fragment → List Fragment → Type 0
Among f [] = ⊥
Among f (g ∷ gs) = (g ≡ f) ⊎ Among f gs

-- A fragment of the object with the types and the id, in place `i`.
pub record IsPiece (types tid : List ℕ) (i : ℕ) (f : Fragment) : Type 0 where
  pub same_types : f.schema.types ≡ types
  pub same_tid : f.schema.tid ≡ tid
  pub filled : length (raw_data f) ≢ 0
  pub id : abs_fid f.schema.fid ≡ suc i

-- All the fragments of an object, in their order: the last one, and no other, ends it, and only the
-- last may have no payload.
pub record IsObject (types tid : List ℕ) (gs : List Fragment) : Type 0 where
  pub pieces : (i : ℕ) (f : Fragment) → get_elem? gs i ≡ some f → IsPiece types tid i f
  pub ending : (i : ℕ) (f : Fragment) → get_elem? gs i ≡ some f → is_ending f ≡ (i + 1 == length gs)
  pub occupied : Occupied gs
  pub some_piece : 0 < length gs

-- A buffer that holds some of these fragments, each in its place, and of which nothing was read.
pub record Gathered (types tid : List ℕ) (gs : List Fragment) (b : Buffer) : Type 0 where
  pub at_start : (b.index ≡ 0) × (b.pos ≡ 0)
  pub no_stray : b.stray ≡ none
  pub counted : IsCounted b
  pub fresh : b.schema ≡ none → b.fragments ≡ []
  pub same_object : (s : Schema) → b.schema ≡ some s → (s.types ≡ types) × (s.tid ≡ tid)
  pub kept :
      (j : ℕ) → (lookup_entry b.fragments j ≡ none) ⊎ (lookup_entry b.fragments j ≡ get_elem? gs j)

module _ (types tid : List ℕ) (gs : List Fragment) where
  pub new-Gathered : (mtu : ℕ) → Gathered types tid gs (new_buffer mtu)
  new-Gathered mtu = record {
    at_start = (refl, refl);
    no_stray = refl;
    counted = refl;
    fresh = λ e. refl;
    same_object = λ s e. absurd (cc);
    kept = λ j. inl refl;
  }

  -- `adopt` of a piece leaves a buffer with the schema of the object.
  adopt-Gathered :
      (f : Fragment) (b : Buffer) (i : ℕ)
      → IsPiece types tid i f
      → Gathered types tid gs b
      → Gathered types tid gs (adopt f b)
        × ((s : Schema) × ((adopt f b).schema ≡ some s))
        × ((adopt f b).fragments ≡ b.fragments)
  unfolding adopt
  adopt-Gathered f b i p g = elim (Option-cases b.schema) [
    | inl e ↦
        let empty = g.fresh e in
        rw (e, adopt)
          (
            record {
              at_start = g.at_start;
              no_stray = refl;
              counted = omega (
                arith,
                g.counted,
                ap (λ os. length (payloads os)) empty,
                ap payload_length g.no_stray,
              );
              fresh = λ h. refl;
              same_object = λ s h.
                  let same : f.schema ≡ s = cc in
                  (
                    ap (λ t. t.types) (sym same) ∙ p.same_types,
                    ap (λ t. t.tid) (sym same) ∙ p.same_tid,
                  );
              kept = λ j. inl refl;
            },
            (f.schema, refl),
            sym empty,
          )
    | inr (s, e) ↦ rw (e, adopt) (g, (s, e), refl)
  ]

  push_piece :
      (f : Fragment) (b : Buffer) (i : ℕ)
      → IsPiece types tid i f
      → Gathered types tid gs b
      → (push (some f) b).2 ≡ place_fragment (suc i) f (adopt f b)
  unfolding push
  push_piece f b i p g =
      let (adopted, (s, e), _) = adopt-Gathered f b i p g in
      let (same_types, same_tid) = adopted.same_object s e in
      let held : schema_or f.schema (adopt f b).schema ≡ s = rw e refl in
      let types_match : same_text s.types f.schema.types ≡ true =
        ap (λ t. same_text t f.schema.types) (same_types ∙ sym p.same_types)
        ∙ same_text_refl f.schema.types in
      let tid_match : same_text s.tid f.schema.tid ≡ true =
        ap (λ t. same_text t f.schema.tid) (same_tid ∙ sym p.same_tid)
        ∙ same_text_refl f.schema.tid in
      rw (ne→== (length (raw_data f)) 0 p.filled, held, types_match, tid_match, p.id) refl

  place-Gathered :
      (f : Fragment) (c : Buffer) (i : ℕ)
      → get_elem? gs i ≡ some f
      → ((s : Schema) × (c.schema ≡ some s))
      → Gathered types tid gs c
      → Gathered types tid gs (place_fragment (suc i) f c)
  place-Gathered f c i at (s, e) g = record {
    at_start = g.at_start;
    no_stray = g.no_stray;
    counted = place-IsCounted (suc i) f c g.counted;
    fresh = λ h. absurd (cc);
    same_object = g.same_object;
    kept = λ j. elim (Bool-cases (i == j)) [
      | inl h ↦
          let same = ==→eq i j h in
          inr (lookup-put c.fragments i j f ∙ rw h (sym at ∙ ap (get_elem? gs) same))
      | inr h ↦
          let stays : lookup_entry (put_entry c.fragments i f) j ≡ lookup_entry c.fragments j =
            lookup-put c.fragments i j f ∙ rw h refl in
          elim (g.kept j) [ inl k ↦ inl (stays ∙ k) | inr k ↦ inr (stays ∙ k) ]
    ];
  }

  -- A piece that is pushed is there, and what was there stays.
  pub push-Gathered :
      (f : Fragment) (b : Buffer) (i : ℕ)
      → get_elem? gs i ≡ some f
      → IsPiece types tid i f
      → Gathered types tid gs b
      → Gathered types tid gs (push (some f) b).2
        × ((j : ℕ)
            → lookup_entry (push (some f) b).2.fragments j
              ≡ (if i == j then some f else lookup_entry b.fragments j))
  push-Gathered f b i at p g =
      let (adopted, has, same) = adopt-Gathered f b i p g in
      let e = push_piece f b i p g in
      (
        subst (Gathered types tid gs) (sym e) (place-Gathered f (adopt f b) i at has adopted),
        λ j.
            ap (λ c. lookup_entry c.fragments j) e
            ∙ (lookup-put (adopt f b).fragments i j f
                ∙ ap (λ os. if i == j then some f else lookup_entry os j) same),
      )
