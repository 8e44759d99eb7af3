-- ===== src/Registry/Index.antt =====
-- The index by type hash leads to a registered version.
use tssdgo.Prelude.{
  ℕ, ◌≡◌, ◌⊎◌, refl, none, some, List, ◌||◌, Bool-cases, Option-cases, inl, inr, false,
}
use mathlib.Core.Path.{subst}
use tssdgo.Wire.{ok, err, schema_unmatch}
use tssdgo.Buffer.Assemble.{same_text}
use tssdgo.Buffer.Assemble.Text.{same_text_refl, same_text→≡}
use tssdgo.Registry.{
  Flatable, lookup_key, BuildInfo, Factory, Registers, build_info, register_version, family_or_new,
  is_empty, with_current, register, registered, register_current, current_version,
  build_info_by_types,
}

module _ (flatable : Flatable) where
  -- The family is there, and has the version.
  abbrev pub Knows : Registers flatable → List ℕ → List ℕ → Type 0
  Knows r family version =
      (f : Factory flatable) × (bi : BuildInfo flatable) × (lookup_key family r.families ≡ some f)
      × (lookup_key version f.versions ≡ some bi)

  -- Every entry of the index names a family and a version that are there.
  abbrev pub IsIndexed : Registers flatable → Type 0
  IsIndexed r =
      (types family version : List ℕ)
      → lookup_key types r.index ≡ some (family, version)
      → Knows r family version

  register_version-has :
      (flat : flatable.Object) (f : Factory flatable)
      → (bi : BuildInfo flatable) × (lookup_key
            (flatable.version flat)
            (register_version flatable flat f).versions
          ≡ some bi)
  unfolding register_version
  register_version-has flat f =
      elim (Option-cases (lookup_key (flatable.version flat) f.versions)) [
        | inl e ↦ (
          build_info flatable flat,
          rw (e, register_version, same_text_refl (flatable.version flat)) refl,
        )
        | inr (bi, e) ↦ (bi, rw (e, register_version) e)
      ]

  register_version-keeps :
      (flat : flatable.Object) (f : Factory flatable) (v : List ℕ) (bi : BuildInfo flatable)
      → lookup_key v f.versions ≡ some bi
      → lookup_key v (register_version flatable flat f).versions ≡ some bi
  unfolding register_version
  register_version-keeps flat f v bi h =
      elim (Option-cases (lookup_key (flatable.version flat) f.versions)) [
        | inl e ↦ elim (Bool-cases (same_text (flatable.version flat) v)) [
          | inl s ↦ absurd (let same = same_text→≡ (flatable.version flat) v s in cc)
          | inr s ↦ rw (e, register_version, s) h
        ]
        | inr (old, e) ↦ rw (e, register_version) h
      ]

  -- What is known stays known, and the new version is.
  registered-keeps :
      (flat : flatable.Object) (r : Registers flatable) (family version : List ℕ)
      → Knows r family version
      → Knows (registered flatable flat r) family version
  unfolding family_or_new
  registered-keeps flat r family version (f, bi, at_family, at_version) =
      elim (Bool-cases (same_text (flatable.family flat) family)) [
        | inl s ↦
            let e = same_text→≡ (flatable.family flat) family s in
            (
              register_version flatable flat f,
              bi,
              rw (s, e, at_family) refl,
              register_version-keeps flat f version bi at_version,
            )
        | inr s ↦ (f, bi, rw (s) at_family, at_version)
      ]

  registered-Knows :
      (flat : flatable.Object) (r : Registers flatable)
      → Knows (registered flatable flat r) (flatable.family flat) (flatable.version flat)
  registered-Knows flat r =
      let f = family_or_new flatable flat (lookup_key (flatable.family flat) r.families) in
      let (bi, e) = register_version-has flat f in
      (register_version flatable flat f, bi, rw (same_text_refl (flatable.family flat)) refl, e)

  registered-IsIndexed :
      (flat : flatable.Object) (r : Registers flatable)
      → IsIndexed r
      → IsIndexed (registered flatable flat r)
  registered-IsIndexed flat r h types family version e =
      elim (Bool-cases (same_text (flatable.types flat) types)) [
        | inl s ↦
            let found = rw s at e in
            let same_family : flatable.family flat ≡ family = cc in
            let same_version : flatable.version flat ≡ version = cc in
            let next = registered flatable flat r in
            subst (λ k. Knows next k version) same_family
              (subst (λ v. Knows next (flatable.family flat) v) same_version
                (registered-Knows flat r))
        | inr s ↦ registered-keeps flat r family version (h types family version (rw s at e))
      ]

-- `Register` keeps the index sound: when it was, every type hash in it, old or new, leads to a
-- family that is there and has the version.
pub register-IsIndexed :
    (flatable : Flatable) (flat : flatable.Object) (r r' : Registers flatable)
    → IsIndexed flatable r
    → register flatable flat r ≡ ok r'
    → IsIndexed flatable r'
unfolding register
register-IsIndexed flatable flat r r' h e =
    elim (Bool-cases (is_empty (flatable.family flat) || is_empty (flatable.version flat))) [
      | inl z ↦ absurd (let no = rw z at e in cc)
      | inr z ↦
          let made : registered flatable flat r ≡ r' = (let yes = rw z at e in cc) in
          subst (λ r2. IsIndexed flatable r2) made (registered-IsIndexed flatable flat r h)
    ]

-- Over a sound index the lookup by type hash never dereferences nil: it answers the schema error
-- for a hash that the index has not, and otherwise the build information of the version that
-- the index names.
pub build_info_by_types-IsIndexed :
    (flatable : Flatable) (types : List ℕ) (r : Registers flatable)
    → IsIndexed flatable r
    → ((lookup_key types r.index ≡ none)
        × (build_info_by_types flatable types r ≡ err schema_unmatch))
      ⊎ ((family : List ℕ) × (version : List ℕ) × (f : Factory flatable) × (bi : BuildInfo flatable)
          × (lookup_key types r.index ≡ some (family, version))
          × (lookup_key family r.families ≡ some f)
          × (lookup_key version f.versions ≡ some bi)
          × (build_info_by_types flatable types r ≡ ok bi))
unfolding build_info_by_types
build_info_by_types-IsIndexed flatable types r h = elim (Option-cases (lookup_key types r.index)) [
  | inl e ↦ inl (e, rw (e, build_info_by_types) refl)
  | inr ((family, version), e) ↦
      let (f, bi, at_family, at_version) = h types family version e in
      inr (
        family,
        version,
        f,
        bi,
        e,
        at_family,
        at_version,
        rw (e, build_info_by_types, at_family, at_version) refl,
      )
]

register_current-with :
    (flatable : Flatable) (flat : flatable.Object) (r r' : Registers flatable)
    → register_current flatable flat r ≡ ok r'
    → (f : Factory flatable) × (r' ≡ with_current flatable flat f (registered flatable flat r))
unfolding register_current register
register_current-with flatable flat r r' e =
    elim (Bool-cases (is_empty (flatable.family flat) || is_empty (flatable.version flat))) [
      | inl z ↦ absurd (let no = rw (z, register) at e in cc)
      | inr z ↦
          let f =
            register_version flatable flat
              (family_or_new flatable flat (lookup_key (flatable.family flat) r.families)) in
          let yes =
            rw (z, register_current, register, same_text_refl (flatable.family flat)) at e in
          (f, cc)
    ]

-- After `RegisterCurrent` the family's current version is the one registered, and those of the
-- other families are what they were.
pub register_current-current_version :
    (flatable : Flatable) (flat : flatable.Object) (r r' : Registers flatable) (other : List ℕ)
    → register_current flatable flat r ≡ ok r'
    → same_text (flatable.family flat) other ≡ false
    → (current_version flatable (flatable.family flat) r' ≡ flatable.version flat)
      × (current_version flatable other r' ≡ current_version flatable other r)
unfolding current_version
register_current-current_version flatable flat r r' other e differs =
    let (f, made) = register_current-with flatable flat r r' e in
    (rw (made, same_text_refl (flatable.family flat)) refl, rw (made, differs) refl)
