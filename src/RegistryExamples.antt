-- ===== src/RegistryExamples.antt =====
-- The registry at work on three versions of one family, and the theorems applied to it.
use tssdgo.Prelude.{
  ℕ, ◌+◌, ◌≡◌, ◌⊎◌, refl, sym, ap, none, some, List, [], ◌∷◌, ◌==◌, if◌then◌else◌, Bool-cases, inl,
  inr, arith,
}
use tssdgo.Wire.{ok, err, schema_unmatch}
use tssdgo.Buffer.Assemble.{same_text}
use tssdgo.TypeInfo.{simple, bytes}
use tssdgo.Registry.{
  Flatable, lookup_key, BuildInfo, Factory, Registers, no_registers, build_info, registered,
  register, register_current, build_info_by_types, decorate_loop, with_current, register_version,
  family_or_new,
}
use tssdgo.Registry.Index.{IsIndexed, register-IsIndexed, build_info_by_types-IsIndexed}
use tssdgo.Registry.Chain.{Descends, Decorated, decorate_loop-Decorated}

-- An object is its version's number; versions 1 and 2 name the next one.
abbrev toy : Flatable
toy = record {
  Object = ℕ;
  family = λ n. b'F' ∷ [];
  version = λ n. n ∷ [];
  progeny = λ n. if n == 3 then [] else (n + 1) ∷ [];
  types = λ n. b'T' ∷ n ∷ [];
  tid = λ n. b'x' ∷ [];
  info = λ n. [];
  type_info = λ n. simple 19 8;
  value = λ n. bytes (n ∷ 0 ∷ 0 ∷ 0 ∷ 0 ∷ 0 ∷ 0 ∷ 0 ∷ []);
  with_value = λ n v. n;
  build = λ n. n;
  decorate = λ new old. new;
}

abbrev one_version : Registers toy
one_version = registered toy 1 (no_registers toy)

no_registers-IsIndexed : IsIndexed toy (no_registers toy)
no_registers-IsIndexed types family version e = absurd cc

register_first : register toy 1 (no_registers toy) ≡ ok one_version
unfolding register
register_first = refl

register-IsIndexed_example : IsIndexed toy one_version
register-IsIndexed_example =
    register-IsIndexed toy 1 (no_registers toy) one_version no_registers-IsIndexed register_first

one_version-IsIndexed : IsIndexed toy one_version
one_version-IsIndexed =
    register-IsIndexed toy 1 (no_registers toy) one_version no_registers-IsIndexed register_first

build_info_by_types-IsIndexed_example :
    ((lookup_key (b'T' ∷ 1 ∷ []) one_version.index ≡ none)
      × (build_info_by_types toy (b'T' ∷ 1 ∷ []) one_version ≡ err schema_unmatch))
    ⊎ ((family : List ℕ) × (version : List ℕ) × (f : Factory toy) × (bi : BuildInfo toy)
        × (lookup_key (b'T' ∷ 1 ∷ []) one_version.index ≡ some (family, version))
        × (lookup_key family one_version.families ≡ some f)
        × (lookup_key version f.versions ≡ some bi)
        × (build_info_by_types toy (b'T' ∷ 1 ∷ []) one_version ≡ ok bi))
build_info_by_types-IsIndexed_example =
    build_info_by_types-IsIndexed toy (b'T' ∷ 1 ∷ []) one_version one_version-IsIndexed

abbrev two_versions : Registers toy
two_versions =
    with_current toy 2
      (register_version toy 2 (family_or_new toy 2 (lookup_key (b'F' ∷ []) one_version.families)))
      (registered toy 2 one_version)

register_second : register_current toy 2 one_version ≡ ok two_versions
unfolding register_current register
register_second = refl

abbrev middle : List (List ℕ × BuildInfo toy)
middle = (2 ∷ [], build_info toy 2) ∷ []

abbrev toy_rank : List ℕ → ℕ
toy_rank s = if same_text (2 ∷ []) s then 1 else 0

middle-Descends : Descends toy toy_rank middle
middle-Descends flat bi e = elim (Bool-cases (same_text (2 ∷ []) (toy.progeny flat))) [
  | inl s ↦
      let same : build_info toy 2 ≡ bi = (let hit = rw s at e in cc) in
      let builder : bi.builder ≡ 2 = ap (λ i. i.builder) (sym same) in rw (s, builder) (omega arith)
  | inr s ↦ absurd (let hit = rw s at e in cc)
]

-- From version 1 over version 2 to version 3.
decorate_loop-Decorated_example : Decorated toy middle 3 1 (decorate_loop toy 5 middle 3 1)
decorate_loop-Decorated_example =
    decorate_loop-Decorated toy toy_rank middle 3 1 5 middle-Descends (omega arith)

decorated_climbs : decorate_loop toy 5 middle 3 1 ≡ ok 3
unfolding decorate_loop
decorated_climbs = refl
