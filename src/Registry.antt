-- ===== src/Registry.antt =====
-- tssd/flat.go and tssd/factory.go: the registry of versions, the index by the hash of a type, and
-- the chain of versions that an old object climbs to become a new one.
pub mod Index
pub mod Chain
pub mod Marshal
pub mod Delivery
pub mod Print
use tssdgo.Prelude.{
  ℕ, zero, suc, Bool, true, false, Option, none, some, List, [], ◌∷◌, ◌||◌, length, ◌==◌,
  if◌then◌else◌,
}
use tssdgo.Wire.{Error, Result, ok, err, panic, stuck, ◌>>=◌, schema_unmatch, register_failure}
use tssdgo.Buffer.Assemble.{same_text}
use tssdgo.TypeInfo.{TypeInfo, Value}

-- The interface Flatable: user code. `types`, `tid` and `info` are the fields of `Schema()`. What
-- reflection shows of an object: `type_info` is what `parse` makes of its Go type, `value` what
-- stands in its memory, and `with_value` the object with another value there.
pub record Flatable : Type 1 where
  pub Object : Type 0
  pub family : Object → List ℕ
  pub version : Object → List ℕ
  pub progeny : Object → List ℕ
  pub types : Object → List ℕ
  pub tid : Object → List ℕ
  pub info : Object → List ℕ
  pub type_info : Object → TypeInfo
  pub value : Object → Value
  pub with_value : Object → Value → Object
  pub build : Object → Object
  pub decorate : Object → Object → Object

-- A Go map with strings for keys: the first pair with the key counts.
abbrev pub lookup_key {ℓ} : {A : Type ℓ} → List ℕ → List (List ℕ × A) → Option A
lookup_key k [] = none
lookup_key k ((j, a) ∷ m) = if same_text j k then some a else lookup_key k m

abbrev pub put_key {ℓ} : {A : Type ℓ} → List ℕ → A → List (List ℕ × A) → List (List ℕ × A)
put_key k a m = (k, a) ∷ m

abbrev pub is_empty : List ℕ → Bool
is_empty s = length s == 0

module _ (flatable : Flatable) where
  pub record BuildInfo : Type 0 where
    pub version : List ℕ
    pub progeny : List ℕ
    pub types : List ℕ
    pub info : TypeInfo
    pub builder : flatable.Object

  pub record Factory : Type 0 where
    pub current : List ℕ
    pub versions : List (List ℕ × BuildInfo)

  pub record Registers : Type 0 where
    pub families : List (List ℕ × Factory)
    pub index : List (List ℕ × (List ℕ × List ℕ))

  -- `init`
  abbrev pub no_registers : Registers
  no_registers = record { families = []; index = [] }

  -- The new buildInfo, with a builder of its own.
  abbrev pub build_info : flatable.Object → BuildInfo
  build_info flat = record {
    version = flatable.version flat;
    progeny = flatable.progeny flat;
    types = flatable.types flat;
    info = flatable.type_info flat;
    builder = flatable.build flat;
  }

  -- `factory.register`: a version that is there is kept.
  unfoldable pub register_version : flatable.Object → Factory → Factory
  register_version flat f = elim (lookup_key (flatable.version flat) f.versions) [
    | some bi ↦ f
    | none ↦ record f { versions = put_key (flatable.version flat) (build_info flat) f.versions }
  ]

  -- The family's factory; the first version registered is the current one.
  unfoldable pub family_or_new : flatable.Object → Option Factory → Factory
  family_or_new flat (some f) = f
  family_or_new flat none = record { current = flatable.version flat; versions = [] }

  -- What `Register` makes of a Flatable that has a family and a version.
  abbrev pub registered : flatable.Object → Registers → Registers
  registered flat r =
      let f = family_or_new flat (lookup_key (flatable.family flat) r.families) in
      record {
        families = put_key (flatable.family flat) (register_version flat f) r.families;
        index = put_key (flatable.types flat) (flatable.family flat, flatable.version flat) r.index;
      }

  unfoldable pub register : flatable.Object → Registers → Result Registers
  register flat r =
      if is_empty (flatable.family flat) || is_empty (flatable.version flat)
      then err register_failure
      else ok (registered flat r)

  abbrev pub set_current : List ℕ → Factory → Factory
  set_current v f = record f { current = v }

  abbrev pub with_current : flatable.Object → Factory → Registers → Registers
  with_current flat f r = record r {
    families = put_key (flatable.family flat) (set_current (flatable.version flat) f) r.families;
  }

  -- `registers.families[...].current = ...`: a nil entry panics.
  abbrev pub make_current : flatable.Object → Registers → Option Factory → Result Registers
  make_current flat r none = panic
  make_current flat r (some f) = ok (with_current flat f r)

  unfoldable pub register_current : flatable.Object → Registers → Result Registers
  register_current flat r =
      register flat r >>= λ r'. make_current flat r' (lookup_key (flatable.family flat) r'.families)

  abbrev pub current_or_empty : Option Factory → List ℕ
  current_or_empty none = []
  current_or_empty (some f) = f.current

  unfoldable pub current_version : List ℕ → Registers → List ℕ
  current_version family r = current_or_empty (lookup_key family r.families)

  -- The pointer that `versions[...]` gives, which the callers dereference.
  unfoldable pub build_info_by_types : List ℕ → Registers → Result BuildInfo
  build_info_by_types types r = elim (lookup_key types r.index) [
    | none ↦ err schema_unmatch
    | some (family, version) ↦ elim (lookup_key family r.families) [
      | none ↦ panic
      | some f ↦ elim (lookup_key version f.versions) [ none ↦ panic | some bi ↦ ok bi ]
    ]
  ]

  -- The loop of `factory.decorate`, on fuel: the source has no bound.
  unfoldable pub decorate_loop :
      ℕ → List (List ℕ × BuildInfo) → flatable.Object → flatable.Object → Result flatable.Object
  decorate_loop zero versions to flat = stuck
  decorate_loop (suc fuel) versions to flat =
      if is_empty (flatable.progeny flat)
      then err schema_unmatch
      else if same_text (flatable.progeny flat) (flatable.version to)
      then ok (flatable.decorate to flat)
      else elim (lookup_key (flatable.progeny flat) versions) [
        | none ↦ err schema_unmatch
        | some bi ↦
            decorate_loop fuel versions to (flatable.decorate (flatable.build bi.builder) flat)
      ]
