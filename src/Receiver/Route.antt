-- ===== src/Receiver/Route.antt =====
-- tssd/rbuffer.go: where a fragment goes, by the type and the id of its object.
pub mod Filed
pub mod Taken
pub mod Interleaved
use tssdgo.Prelude.{ℕ, Option, none, some, List, [], ◌∷◌, ◌==◌, if◌then◌else◌}
use tssdgo.Wire.{Error, schema_unmatch, insufficient_data}
use tssdgo.Fragment.{Fragment}
use tssdgo.Buffer.{Buffer, new_buffer}
use tssdgo.Buffer.Assemble.{push, wanted, same_text}
use tssdgo.Registry.{lookup_key, put_key}
use tssdgo.Receiver.{RBuffer, Objects}

-- `delete`
unfoldable pub delete_key {ℓ} : {A : Type ℓ} → List ℕ → List (List ℕ × A) → List (List ℕ × A)
delete_key k [] = []
delete_key k ((j, a) ∷ m) =
    let rest = delete_key k m in if same_text j k then rest else (j, a) ∷ rest

-- A map in which the keys are visited has each key once.
abbrev pub set_key {ℓ} : {A : Type ℓ} → List ℕ → A → List (List ℕ × A) → List (List ℕ × A)
set_key k a m = (k, a) ∷ delete_key k m

-- A missing entry of a map of maps is an empty one.
abbrev pub or_empty {ℓ} : {A : Type ℓ} → Option (List A) → List A
or_empty none = []
or_empty (some m) = m

abbrev pub or_new : Option Buffer → Buffer
or_new none = new_buffer 0
or_new (some b) = b

-- `Buffer.Push` on the object with the fragment's id, made if it is new.
abbrev pub push_object : Fragment → Objects → (ℕ × Option Error) × Objects
push_object f objects =
    let (missing, e, b) = push (some f) (or_new (lookup_key f.schema.tid objects)) in
    ((missing, e), set_key f.schema.tid b objects)

-- The error that `Push` of the receiver makes of the answer.
abbrev pub push_error : ℕ × Option Error → Option Error
push_error (missing, some e) = some e
push_error (missing, none) = if missing == 0 then none else some insufficient_data

-- `registers.types`: the family and the version of a type hash.
module _ (index : List (List ℕ × (List ℕ × List ℕ))) where
  abbrev pub push_located : Option (List ℕ × List ℕ) → Fragment → RBuffer → Option Error × RBuffer
  push_located none f r =
      let (answer, objects) = push_object f (or_empty (lookup_key f.schema.types r.unregistered)) in
      (
        some schema_unmatch,
        record r { unregistered = put_key f.schema.types objects r.unregistered },
      )
  push_located (some (family, version)) f r =
      let versions = or_empty (lookup_key family r.results) in
      let (answer, objects) = push_object f (or_empty (lookup_key version versions)) in
      (
        push_error answer,
        record r { results = put_key family (put_key version objects versions) r.results },
      )

  unfoldable pub push_fragment : Fragment → RBuffer → Option Error × RBuffer
  push_fragment f r = push_located (lookup_key f.schema.types index) f r

-- A complete object, in the order in which the map is visited.
unfoldable pub complete_in : Objects → Option (List ℕ × Buffer)
complete_in [] = none
complete_in ((tid, b) ∷ m) =
    let later = complete_in m in if wanted b == 0 then some (tid, b) else later

abbrev pub take_complete :
    List ℕ
    → List ℕ
    → List (List ℕ × Objects)
    → Objects
    → Option (List ℕ × Buffer)
    → RBuffer
    → Option Buffer × RBuffer
take_complete family version versions objects none r = (none, r)
take_complete family version versions objects (some (tid, b)) r = (
  some b,
  record r {
    results = put_key family (put_key version (delete_key tid objects) versions) r.results;
  },
)

-- `Buffer(family, version)`: a nil map has no entries.
unfoldable pub take_buffer : List ℕ → List ℕ → RBuffer → Option Buffer × RBuffer
take_buffer family version r =
    let versions = or_empty (lookup_key family r.results) in
    let objects = or_empty (lookup_key version versions) in
    take_complete family version versions objects (complete_in objects) r
