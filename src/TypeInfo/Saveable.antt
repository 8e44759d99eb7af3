-- ===== src/TypeInfo/Saveable.antt =====
-- The values that the functions of tssd/typeinfo_map.go can write: `simpleSave` has no function for
-- the elements of code 0, those of type uintptr, so a merged array of these in a map must be empty.
use tssdgo.Prelude.{◌<◌, ◌≡◌, ◌⊎◌}
use tssdgo.TypeInfo.{
  TypeInfo, pointer, object, array, slice, merge_array, merge_slice, dict, Infos, info, Value,
  bytes, pointee, fields, elements, items, raw, entries, Items, item,
}
use tssdgo.TypeInfo.Fits.{AllItems, AllEntries}

unfoldable mutual
  -- What stands outside of maps.
  pub Saveable : TypeInfo → Value → Type 0
  Saveable (pointer t) (pointee v) = Saveable t v
  Saveable (object ts) (fields vs) = SaveableFields ts vs
  Saveable (array n e t) (elements vs) = AllItems (Saveable t) vs
  Saveable (slice t) (items vs spare) = AllItems (Saveable t) vs
  Saveable (dict k v) (entries es) = AllEntries (MapSaveable k) (MapSaveable v) es
  Saveable _ _ = Unit {0}

  pub SaveableFields : Infos → Items → Type 0
  SaveableFields (info t ts) (item v vs) = Saveable t v × SaveableFields ts vs
  SaveableFields _ _ = Unit {0}

  -- A key or a value of a map, or a part of one.
  pub MapSaveable : TypeInfo → Value → Type 0
  MapSaveable (pointer t) (pointee v) = Saveable t v
  MapSaveable (object ts) (fields vs) = MapSaveableFields ts vs
  MapSaveable (array n e t) (elements vs) = AllItems (MapSaveable t) vs
  MapSaveable (slice t) (items vs spare) = AllItems (MapSaveable t) vs
  MapSaveable (merge_array n t e) (bytes bs) = (n ≡ 0) ⊎ (0 < t)
  MapSaveable (merge_slice t e) (raw n bs spare) = (n ≡ 0) ⊎ (0 < t)
  MapSaveable (dict k v) (entries es) = AllEntries (MapSaveable k) (MapSaveable v) es
  MapSaveable _ _ = Unit {0}

  pub MapSaveableFields : Infos → Items → Type 0
  MapSaveableFields (info t ts) (item v vs) = MapSaveable t v × MapSaveableFields ts vs
  MapSaveableFields _ _ = Unit {0}
