-- ===== src/TypeInfo/Fits.antt =====
-- The values that the format can carry: counts below 2 ^ 15 and sizes below 2 ^ 31, which an int16
-- and an int32 hold; a time that its text determines; a pointer to something whose bytes do not
-- begin like those of a nil pointer; nothing between the length and the capacity of a slice.
use tssdgo.Prelude.{ℕ, ◌+◌, ◌<◌, ◌≡◌, ◌≢◌, Option, some, List, [], length}
use tssdgo.Wire.{negated}
use tssdgo.Buffer.Read.{first_byte}
use tssdgo.TypeInfo.{
  TypeInfo, str, time, pointer, object, array, slice, merge_array, merge_slice, dict, Infos, info,
  info_count, type_of, Value, bytes, text, instant, pointee, fields, elements, items, raw, entries,
  Items, no_items, item, Entries, no_entries, pair, entry_count, item_count,
}
use tssdgo.TypeInfo.Encode.{encode, encode_fields, encode_items, encode_entries}

abbrev pub AllItems : (Value → Type 0) → Items → Type 0
AllItems P no_items = Unit
AllItems P (item v vs) = P v × AllItems P vs

abbrev pub AllEntries : (Value → Type 0) → (Value → Type 0) → Entries → Type 0
AllEntries P Q no_entries = Unit
AllEntries P Q (pair k v es) = P k × Q v × AllEntries P Q es

-- A counted body.
abbrev pub FitsSized : ℕ → List ℕ → Type 0
FitsSized n body = (n < 0x8000) × (2 + length body < 0x80000000)

module _ (format : ℕ → List ℕ) (parse : List ℕ → Option ℕ) where
  unfoldable mutual
    pub Fits : TypeInfo → Value → Type 0
    Fits str (text s) = length s < 0x80000000
    Fits time (instant t) = (length (format t) < 0x80000000) × (parse (format t) ≡ some t)
    Fits (pointer t) (pointee v) = Fits t v × (first_byte (encode format t v) ≢ negated (type_of t))
    Fits (object ts) (fields vs) =
        FitsFields ts vs × FitsSized (info_count ts) (encode_fields format ts vs)
    Fits (array n e t) (elements vs) =
        AllItems (Fits t) vs × FitsSized n (encode_items (encode format t) vs)
    Fits (slice t) (items vs spare) =
        AllItems (Fits t) vs
        × FitsSized (item_count vs) (encode_items (encode format t) vs)
        × (spare ≡ no_items)
    Fits (merge_array n t e) (bytes bs) = FitsSized n bs
    Fits (merge_slice t e) (raw n bs spare) = FitsSized n bs × (spare ≡ [])
    Fits (dict k v) (entries es) =
        AllEntries (Fits k) (Fits v) es
        × FitsSized (entry_count es) (encode_entries (encode format k) (encode format v) es)
    Fits _ _ = Unit

    pub FitsFields : Infos → Items → Type 0
    FitsFields (info t ts) (item v vs) = Fits t v × FitsFields ts vs
    FitsFields _ _ = Unit
