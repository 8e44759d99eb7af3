-- ===== src/TypeInfo/Encode.antt =====
-- The format, as a function from a value to its bytes: an independent description of what the
-- functions of `Save` write through a buffer.
use tssdgo.Prelude.{ℕ, ◌+◌, ◌*◌, List, [], ◌∷◌, ◌++◌, length}
use tssdgo.Wire.{negated, le2, le4}
use tssdgo.Wire.Code
use tssdgo.TypeInfo.{
  TypeInfo, simple, str, time, pointer, object, array, slice, merge_array, merge_slice, dict, Infos,
  no_infos, info, info_count, type_of, Value, bytes, text, instant, nil_pointer, pointee, fields,
  elements, nil_slice, items, raw, nil_map, entries, Items, no_items, item, Entries, no_entries,
  pair, item_count, entry_count,
}

-- A size in bytes, which counts what follows it, a number of parts, and the parts.
abbrev pub sized : ℕ → List ℕ → List ℕ
sized n body = le4 (2 + length body) ++ (le2 n ++ body)

abbrev pub string_bytes : List ℕ → List ℕ
string_bytes s = le4 (length s) ++ s

abbrev pub merged : ℕ → ℕ → ℕ → List ℕ → List ℕ
merged n t e bs = Code.arraym ∷ t ∷ (le4 (2 + e * n) ++ (le2 n ++ bs))

abbrev pub encode_items : (Value → List ℕ) → Items → List ℕ
encode_items one no_items = []
encode_items one (item v vs) = one v ++ encode_items one vs

abbrev pub encode_entries : (Value → List ℕ) → (Value → List ℕ) → Entries → List ℕ
encode_entries key val no_entries = []
encode_entries key val (pair k v es) =
    Code.dictk ∷ (key k ++ (Code.dictv ∷ (val v ++ encode_entries key val es)))

module _ (format : ℕ → List ℕ) where
  unfoldable mutual
    pub encode : TypeInfo → Value → List ℕ
    encode (simple t n) (bytes bs) = t ∷ bs
    encode str (text s) = Code.string ∷ string_bytes s
    encode time (instant t) = Code.time ∷ Code.string ∷ string_bytes (format t)
    encode (pointer t) nil_pointer = negated (type_of t) ∷ []
    encode (pointer t) (pointee v) = encode t v
    encode (object ts) (fields vs) = Code.object ∷ sized (info_count ts) (encode_fields ts vs)
    encode (array n e t) (elements vs) = Code.array ∷ sized n (encode_items (encode t) vs)
    encode (slice t) nil_slice = negated Code.array ∷ []
    encode (slice t) (items vs spare) =
        Code.array ∷ sized (item_count vs) (encode_items (encode t) vs)
    encode (merge_array n t e) (bytes bs) = merged n t e bs
    encode (merge_slice t e) nil_slice = negated Code.arraym ∷ []
    encode (merge_slice t e) (raw n bs spare) = merged n t e bs
    encode (dict k v) nil_map = negated Code.dict ∷ []
    encode (dict k v) (entries es) =
        Code.dict ∷ sized (entry_count es) (encode_entries (encode k) (encode v) es)
    encode _ _ = []

    pub encode_fields : Infos → Items → List ℕ
    encode_fields (info t ts) (item v vs) = encode t v ++ encode_fields ts vs
    encode_fields no_infos vs = []
    encode_fields _ _ = []
