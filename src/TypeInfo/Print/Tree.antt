-- ===== src/TypeInfo/Print/Tree.antt =====
-- The tree that the bytes of a value are printed as, from the value.
use tssdgo.Prelude.{
  ℕ, zero, suc, ◌+◌, ◌*◌, ◌≡◌, Option, some, List, [], ◌∷◌, length, take, drop, true, pos,
}
use tssdgo.Wire.Code
use tssdgo.TypeInfo.{
  TypeInfo, simple, str, time, pointer, object, array, slice, merge_array, merge_slice, dict, Infos,
  info, info_count, Value, bytes, fields, elements, nil_slice, items, raw, nil_map, entries, Items,
  no_items, item, Entries, no_entries, pair, item_count, entry_count,
}
use tssdgo.TypeInfo.Encode.{encode, encode_fields, encode_items, encode_entries}
use tssdgo.TypeInfo.Fits.{AllItems, AllEntries}
use tssdgo.TypeInfo.Print.{
  blank, scalar, counted, listed, numbered, Node, node, Nodes, no_nodes, next_node, width_of,
}

-- The elements of a merged array, `e` bytes each.
abbrev pub chunks : ℕ → ℕ → List ℕ → List (Option (List ℕ))
chunks e zero bs = []
chunks e (suc n) bs = some (take e bs) ∷ chunks e n (drop e bs)

abbrev pub tree_items : (Value → Node) → Items → Nodes
tree_items one no_items = no_nodes
tree_items one (item v vs) = next_node (one v) (tree_items one vs)

abbrev pub tree_entries : (Value → Node) → (Value → Node) → ℕ → Entries → Nodes
tree_entries key val k no_entries = no_nodes
tree_entries key val k (pair x y es) =
    next_node (node (numbered k) (next_node (key x) (next_node (val y) no_nodes)))
      (tree_entries key val (suc k) es)

-- A counted part of a tree.
abbrev pub over : ℕ → ℕ → List ℕ → Nodes → Node
over t n body ns = node (counted t (pos (2 + length body)) (pos n)) ns

abbrev pub merged_node : ℕ → ℕ → ℕ → List ℕ → Node
merged_node n t e bs = node (listed (pos (2 + e * n)) (pos n) t (chunks e n bs) true) no_nodes

module _ (format : ℕ → List ℕ) where
  -- The tree of a value.
  unfoldable mutual
    pub tree : TypeInfo → Value → Node
    tree (simple t n) v = node (scalar t v) no_nodes
    tree str v = node (scalar Code.string v) no_nodes
    tree time v = node (scalar Code.time v) no_nodes
    tree (object ts) (fields vs) =
        over Code.object (info_count ts) (encode_fields format ts vs) (tree_fields ts vs)
    tree (array n e t) (elements vs) =
        over Code.array n (encode_items (encode format t) vs) (tree_items (tree t) vs)
    tree (slice t) (items vs spare) =
        over Code.array (item_count vs) (encode_items (encode format t) vs) (tree_items (tree t) vs)
    tree (merge_array n t e) (bytes bs) = merged_node n t e bs
    tree (merge_slice t e) (raw n bs spare) = merged_node n t e bs
    tree (dict k v) (entries es) =
        over Code.dict (entry_count es) (encode_entries (encode format k) (encode format v) es)
          (tree_entries (tree k) (tree v) 0 es)
    tree _ _ = node blank no_nodes

    pub tree_fields : Infos → Items → Nodes
    tree_fields (info t ts) (item v vs) = next_node (tree t v) (tree_fields ts vs)
    tree_fields _ _ = no_nodes

-- No pointer and nil_of_empty that is nil, and the fixed-length types are those of `toTSSDType`.
unfoldable mutual
  pub Printable : TypeInfo → Value → Type 0
  Printable (simple t n) v = width_of t ≡ some n
  Printable (pointer t) v = ⊥
  Printable (object ts) (fields vs) = PrintableFields ts vs
  Printable (array n e t) (elements vs) = AllItems (Printable t) vs
  Printable (slice t) nil_slice = ⊥
  Printable (slice t) (items vs spare) = AllItems (Printable t) vs
  Printable (merge_array n t e) v = width_of t ≡ some e
  Printable (merge_slice t e) nil_slice = ⊥
  Printable (merge_slice t e) v = width_of t ≡ some e
  Printable (dict k v) nil_map = ⊥
  Printable (dict k v) (entries es) = AllEntries (Printable k) (Printable v) es
  Printable _ _ = Unit {0}

  pub PrintableFields : Infos → Items → Type 0
  PrintableFields (info t ts) (item v vs) = Printable t v × PrintableFields ts vs
  PrintableFields _ _ = Unit {0}
