-- ===== src/Registry/Print.antt =====
-- tssd/print.go: `Print` and `factory.print`, up to the tree that is printed; and what they show of a
-- buffer that `Marshal` has written.
use tssdgo.Prelude.{ℕ, zero, suc, Option, none, some, List, [], ◌∷◌}
use tssdgo.Wire.{Result, ok, err, ◌>>=◌, schema_unmatch}
use tssdgo.Fragment.{Fragment}
use tssdgo.Buffer.{Buffer, entry}
use tssdgo.TypeInfo.Print.{
  Node, node, next_node, append_nodes, leaf, root, heading, magic_text, version_text, schema_text,
  print_parse,
}
use tssdgo.Registry.{Flatable, lookup_key, Factory, Registers}

abbrev pub byte_of : List ℕ → ℕ → ℕ
byte_of [] i = 0
byte_of (x ∷ xs) zero = x
byte_of (x ∷ xs) (suc i) = byte_of xs i

-- What is shown of the header and the schema of a fragment.
abbrev pub header_node : Fragment → Node
header_node f = node heading (
    append_nodes (leaf (magic_text f.header.magic_bytes)) (
      append_nodes (leaf (version_text (byte_of f.header.version 1) (byte_of f.header.version 0)))
        (leaf (schema_text f.schema.types f.schema.tid f.schema.fid f.schema.info))))

module _ (flatable : Flatable) (parse : List ℕ → Option ℕ) where
  -- `factory.print`: an error of `parse` is dropped, and the nodes so far are printed.
  unfoldable pub factory_print : Factory flatable → List ℕ → Buffer → Result Node
  factory_print f version b = elim (lookup_key version f.versions) [
    | none ↦ err schema_unmatch
    | some bi ↦ entry b 0 >>= λ first. print_parse parse bi.info b >>= λ (ns, end).
        ok (node root (next_node (header_node first) ns))
  ]

  -- `Print`, of a copy of the buffer.
  unfoldable pub flat_print : Registers flatable → flatable.Object → Buffer → Result Node
  flat_print r flat b = elim (lookup_key (flatable.family flat) r.families) [
    | none ↦ err schema_unmatch
    | some f ↦ factory_print f (flatable.version flat) b
  ]
