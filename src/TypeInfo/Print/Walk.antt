-- ===== src/TypeInfo/Print/Walk.antt =====
-- Printing walks the bytes of a value as they were written.
use tssdgo.Prelude.{ℕ, suc, ◌≡◌, refl, Option, List, [], ◌∷◌, ◌++◌, drop, append_assoc}
use tssdgo.Wire.Code
use tssdgo.Buffer.{Buffer}
use tssdgo.Buffer.Read.Stream.{Holds}
use tssdgo.Buffer.Read.Items.{read_byte-Got}
use tssdgo.TypeInfo.{
  TypeInfo, simple, Infos, info_count, type_of, Value, text, instant, Items, Entries, item_count,
  entry_count,
}
use tssdgo.TypeInfo.Typed.{
  Typed, is_simple, is_str, is_time, is_nil_pointer, is_pointee, is_object, is_array, is_nil_slice,
  is_slice, is_merge_array, is_nil_merge_slice, is_merge_slice, is_nil_map, is_map, TypedFields,
  no_fields, next_field, TypedItems, no_more_items, next_item, TypedEntries, no_more_entries,
  next_entry,
}
use tssdgo.TypeInfo.Encode.{encode, encode_fields, encode_items, encode_entries}
use tssdgo.TypeInfo.Fits.{AllItems, AllEntries, Fits, FitsFields}
use tssdgo.TypeInfo.Dump.{zero_value}
use tssdgo.TypeInfo.Dump.Parts.{mem_dump-Got, str_dump-Got, time_dump-Got}
use tssdgo.TypeInfo.Print.{
  no_nodes, next_node, attempt, opened, print_items, print_entries, print_body, print_fields,
}
use tssdgo.TypeInfo.Print.Tree.{
  tree_items, tree_entries, tree, tree_fields, Printable, PrintableFields,
}
use tssdgo.TypeInfo.Print.Steps.{Prints, opened-Prints, with_sizes-Prints, print_merged-Prints}

module _ (format : ℕ → List ℕ) (parse : List ℕ → Option ℕ) where
  code_first :
      {t : TypeInfo} {v : Value}
      → Typed t v
      → Printable t v
      → encode format t v ≡ type_of t ∷ drop 1 (encode format t v)
  unfolding encode Printable
  code_first (is_pointee h) plain = elim plain [ ]
  code_first (is_simple p q r) plain = refl
  code_first is_str plain = refl
  code_first is_time plain = refl
  code_first is_nil_pointer plain = elim plain [ ]
  code_first (is_object h) plain = refl
  code_first (is_array f e h) plain = refl
  code_first is_nil_slice plain = elim plain [ ]
  code_first (is_slice f h) plain = refl
  code_first (is_merge_array h) plain = refl
  code_first is_nil_merge_slice plain = elim plain [ ]
  code_first (is_merge_slice h) plain = refl
  code_first is_nil_map plain = elim plain [ ]
  code_first (is_map h) plain = refl

  -- The comparison, and then the body.
  print_lem :
      {t : TypeInfo} {v : Value}
      → Typed t v
      → Printable t v
      → (b : Buffer) (rest : List ℕ) → Holds b (encode format t v ++ rest)
      → ((b' : Buffer)
          → Holds b' (encode format t v ++ rest)
          → Prints (print_body parse t b') (next_node (tree format t v) no_nodes) rest)
      → Prints
          (opened (type_of t) (print_body parse t) b)
          (next_node (tree format t v) no_nodes)
          rest
  print_lem {t} {v} h plain b rest held body =
      let e = code_first h plain in
      opened-Prints (type_of t) (print_body parse t) b (drop 1 (encode format t v) ++ rest) _ rest
        (rw e at held) (λ b' held'. body b' (rw e held'))

  mutual
    unfolding print_body print_items print_entries encode tree Fits Printable

    -- `parse` behind the comparison of the code.
    body_lem :
        {t : TypeInfo} {v : Value}
        → Typed t v
        → Fits format parse t v
        → Printable t v
        → (b : Buffer) (rest : List ℕ) → Holds b (encode format t v ++ rest)
        → Prints (print_body parse t b) (next_node (tree format t v) no_nodes) rest
    body_lem (is_simple {t} {n} {bs} p q len) fits known b rest held =
        let (b1, r1, h1) = mem_dump-Got t n b (zero_value (simple t n)) bs rest len held in
        (b1, rw (print_body, known, r1, attempt), h1)
    body_lem (is_str {s}) fits plain b rest held =
        let (b1, r1, h1) = str_dump-Got b (text []) s rest fits held in (b1, rw (r1, attempt), h1)
    body_lem (is_time {t}) fits plain b rest held =
        let (b1, r1, h1) = time_dump-Got parse b (instant 0) (format t) rest t fits.0 fits.1 held in
        (b1, rw (r1, attempt), h1)
    body_lem (is_nil_pointer {t}) fits plain b rest held = elim plain [ ]
    body_lem (is_pointee {t} {v} h) fits plain b rest held = elim plain [ ]
    body_lem (is_object {ts} {vs} h) fits plain b rest held =
        with_sizes-Prints _ b Code.object (info_count ts) (encode_fields format ts vs) rest _ rest
          fits.1 held
          λ b1 held1. let (b2, r2, h2) = fields_lem h fits.0 plain b1 rest held1 in (b2, rw r2, h2)
    body_lem (is_array {n = n} {t = t} {vs = vs} found e h) fits plain b rest held =
        with_sizes-Prints _ b Code.array n (encode_items (encode format t) vs) rest _ rest fits.1
          held
          λ b1 held1.
            let (b2, r2, h2) = items_lem h fits.0 plain b1 rest held1 in (b2, rw (← e, r2), h2)
    body_lem is_nil_slice fits plain b rest held = elim plain [ ]
    body_lem (is_slice {t} {vs} {spare} found h) fits plain b rest held =
        with_sizes-Prints _ b Code.array (item_count vs) (encode_items (encode format t) vs) rest _
          rest fits.1 held
          λ b1 held1. let (b2, r2, h2) = items_lem h fits.0 plain b1 rest held1 in (b2, rw r2, h2)
    body_lem (is_merge_array {n} {t} {e} {bs} len) fits known b rest held =
        print_merged-Prints n t e b bs rest fits known len held
    body_lem is_nil_merge_slice fits plain b rest held = elim plain [ ]
    body_lem (is_merge_slice {n} {t} {e} {bs} {spare} len) fits known b rest held =
        print_merged-Prints n t e b bs rest fits.0 known len held
    body_lem is_nil_map fits plain b rest held = elim plain [ ]
    body_lem (is_map {k} {v} {es} h) fits plain b rest held =
        with_sizes-Prints _ b Code.dict (entry_count es)
          (encode_entries (encode format k) (encode format v) es) rest _ rest fits.1 held
          λ b1 held1.
            let (b2, r2, h2) = entries_lem h fits.0 plain 0 b1 rest held1 in (b2, rw r2, h2)

    fields_lem :
        {ts : Infos} {vs : Items}
        → TypedFields ts vs
        → FitsFields format parse ts vs
        → PrintableFields ts vs
        → (b : Buffer) (rest : List ℕ) → Holds b (encode_fields format ts vs ++ rest)
        → Prints (print_fields parse ts (info_count ts) b) (tree_fields format ts vs) rest
    fields_lem no_fields fits plain b rest held = (b, refl, held)
    fields_lem (next_field {t} {ts} {v} {vs} h hs) fits plain b rest held =
        let (b1, r1, h1) =
          print_lem h plain.0 b (encode_fields format ts vs ++ rest) (rw append_assoc at held)
            (λ b' held'. body_lem h fits.0 plain.0 b' _ held') in
        let (b2, r2, h2) = fields_lem hs fits.1 plain.1 b1 rest h1 in (b2, rw (r1, r2), h2)

    items_lem :
        {t : TypeInfo} {vs : Items}
        → TypedItems t vs
        → AllItems (Fits format parse t) vs
        → AllItems (Printable t) vs
        → (b : Buffer) (rest : List ℕ) → Holds b (encode_items (encode format t) vs ++ rest)
        → Prints
            (print_items (opened (type_of t) (print_body parse t)) (item_count vs) b)
            (tree_items (tree format t) vs)
            rest
    items_lem no_more_items fits plain b rest held = (b, refl, held)
    items_lem (next_item {t} {v} {vs} h hs) fits plain b rest held =
        let (b1, r1, h1) =
          print_lem h plain.0 b (encode_items (encode format t) vs ++ rest)
            (rw append_assoc at held) (λ b' held'. body_lem h fits.0 plain.0 b' _ held') in
        let (b2, r2, h2) = items_lem hs fits.1 plain.1 b1 rest h1 in (b2, rw (r1, r2), h2)

    entries_lem :
        {k v : TypeInfo} {es : Entries}
        → TypedEntries k v es
        → AllEntries (Fits format parse k) (Fits format parse v) es
        → AllEntries (Printable k) (Printable v) es
        → (i : ℕ) (b : Buffer) (rest : List ℕ)
        → Holds b (encode_entries (encode format k) (encode format v) es ++ rest)
        → Prints
            (print_entries
              (opened (type_of k) (print_body parse k))
              (opened (type_of v) (print_body parse v))
              i
              (entry_count es)
              b)
            (tree_entries (tree format k) (tree format v) i es)
            rest
    entries_lem no_more_entries fits plain i b rest held = (b, refl, held)
    entries_lem (next_entry {k} {v} {x} {y} {es} hk hv hs) fits plain i b rest held =
        let front = simp append_assoc at held in
        let (b1, r1, h1) = read_byte-Got b Code.dictk _ front in
        let (b2, r2, h2) =
          print_lem hk plain.0 b1 _ h1 (λ b' held'. body_lem hk fits.0 plain.0 b' _ held') in
        let (b3, r3, h3) = read_byte-Got b2 Code.dictv _ h2 in
        let (b4, r4, h4) =
          print_lem hv plain.1 b3 _ h3 (λ b' held'. body_lem hv fits.1 plain.1 b' _ held') in
        let (b5, r5, h5) = entries_lem hs fits.2 plain.2 (suc i) b4 rest h4 in
        (b5, rw (r1, attempt, r2, r3, attempt, r4, r5), h5)
