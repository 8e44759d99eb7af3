-- ===== src/TypeInfo/RoundTrip.antt =====
-- What was written reads back.
use tssdgo.Prelude.{
  ℕ, suc, ◌+◌, ◌*◌, ◌<◌, ◌≡◌, ◌≢◌, refl, Option, some, List, [], ◌∷◌, ◌++◌, length, drop, replicate,
  length-replicate, append_assoc, arith, ne→==, ==_refl,
}
use tssdgo.Wire.{Result, ok, negated}
use tssdgo.Wire.Code
use tssdgo.Buffer.{Buffer}
use tssdgo.Buffer.Read.{first_byte}
use tssdgo.Buffer.Read.Stream.{Holds}
use tssdgo.Buffer.Read.Items.{Got, read_byte-Got, peek_byte-Got}
use tssdgo.TypeInfo.{
  TypeInfo, pointer, Infos, info_count, type_of, element_index, Value, nil_pointer, pointee, Items,
  no_items, item, Entries, pair, item_count, entry_count, append_items, repeat_item,
}
use tssdgo.TypeInfo.Lists.{
  item_at-append, set_item-append, append_items_one, append_items_none, item_count-append,
}
use tssdgo.TypeInfo.Typed.{
  FindsElements, Typed, is_simple, is_str, is_time, is_nil_pointer, is_pointee, is_object, is_array,
  is_nil_slice, is_slice, is_merge_array, is_nil_merge_slice, is_merge_slice, is_nil_map, is_map,
  TypedFields, no_fields, next_field, TypedItems, no_more_items, next_item, TypedEntries,
  no_more_entries, next_entry,
}
use tssdgo.TypeInfo.Encode.{encode, encode_fields, encode_items, encode_entries}
use tssdgo.TypeInfo.Fits.{AllItems, AllEntries, Fits, FitsFields}
use tssdgo.TypeInfo.Dump.{
  zero_value, zero_fields, slot, dump_items, dump_entries, dump, dump_fields, merge_slice_dump,
}
use tssdgo.TypeInfo.Dump.Parts.{
  mem_dump-Got, str_dump-Got, time_dump-Got, expect_byte-Got, sized-Got, merge_array_dump-Got,
  merge_slice_dump-Got,
}

-- Every typed value has bytes.
pub encode_pos :
    (format : ℕ → List ℕ) {t : TypeInfo} {v : Value} → Typed t v → 0 < length (encode format t v)
unfolding encode
encode_pos format (is_pointee h) = encode_pos format h
encode_pos format (is_simple p q r) = omega arith
encode_pos format is_str = omega arith
encode_pos format is_time = omega arith
encode_pos format is_nil_pointer = omega arith
encode_pos format (is_object h) = omega arith
encode_pos format (is_array f e h) = omega arith
encode_pos format is_nil_slice = omega arith
encode_pos format (is_slice f h) = omega arith
encode_pos format (is_merge_array h) = omega arith
encode_pos format is_nil_merge_slice = omega arith
encode_pos format (is_merge_slice h) = omega arith
encode_pos format is_nil_map = omega arith
encode_pos format (is_map h) = omega arith

-- One step of the loop over elements.
module _ (one : Buffer → Value → Result (Value × Buffer)) (at : ℕ → Option ℕ)
    (found : (i : ℕ) → at i ≡ some i) (us vs : Items) (z v : Value) (b b' : Buffer)
    (read_one : one b z ≡ ok (v, b')) where
  dump_items_step :
      (n : ℕ) (rest : List ℕ)
      → Got
          (dump_items one at n
            (item_count (append_items us (item v no_items)))
            (append_items (append_items us (item v no_items)) (repeat_item n z))
            b')
          (append_items (append_items us (item v no_items)) vs)
          rest
      → Got
          (dump_items one at (suc n) (item_count us) (append_items us (repeat_item (suc n) z)) b)
          (append_items us (item v vs))
          rest
  unfolding dump_items
  dump_items_step n rest (b2, r, h) =
      let count : item_count us + 1 ≡ item_count (append_items us (item v no_items)) =
        omega (arith, item_count-append us (item v no_items)) in
      (
        b2,
        rw
            (
              found (item_count us),
              item_at-append us z (repeat_item n z),
              slot,
              read_one,
              set_item-append us z v (repeat_item n z),
              count,
              append_items_one us v (repeat_item n z),
              append_items_one us v vs,
            )
            r,
        h,
      )

-- One key and its value, then the others.
dump_entries_step :
    (key val : Buffer → Result (Value × Buffer)) (n : ℕ) (k v : Value) (es : Entries) (b : Buffer)
    (xs ys zs rest : List ℕ)
    → Holds b (Code.dictk ∷ (xs ++ (Code.dictv ∷ (ys ++ (zs ++ rest)))))
    → ((b' : Buffer) (more : List ℕ) → Holds b' (xs ++ more) → Got (key b') k more)
    → ((b' : Buffer) (more : List ℕ) → Holds b' (ys ++ more) → Got (val b') v more)
    → ((b' : Buffer) → Holds b' (zs ++ rest) → Got (dump_entries key val n b') es rest)
    → Got (dump_entries key val (suc n) b) (pair k v es) rest
unfolding dump_entries
dump_entries_step key val n k v es b xs ys zs rest held on_key on_val on_rest =
    let (b1, r1, h1) = expect_byte-Got Code.dictk b _ held in
    let (b2, r2, h2) = on_key b1 _ h1 in
    let (b3, r3, h3) = expect_byte-Got Code.dictv b2 _ h2 in
    let (b4, r4, h4) = on_val b3 _ h3 in
    let (b5, r5, h5) = on_rest b4 h4 in (b5, rw (r1, r2, r3, r4, r5), h5)

-- A pointer to a value whose bytes `x ∷ xs` do not begin like those of a nil pointer.
dump_pointee :
    (parse : List ℕ → Option ℕ) (t : TypeInfo) (v : Value) (x : ℕ) (xs rest : List ℕ) (b : Buffer)
    → x ≢ negated (type_of t)
    → Holds b (x ∷ (xs ++ rest))
    → ((b' : Buffer) → Holds b' (x ∷ (xs ++ rest)) → Got (dump parse t b' (zero_value t)) v rest)
    → Got (dump parse (pointer t) b nil_pointer) (pointee v) rest
unfolding dump
dump_pointee parse t v x xs rest b ne held inner =
    let (b1, r1, h1) = peek_byte-Got b x (xs ++ rest) held in
    let (b2, r2, h2) = inner b1 h1 in (b2, rw (r1, ne→== x (negated (type_of t)) ne, r2), h2)

dump_nil_pointer :
    (parse : List ℕ → Option ℕ) (t : TypeInfo) (rest : List ℕ) (b : Buffer)
    → Holds b (negated (type_of t) ∷ rest)
    → Got (dump parse (pointer t) b nil_pointer) nil_pointer rest
unfolding dump
dump_nil_pointer parse t rest b held =
    let (b1, r1, h1) = peek_byte-Got b (negated (type_of t)) rest held in
    let (b2, r2, h2) = read_byte-Got b1 (negated (type_of t)) rest h1 in
    (b2, rw (r1, ==_refl (negated (type_of t)), r2), h2)

pub cons_of_pos : (xs : List ℕ) → 0 < length xs → xs ≡ first_byte xs ∷ drop 1 xs
cons_of_pos [] h = absurd (omega arith)
cons_of_pos (x ∷ xs) h = refl

module _ (format : ℕ → List ℕ) (parse : List ℕ → Option ℕ) where
  mutual
    unfolding dump encode zero_value Fits dump_items dump_entries merge_slice_dump

    -- `dump` reads back what `encode` describes, into a zero value.
    pub dump_lem :
        {t : TypeInfo} {v : Value}
        → Typed t v
        → Fits format parse t v
        → (b : Buffer) (rest : List ℕ) → Holds b (encode format t v ++ rest)
        → Got (dump parse t b (zero_value t)) v rest
    dump_lem (is_simple {t} {n} {bs} p q len) fits b rest held =
        mem_dump-Got t n b _ bs rest len held
    dump_lem (is_str {s}) fits b rest held = str_dump-Got b _ s rest fits held
    dump_lem (is_time {t}) fits b rest held =
        time_dump-Got parse b _ (format t) rest t fits.0 fits.1 held
    dump_lem (is_nil_pointer {t}) fits b rest held = dump_nil_pointer parse t rest b held
    dump_lem (is_pointee {t} {v} h) fits b rest held =
        let e = cons_of_pos (encode format t v) (encode_pos format h) in
        dump_pointee parse t v _ (drop 1 (encode format t v)) rest b fits.1 (rw e at held)
          (λ b' held'. dump_lem h fits.0 b' rest (rw e held'))
    dump_lem (is_object {ts} {vs} h) fits b rest held =
        let (b1, r1, h1) = read_byte-Got b Code.object _ held in
        let (b2, r2, h2) =
          sized-Got b1 (info_count ts) (encode_fields format ts vs) rest fits.1 h1 in
        let (b3, r3, h3) = dump_fields_lem h fits.0 b2 rest h2 in
        (b3, rw (r1, r2, ==_refl (info_count ts), r3), h3)
    dump_lem (is_array {n = n} {t = t} {vs = vs} found e h) fits b rest held =
        let (b1, r1, h1) = read_byte-Got b Code.array _ held in
        let (b2, r2, h2) = sized-Got b1 n (encode_items (encode format t) vs) rest fits.1 h1 in
        let (b3, r3, h3) = dump_items_lem h found fits.0 no_items b2 rest h2 in
        (b3, rw (r1, r2, ← e, r3), h3)
    dump_lem is_nil_slice fits b rest held =
        let (b1, r1, h1) = read_byte-Got b (negated Code.array) rest held in (b1, rw r1, h1)
    dump_lem (is_slice {t} {vs} {spare} found h) fits b rest held =
        let (b1, r1, h1) = read_byte-Got b Code.array _ held in
        let (b2, r2, h2) =
          sized-Got b1 (item_count vs) (encode_items (encode format t) vs) rest fits.1 h1 in
        let (b3, r3, h3) = dump_items_lem h found fits.0 no_items b2 rest h2 in
        (b3, rw (r1, r2, r3, fits.2), h3)
    dump_lem (is_merge_array {n} {t} {e} {bs} len) fits b rest held =
        merge_array_dump-Got n t e b bs rest fits len held (replicate (e * n) 0)
          (length-replicate {A = ℕ} (e * n) 0)
    dump_lem is_nil_merge_slice fits b rest held =
        let (b1, r1, h1) = read_byte-Got b (negated Code.arraym) rest held in
        (b1, rw (r1, merge_slice_dump), h1)
    dump_lem (is_merge_slice {n} {t} {e} {bs} len) fits b rest held =
        rw fits.1 (merge_slice_dump-Got n t e b bs rest fits.0 len held)
    dump_lem is_nil_map fits b rest held =
        let (b1, r1, h1) = read_byte-Got b (negated Code.dict) rest held in (b1, rw r1, h1)
    dump_lem (is_map {k} {v} {es} h) fits b rest held =
        let (b1, r1, h1) = read_byte-Got b Code.dict _ held in
        let (b2, r2, h2) =
          sized-Got b1 (entry_count es) (encode_entries (encode format k) (encode format v) es) rest
            fits.1 h1 in
        let (b3, r3, h3) = dump_entries_lem h fits.0 b2 rest h2 in (b3, rw (r1, r2, r3), h3)

    dump_fields_lem :
        {ts : Infos} {vs : Items}
        → TypedFields ts vs
        → FitsFields format parse ts vs
        → (b : Buffer) (rest : List ℕ) → Holds b (encode_fields format ts vs ++ rest)
        → Got (dump_fields parse ts (zero_fields ts) b) vs rest
    dump_fields_lem no_fields fits b rest held = (b, refl, held)
    dump_fields_lem (next_field {t} {ts} {v} {vs} h hs) fits b rest held =
        let (b1, r1, h1) =
          dump_lem h fits.0 b (encode_fields format ts vs ++ rest) (rw append_assoc at held) in
        let (b2, r2, h2) = dump_fields_lem hs fits.1 b1 rest h1 in (b2, rw (r1, r2), h2)

    dump_items_lem :
        {t : TypeInfo} {vs : Items}
        → TypedItems t vs
        → FindsElements t
        → AllItems (Fits format parse t) vs
        → (us : Items) (b : Buffer) (rest : List ℕ)
        → Holds b (encode_items (encode format t) vs ++ rest)
        → Got
            (dump_items
              (dump parse t)
              (element_index t)
              (item_count vs)
              (item_count us)
              (append_items us (repeat_item (item_count vs) (zero_value t)))
              b)
            (append_items us vs)
            rest
    dump_items_lem no_more_items found fits us b rest held = (b, rw append_items_none, held)
    dump_items_lem (next_item {t} {v} {vs} h hs) found fits us b rest held =
        let (b1, r1, h1) =
          dump_lem h fits.0 b (encode_items (encode format t) vs ++ rest)
            (rw append_assoc at held) in
        dump_items_step (dump parse t) (element_index t) found us vs (zero_value t) v b b1 r1
          (item_count vs) rest
          (dump_items_lem hs found fits.1 (append_items us (item v no_items)) b1 rest h1)

    pub dump_entries_lem :
        {k v : TypeInfo} {es : Entries}
        → TypedEntries k v es
        → AllEntries (Fits format parse k) (Fits format parse v) es
        → (b : Buffer) (rest : List ℕ)
        → Holds b (encode_entries (encode format k) (encode format v) es ++ rest)
        → Got
            (dump_entries
              (λ b'. dump parse k b' (zero_value k))
              (λ b'. dump parse v b' (zero_value v))
              (entry_count es)
              b)
            es
            rest
    dump_entries_lem no_more_entries fits b rest held = (b, refl, held)
    dump_entries_lem (next_entry {k} {v} {x} {y} {es} hk hv hs) fits b rest held =
        dump_entries_step _ _ (entry_count es) x y es b (encode format k x) (encode format v y)
          (encode_entries (encode format k) (encode format v) es) rest (simp append_assoc at held)
          (λ b' more. dump_lem hk fits.0 b' more) (λ b' more. dump_lem hv fits.1 b' more)
          (λ b'. dump_entries_lem hs fits.2 b' rest)

-- From any buffer whose unread bytes begin with the bytes of a typed value that the format can carry
-- (`Fits`: counts below 2 ^ 15, sizes below 2 ^ 31, no pointer to a nil, nothing behind the length of
-- a slice, times that their text determines), however they are cut into fragments, `dump` into a zero value gives that value, and leaves exactly the bytes behind.
pub dump-encode :
    (format : ℕ → List ℕ) (parse : List ℕ → Option ℕ) (t : TypeInfo) (v : Value) (b : Buffer)
    (rest : List ℕ)
    → Typed t v
    → Fits format parse t v
    → Holds b (encode format t v ++ rest)
    → (b' : Buffer) × (dump parse t b (zero_value t) ≡ ok (v, b')) × Holds b' rest
dump-encode format parse t v b rest typed fits held = dump_lem format parse typed fits b rest held
