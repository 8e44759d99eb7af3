-- ===== src/TypeInfo/MapDump/RoundTrip.antt =====
-- What was written for a map reads back by the mapDump functions, but for what is nil or empty.
use tssdgo.Prelude.{
  ℕ, zero, suc, ◌+◌, ◌*◌, ◌<◌, ◌≡◌, refl, Option, some, List, [], ◌∷◌, ◌++◌, length, take, drop,
  true, replicate, length-replicate, length-append, nil_of_empty, take-append-drop, length-take,
  length-drop, append_assoc, arith, ==_refl, le→leb, pos,
}
use tssdgo.Wire.{Result, ok, le2, le4}
use tssdgo.Wire.Code
use tssdgo.Buffer.{Buffer}
use tssdgo.Buffer.Read.Stream.{Holds}
use tssdgo.Buffer.Read.Items.{Got, read_byte-Got, read-Got, check_dump_size-Got}
use tssdgo.TypeInfo.{
  TypeInfo, simple, Infos, info_count, Value, bytes, text, instant, nil_pointer, pointee, fields,
  elements, nil_slice, items, raw, nil_map, entries, Items, no_items, item, item_count, entry_count,
  repeat_item,
}
use tssdgo.TypeInfo.Typed.{
  Typed, is_simple, is_str, is_time, is_nil_pointer, is_pointee, is_object, is_array, is_nil_slice,
  is_slice, is_merge_array, is_nil_merge_slice, is_merge_slice, is_nil_map, is_map, TypedFields,
  no_fields, next_field, TypedItems, no_more_items, next_item,
}
use tssdgo.TypeInfo.Encode.{merged, encode, encode_fields, encode_items, encode_entries}
use tssdgo.TypeInfo.Fits.{AllItems, FitsSized, Fits, FitsFields}
use tssdgo.TypeInfo.Dump.{zero_value}
use tssdgo.TypeInfo.Dump.Parts.{mem_dump-Got, str_dump-Got, time_dump-Got, sized-Got, read_or-Got}
use tssdgo.TypeInfo.RoundTrip.{dump_lem, dump_entries_lem}
use tssdgo.TypeInfo.MapDump.{
  map_dump_items, map_merge_dump_items, made, made_raw, map_merge_head, map_merge_array_dump,
  map_merge_slice_dump, map_dump, map_dump_fields,
}

-- Two values that differ at most in what lies behind the length of slices.
mutual
  pub data Alike : Value → Value → Type 0 where
    itself : {v : Value} → Alike v v
    alike_fields : {us vs : Items} → AlikeItems us vs → Alike (fields us) (fields vs)
    alike_elements : {us vs : Items} → AlikeItems us vs → Alike (elements us) (elements vs)
    alike_items :
        {us vs spare room : Items} → AlikeItems us vs → Alike (items us room) (items vs spare)
    alike_raw : {n : ℕ} {bs spare room : List ℕ} → Alike (raw n bs room) (raw n bs spare)

  pub data AlikeItems : Items → Items → Type 0 where
    alike_none : AlikeItems no_items no_items
    alike_item :
        {u v : Value} {us vs : Items}
        → Alike u v
        → AlikeItems us vs
        → AlikeItems (item u us) (item v vs)

-- No nil, and no empty slice, but inside a map or behind a pointer.
unfoldable mutual
  pub Plain : Value → Type 0
  Plain nil_pointer = ⊥
  Plain nil_slice = ⊥
  Plain nil_map = ⊥
  Plain (raw n bs spare) = 0 < n
  Plain (items vs spare) = (0 < item_count vs) × PlainItems vs
  Plain (fields vs) = PlainItems vs
  Plain (elements vs) = PlainItems vs
  Plain _ = Unit {0}

  pub PlainItems : Items → Type 0
  PlainItems no_items = Unit {0}
  PlainItems (item v vs) = Plain v × PlainItems vs

-- The call brings a value like `v`, and the unread bytes are then `rest`.
abbrev pub Brings : Result (Option Value × Buffer) → Value → List ℕ → Type 0
Brings r v rest = (w : Value) × Alike w v × Got r (some w) rest

made_some : (n : ℕ) (vs spare : Items) → 0 < n → made n vs spare ≡ items vs spare
made_some zero vs spare h = absurd (omega arith)
made_some (suc n) vs spare h = refl

made_raw_some : (n : ℕ) (bs spare : List ℕ) → 0 < n → made_raw n bs spare ≡ raw n bs spare
made_raw_some zero bs spare h = absurd (omega arith)
made_raw_some (suc n) bs spare h = refl

map_merge_dump_items-Got :
    (e n : ℕ) (old : List ℕ) (b : Buffer) (bs rest : List ℕ)
    → length bs ≡ e * n
    → length old ≡ e * n
    → Holds b (bs ++ rest)
    → Got (map_merge_dump_items e n old b) bs rest
unfolding map_merge_dump_items
map_merge_dump_items-Got e zero old b bs rest len o held = (
  b,
  rw (nil_of_empty old (omega arith), nil_of_empty bs (omega arith)),
  rw (nil_of_empty bs (omega arith)) at held,
)
map_merge_dump_items-Got e (suc n) old b bs rest len o held =
    let cut = take-append-drop e bs in
    let (b1, r1, h1) =
      read_or-Got (replicate e 0) b (take e bs) (drop e bs ++ rest) e
        (omega (arith, length-take e bs)) (rw (← cut, append_assoc) at held) in
    let (b2, r2, h2) =
      map_merge_dump_items-Got e n (drop e old) b1 (drop e bs) rest
        (omega (arith, length-drop e bs)) (omega (arith, length-drop e old)) h1 in
    (b2, rw (r1, le→leb e (length old) (omega arith), r2, cut), h2)

module _ (n t e : ℕ) (b : Buffer) (bs rest : List ℕ) (fits : FitsSized n bs)
    (len : length bs ≡ e * n) (front : Holds b (merged n t e bs ++ rest)) where
  map_merge_head-Got : Got (map_merge_head t b) (some (pos n)) (bs ++ rest)
  unfolding map_merge_head
  map_merge_head-Got =
      let (b1, r1, h1) =
        read-Got b (Code.arraym ∷ t ∷ []) (le4 (2 + e * n) ++ (le2 n ++ (bs ++ rest))) front in
      let (b2, r2, h2) =
        check_dump_size-Got b1 (2 + e * n) n (bs ++ rest) (omega (arith, fits, len)) fits.0
          (omega (arith, len, length-append bs rest)) h1 in
      (b2, rw (r1, ==_refl t, r2), h2)

  map_merge_array_dump-Got :
      (parse : List ℕ → Option ℕ) (room : TypeInfo → ℕ → ℕ)
      → Got (map_merge_array_dump parse room true n t e b) (some (bytes bs)) rest
  unfolding map_merge_array_dump
  map_merge_array_dump-Got parse room =
      let (b1, r1, h1) = map_merge_head-Got in
      let (b2, r2, h2) =
        map_merge_dump_items-Got e n (replicate (e * n) 0) b1 bs rest len
          (length-replicate {A = ℕ} (e * n) 0) h1 in
      (b2, rw (r1, r2), h2)

  map_merge_slice_dump-Brings :
      (parse : List ℕ → Option ℕ) (room : TypeInfo → ℕ → ℕ) (spare : List ℕ)
      → 0 < n
      → Brings (map_merge_slice_dump parse room true t e b) (raw n bs spare) rest
  unfolding map_merge_slice_dump
  map_merge_slice_dump-Brings parse room spare some_items =
      let (b1, r1, h1) = map_merge_head-Got in
      let (b2, r2, h2) =
        map_merge_dump_items-Got e n (replicate (e * n) 0) b1 bs rest len
          (length-replicate {A = ℕ} (e * n) 0) h1 in
      let behind = replicate (e * room (simple t e) n) 0 in
      (raw n bs behind, alike_raw, (b2, rw (r1, r2, made_raw_some n bs behind some_items), h2))

module _ (format : ℕ → List ℕ) (parse : List ℕ → Option ℕ) (room : TypeInfo → ℕ → ℕ) where
  mutual
    unfolding map_dump map_dump_items encode Fits Plain

    map_dump_lem :
        {t : TypeInfo} {v : Value}
        → Typed t v
        → Fits format parse t v
        → Plain v
        → (b : Buffer) (rest : List ℕ) → Holds b (encode format t v ++ rest)
        → Brings (map_dump parse room true t b) v rest
    map_dump_lem (is_simple {t} {n} {bs} p q len) fits plain b rest held =
        let (b1, r1, h1) = mem_dump-Got t n b (zero_value (simple t n)) bs rest len held in
        (bytes bs, itself, (b1, rw r1, h1))
    map_dump_lem (is_str {s}) fits plain b rest held =
        let (b1, r1, h1) = str_dump-Got b (text []) s rest fits held in
        (text s, itself, (b1, rw r1, h1))
    map_dump_lem (is_time {t}) fits plain b rest held =
        let (b1, r1, h1) = time_dump-Got parse b (instant 0) (format t) rest t fits.0 fits.1 held in
        (instant t, itself, (b1, rw r1, h1))
    map_dump_lem (is_nil_pointer {t}) fits plain b rest held = elim plain [ ]
    map_dump_lem (is_pointee {t} {v} h) fits plain b rest held =
        let (b1, r1, h1) = dump_lem format parse h fits.0 b rest held in
        (pointee v, itself, (b1, rw r1, h1))
    map_dump_lem (is_object {ts} {vs} h) fits plain b rest held =
        let (b1, r1, h1) = read_byte-Got b Code.object _ held in
        let (b2, r2, h2) =
          sized-Got b1 (info_count ts) (encode_fields format ts vs) rest fits.1 h1 in
        let (ws, like, (b3, r3, h3)) = map_dump_fields_lem h fits.0 plain b2 rest h2 in
        (fields ws, alike_fields like, (b3, rw (r1, r2, ==_refl (info_count ts), r3), h3))
    map_dump_lem (is_array {n = n} {t = t} {vs = vs} found e h) fits plain b rest held =
        let (b1, r1, h1) = read_byte-Got b Code.array _ held in
        let (b2, r2, h2) = sized-Got b1 n (encode_items (encode format t) vs) rest fits.1 h1 in
        let (ws, like, (b3, r3, h3)) = map_dump_items_lem h fits.0 plain b2 rest h2 in
        (elements ws, alike_elements like, (b3, rw (r1, r2, ← e, r3), h3))
    map_dump_lem is_nil_slice fits plain b rest held = elim plain [ ]
    map_dump_lem (is_slice {t} {vs} {spare} found h) fits plain b rest held =
        let (b1, r1, h1) = read_byte-Got b Code.array _ held in
        let (b2, r2, h2) =
          sized-Got b1 (item_count vs) (encode_items (encode format t) vs) rest fits.1 h1 in
        let (ws, like, (b3, r3, h3)) = map_dump_items_lem h fits.0 plain.1 b2 rest h2 in
        (
          items ws (repeat_item (room t (item_count vs)) (zero_value t)),
          alike_items like,
          (b3, rw (r1, r2, r3, made_some (item_count vs) ws _ plain.0), h3),
        )
    map_dump_lem (is_merge_array {n} {t} {e} {bs} len) fits plain b rest held =
        (bytes bs, itself, map_merge_array_dump-Got n t e b bs rest fits len held parse room)
    map_dump_lem is_nil_merge_slice fits plain b rest held = elim plain [ ]
    map_dump_lem (is_merge_slice {n} {t} {e} {bs} {spare} len) fits plain b rest held =
        map_merge_slice_dump-Brings n t e b bs rest fits.0 len held parse room spare plain
    map_dump_lem is_nil_map fits plain b rest held = elim plain [ ]
    map_dump_lem (is_map {k} {v} {es} h) fits plain b rest held =
        let (b1, r1, h1) = read_byte-Got b Code.dict _ held in
        let (b2, r2, h2) =
          sized-Got b1 (entry_count es) (encode_entries (encode format k) (encode format v) es) rest
            fits.1 h1 in
        let (b3, r3, h3) = dump_entries_lem format parse h fits.0 b2 rest h2 in
        (entries es, itself, (b3, rw (r1, r2, r3), h3))

    map_dump_fields_lem :
        {ts : Infos} {vs : Items}
        → TypedFields ts vs
        → FitsFields format parse ts vs
        → PlainItems vs
        → (b : Buffer) (rest : List ℕ) → Holds b (encode_fields format ts vs ++ rest)
        → (ws : Items) × AlikeItems ws vs × Got (map_dump_fields parse room true ts b) ws rest
    map_dump_fields_lem no_fields fits plain b rest held = (_, alike_none, (b, refl, held))
    map_dump_fields_lem (next_field {t} {ts} {v} {vs} h hs) fits plain b rest held =
        let (w, like, (b1, r1, h1)) =
          map_dump_lem h fits.0 plain.0 b (encode_fields format ts vs ++ rest)
            (rw append_assoc at held) in
        let (ws, likes, (b2, r2, h2)) = map_dump_fields_lem hs fits.1 plain.1 b1 rest h1 in
        (item w ws, alike_item like likes, (b2, rw (r1, r2), h2))

    map_dump_items_lem :
        {t : TypeInfo} {vs : Items}
        → TypedItems t vs
        → AllItems (Fits format parse t) vs
        → PlainItems vs
        → (b : Buffer) (rest : List ℕ) → Holds b (encode_items (encode format t) vs ++ rest)
        → (ws : Items) × AlikeItems ws vs
          × Got
              (map_dump_items true
                (map_dump parse room true t)
                (item_count vs)
                (repeat_item (item_count vs) (zero_value t))
                b)
              ws
              rest
    map_dump_items_lem no_more_items fits plain b rest held = (_, alike_none, (b, refl, held))
    map_dump_items_lem (next_item {t} {v} {vs} h hs) fits plain b rest held =
        let (w, like, (b1, r1, h1)) =
          map_dump_lem h fits.0 plain.0 b (encode_items (encode format t) vs ++ rest)
            (rw append_assoc at held) in
        let (ws, likes, (b2, r2, h2)) = map_dump_items_lem hs fits.1 plain.1 b1 rest h1 in
        (item w ws, alike_item like likes, (b2, rw (r1, r2), h2))

-- From unread bytes that begin with those of a typed value that the format can carry, the mapDump
-- functions bring that value, but for the capacity of slices, and leave the bytes behind, when nothing
-- in it is nil or an empty slice, but inside a map or behind a pointer, and the string types of its
-- fields and elements are `string` itself.
pub map_dump-encode :
    (format : ℕ → List ℕ) (parse : List ℕ → Option ℕ) (room : TypeInfo → ℕ → ℕ) (t : TypeInfo)
    (v : Value) (b : Buffer) (rest : List ℕ)
    → Typed t v
    → Fits format parse t v
    → Plain v
    → Holds b (encode format t v ++ rest)
    → (w : Value) × Alike w v
      × ((b' : Buffer) × (map_dump parse room true t b ≡ ok (some w, b')) × Holds b' rest)
map_dump-encode format parse room t v b rest typed fits plain held =
    map_dump_lem format parse room typed fits plain b rest held
