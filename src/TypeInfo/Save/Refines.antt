-- ===== src/TypeInfo/Save/Refines.antt =====
-- Writing a value through a buffer of fragments adds the bytes of the format, and nothing else.
use tssdgo.Prelude.{ℕ, ◌<◌, ◌≡◌, refl, sym, List, [], ◌∷◌, length, ◌++◌, some, ne→==, arith}
use tssdgo.Wire.{Result, ◌>>=◌, negated}
use tssdgo.Wire.Code
use tssdgo.Fragment.{Fragment}
use tssdgo.Buffer.{Buffer, payloads}
use tssdgo.Buffer.Write.{append_byte}
use tssdgo.Buffer.Write.State.{Frame, entries, writer, AllFull, IsOpen}
use tssdgo.Buffer.Write.Rounds.{Appended}
use tssdgo.TypeInfo.{
  TypeInfo, simple, bytes, Infos, info_count, type_of, Value, Items, Entries, pair, item_count,
  entry_count,
}
use tssdgo.TypeInfo.Fits.{AllItems, AllEntries}
use tssdgo.TypeInfo.Saveable.{Saveable, SaveableFields, MapSaveable, MapSaveableFields}
use tssdgo.TypeInfo.Typed.{
  Typed, is_simple, is_str, is_time, is_nil_pointer, is_pointee, is_object, is_array, is_nil_slice,
  is_slice, is_merge_array, is_nil_merge_slice, is_merge_slice, is_nil_map, is_map, TypedFields,
  no_fields, next_field, TypedItems, no_more_items, next_item, TypedEntries, no_more_entries,
  next_entry,
}
use mathlib.Core.Path.{fun_ext, subst}
use tssdgo.TypeInfo.Save.{
  mem_append, save_sized, map_save_items, save_entries, save, save_fields, map_save,
  map_save_fields,
}
use tssdgo.TypeInfo.Save.ForMaps.{visits}
use tssdgo.TypeInfo.Save.Runs.{
  SavesAs, SavesAs-none, SavesAs-bind, append_byte-SavesAs, mem_append-SavesAs, save_text-SavesAs,
  time_save-SavesAs, merge_save-SavesAs, map_merge_save-SavesAs, save_sized-SavesAs,
}
use tssdgo.TypeInfo.Encode.{sized, encode, encode_fields, encode_items, encode_entries}

module _ (format : ℕ → List ℕ) (fr : Frame) (positive : 0 < fr.width) where
  -- A type code, then a counted body.
  tagged :
      (t n : ℕ) (body : Buffer → Result Buffer) (xs : List ℕ)
      → SavesAs fr positive body xs
      → SavesAs fr positive (λ b. append_byte t b >>= save_sized n body) (t ∷ sized n xs)
  tagged t n body xs h =
      SavesAs-bind fr positive (append_byte t) (save_sized n body) (t ∷ []) (sized n xs)
        (append_byte-SavesAs fr positive t) (save_sized-SavesAs fr positive n body xs h)

  entry_step :
      (key val : Value → Buffer → Result Buffer) (x y : Value) (es : Entries) (xs ys rest : List ℕ)
      → SavesAs fr positive (key x) xs
      → SavesAs fr positive (val y) ys
      → SavesAs fr positive (save_entries key val es) rest
      → SavesAs fr positive
          (save_entries key val (pair x y es))
          (Code.dictk ∷ (xs ++ (Code.dictv ∷ (ys ++ rest))))
  unfolding save_entries
  entry_step key val x y es xs ys rest hk hv hs =
      SavesAs-bind fr positive _ _ (Code.dictk ∷ []) _ (append_byte-SavesAs fr positive Code.dictk)
        (SavesAs-bind fr positive _ _ _ _ hk (
          SavesAs-bind fr positive _ _ (Code.dictv ∷ []) _
            (append_byte-SavesAs fr positive Code.dictv) (SavesAs-bind fr positive _ _ _ _ hv hs)))

  map_save_simple :
      (t n : ℕ) (bs : List ℕ) → 0 < t → map_save format (simple t n) (bytes bs) ≡ mem_append t bs
  unfolding map_save
  map_save_simple t n bs h = fun_ext λ b. rw (ne→== t 0 (omega arith)) refl

  mutual
    unfolding save map_save encode map_save_items save_entries Saveable

    pub save_lem :
        {t : TypeInfo} {v : Value}
        → Typed t v
        → Saveable t v
        → SavesAs fr positive (save format t v) (encode format t v)
    save_lem (is_simple {t} {n} {bs} pos low len) fine = mem_append-SavesAs fr positive t bs
    save_lem (is_str {s}) fine = save_text-SavesAs fr positive Code.string s
    save_lem (is_time {t}) fine = time_save-SavesAs fr positive format t
    save_lem (is_nil_pointer {t}) fine = append_byte-SavesAs fr positive (negated (type_of t))
    save_lem (is_pointee h) fine = save_lem h fine
    save_lem (is_object {ts} {vs} h) fine =
        tagged Code.object (info_count ts) (save_fields format ts vs) (encode_fields format ts vs)
          (fields_lem h fine)
    save_lem (is_array {t = t} {vs = vs} found e h) fine = rw (← e) (
        rw (visits format t vs found) at (
          tagged Code.array (item_count vs) (map_save_items (save format t) vs) _
            (items_lem h fine)))
    save_lem (is_nil_slice) fine = append_byte-SavesAs fr positive (negated Code.array)
    save_lem (is_slice {t} {vs} found h) fine =
        rw (visits format t vs found) at (
          tagged Code.array (item_count vs) (map_save_items (save format t) vs) _
            (items_lem h fine))
    save_lem (is_merge_array {n} {t} {e} {bs} h) fine = merge_save-SavesAs fr positive n t e bs
    save_lem (is_nil_merge_slice) fine = append_byte-SavesAs fr positive (negated Code.arraym)
    save_lem (is_merge_slice {n} {t} {e} {bs} h) fine = merge_save-SavesAs fr positive n t e bs
    save_lem (is_nil_map) fine = append_byte-SavesAs fr positive (negated Code.dict)
    save_lem (is_map {k} {v} {es} h) fine =
        tagged Code.dict (entry_count es) (save_entries (map_save format k) (map_save format v) es)
          _ (entries_lem h fine)

    map_save_lem :
        {t : TypeInfo} {v : Value}
        → Typed t v
        → MapSaveable t v
        → SavesAs fr positive (map_save format t v) (encode format t v)
    map_save_lem (is_simple {t} {n} {bs} pos low len) fine =
        subst (λ m. SavesAs fr positive m (t ∷ bs)) (sym (map_save_simple t n bs pos))
          (mem_append-SavesAs fr positive t bs)
    map_save_lem (is_str {s}) fine = save_text-SavesAs fr positive Code.string s
    map_save_lem (is_time {t}) fine = time_save-SavesAs fr positive format t
    map_save_lem (is_nil_pointer {t}) fine = append_byte-SavesAs fr positive (negated (type_of t))
    map_save_lem (is_pointee h) fine = save_lem h fine
    map_save_lem (is_object {ts} {vs} h) fine =
        tagged Code.object (info_count ts) (map_save_fields format ts vs)
          (encode_fields format ts vs) (map_fields_lem h fine)
    map_save_lem (is_array {t = t} {vs = vs} found e h) fine = rw (← e) (
        tagged Code.array (item_count vs) (map_save_items (map_save format t) vs) _
          (map_items_lem h fine))
    map_save_lem (is_nil_slice) fine = append_byte-SavesAs fr positive (negated Code.array)
    map_save_lem (is_slice {t} {vs} found h) fine =
        tagged Code.array (item_count vs) (map_save_items (map_save format t) vs) _
          (map_items_lem h fine)
    map_save_lem (is_merge_array {n} {t} {e} {bs} h) fine =
        map_merge_save-SavesAs fr positive n t e bs fine h
    map_save_lem (is_nil_merge_slice) fine = append_byte-SavesAs fr positive (negated Code.arraym)
    map_save_lem (is_merge_slice {n} {t} {e} {bs} h) fine =
        map_merge_save-SavesAs fr positive n t e bs fine h
    map_save_lem (is_nil_map) fine = append_byte-SavesAs fr positive (negated Code.dict)
    map_save_lem (is_map {k} {v} {es} h) fine =
        tagged Code.dict (entry_count es) (save_entries (map_save format k) (map_save format v) es)
          _ (entries_lem h fine)

    map_fields_lem :
        {ts : Infos} {vs : Items}
        → TypedFields ts vs
        → MapSaveableFields ts vs
        → SavesAs fr positive (map_save_fields format ts vs) (encode_fields format ts vs)
    map_fields_lem no_fields fine = SavesAs-none fr positive
    map_fields_lem (next_field h hs) fine =
        SavesAs-bind fr positive _ _ _ _ (map_save_lem h fine.0) (map_fields_lem hs fine.1)

    map_items_lem :
        {t : TypeInfo} {vs : Items}
        → TypedItems t vs
        → AllItems (MapSaveable t) vs
        → SavesAs fr positive
            (map_save_items (map_save format t) vs)
            (encode_items (encode format t) vs)
    map_items_lem no_more_items fine = SavesAs-none fr positive
    map_items_lem (next_item h hs) fine =
        SavesAs-bind fr positive _ _ _ _ (map_save_lem h fine.0) (map_items_lem hs fine.1)

    fields_lem :
        {ts : Infos} {vs : Items}
        → TypedFields ts vs
        → SaveableFields ts vs
        → SavesAs fr positive (save_fields format ts vs) (encode_fields format ts vs)
    fields_lem no_fields fine = SavesAs-none fr positive
    fields_lem (next_field h hs) fine =
        SavesAs-bind fr positive _ _ _ _ (save_lem h fine.0) (fields_lem hs fine.1)

    items_lem :
        {t : TypeInfo} {vs : Items}
        → TypedItems t vs
        → AllItems (Saveable t) vs
        → SavesAs fr positive
            (map_save_items (save format t) vs)
            (encode_items (encode format t) vs)
    items_lem no_more_items fine = SavesAs-none fr positive
    items_lem (next_item h hs) fine =
        SavesAs-bind fr positive _ _ _ _ (save_lem h fine.0) (items_lem hs fine.1)

    entries_lem :
        {k v : TypeInfo} {es : Entries}
        → TypedEntries k v es
        → AllEntries (MapSaveable k) (MapSaveable v) es
        → SavesAs fr positive
            (save_entries (map_save format k) (map_save format v) es)
            (encode_entries (encode format k) (encode format v) es)
    entries_lem no_more_entries fine = SavesAs-none fr positive
    entries_lem (next_entry hk hv hs) fine =
        entry_step _ _ _ _ _ _ _ _ (map_save_lem hk fine.0) (map_save_lem hv fine.1)
          (entries_lem hs fine.2)

-- On every buffer that is being written, whatever stands in it and wherever its fragments are
-- cut, `save` of a typed value without elements of type uintptr in its maps succeeds, adds the bytes
-- of the format behind what is there, and leaves a buffer that is being written: all fragments but
-- the last are full.
pub save-Appended :
    (format : ℕ → List ℕ) (fr : Frame) (done : List Fragment) (last : Fragment) (t : TypeInfo)
    (v : Value)
    → 0 < fr.width
    → Typed t v
    → Saveable t v
    → AllFull fr 0 done
    → IsOpen fr (length done) last
    → Appended fr
        (payloads (entries done ++ some last ∷ []) ++ encode format t v)
        (save format t v (writer fr done last))
unfolding SavesAs
save-Appended format fr done last t v positive typed fine full fits =
    save_lem format fr positive typed fine done last full fits

-- The code for the keys and values of maps, a copy of the code for fields that walks elements in
-- order rather than by address and appends merged elements one at a time, adds the same bytes:
-- those of the format, for a typed value without elements of type uintptr.
pub map_save-Appended :
    (format : ℕ → List ℕ) (fr : Frame) (done : List Fragment) (last : Fragment) (t : TypeInfo)
    (v : Value)
    → 0 < fr.width
    → Typed t v
    → MapSaveable t v
    → AllFull fr 0 done
    → IsOpen fr (length done) last
    → Appended fr
        (payloads (entries done ++ some last ∷ []) ++ encode format t v)
        (map_save format t v (writer fr done last))
unfolding SavesAs
map_save-Appended format fr done last t v positive typed fine full fits =
    map_save_lem format fr positive typed fine done last full fits
