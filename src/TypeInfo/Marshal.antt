-- ===== src/TypeInfo/Marshal.antt =====
-- tssd/typeinfo.go: `marshal`, `marshalTo`, `unmarshal` and `unmarshalTo`, from a new buffer on.
use tssdgo.Prelude.{
  ℕ, suc, ◌+◌, ◌<◌, ◌≡◌, refl, sym, ap, ◌∙◌, Option, none, some, List, [], ◌∷◌, ◌++◌, length,
  length-append, append-nil, arith,
}
use tssdgo.Wire.{Result, ok, negated, buffer_mtu}
use tssdgo.Wire.Code
use tssdgo.Fragment.{Fragment}
use tssdgo.Buffer.{Buffer, new_buffer, payloads}
use tssdgo.Buffer.Write.{
  append, append_byte, append_loop, append_round, ensure_fragment, with_default_mtu, open_fragment,
}
use tssdgo.Buffer.Write.State.{Frame, entries, entries-append, writer, AllFull, payloads-append}
use tssdgo.Buffer.Write.Rounds.{nil_of_zero, opened, opened_lem, ensure-writer, add-ready, Appended}
use tssdgo.Buffer.Read.Again.{At-entries, flat-payloads}
use tssdgo.Buffer.Read.Stream.{Holds, Occupied, Occupied-tail}
use tssdgo.TypeInfo.{TypeInfo, Value}
use tssdgo.TypeInfo.Typed.{
  Typed, is_simple, is_str, is_time, is_nil_pointer, is_pointee, is_object, is_array, is_nil_slice,
  is_slice, is_merge_array, is_nil_merge_slice, is_merge_slice, is_nil_map, is_map,
}
use tssdgo.TypeInfo.Save.{save, mem_append, save_text, time_save, merge_save}
use tssdgo.TypeInfo.Save.Runs.{SavesAs}
use tssdgo.TypeInfo.Saveable.{Saveable}
use tssdgo.TypeInfo.Save.Refines.{save_lem}
use tssdgo.TypeInfo.Encode.{encode}
use tssdgo.TypeInfo.Fits.{Fits}
use tssdgo.TypeInfo.Dump.{dump, zero_value}
use tssdgo.TypeInfo.RoundTrip.{dump_lem}

unfoldable pub marshal_to : (format : ℕ → List ℕ) → TypeInfo → Value → Buffer → Result Buffer
marshal_to format t v b = save format t v b

unfoldable pub marshal : (format : ℕ → List ℕ) → TypeInfo → Value → Result Buffer
marshal format t v = marshal_to format t v (new_buffer 0)

unfoldable pub unmarshal_to :
    (parse : List ℕ → Option ℕ) → TypeInfo → Buffer → Value → Result (Value × Buffer)
unmarshal_to parse t b d = dump parse t b d

-- `append` does the same on two buffers that open the same fragment.
module _ (a b : Buffer) (c : Buffer) (on_a : ensure_fragment a ≡ ok c)
    (on_b : ensure_fragment b ≡ ok c) where
  append_same : (x : ℕ) (xs : List ℕ) → append (x ∷ xs) a ≡ append (x ∷ xs) b
  unfolding append append_loop append_round
  append_same x xs =
      let e : suc (length xs) + 2 ≡ suc (length xs + 2) = omega arith in rw (e, on_a, on_b)

  save_same :
      (format : ℕ → List ℕ) {t : TypeInfo} {v : Value}
      → Typed t v
      → save format t v a ≡ save format t v b
  unfolding save mem_append save_text time_save merge_save append_byte
  save_same format (is_simple {t} p q r) = rw (append_same t [])
  save_same format is_str = rw (append_same Code.string [])
  save_same format is_time = rw (append_same Code.time (Code.string ∷ []))
  save_same format is_nil_pointer = append_same _ []
  save_same format (is_pointee h) = save_same format h
  save_same format (is_object h) = rw (append_same Code.object [])
  save_same format (is_array f e h) = rw (append_same Code.array [])
  save_same format is_nil_slice = append_same (negated Code.array) []
  save_same format (is_slice f h) = rw (append_same Code.array [])
  save_same format (is_merge_array h) = rw (append_same Code.arraym [])
  save_same format is_nil_merge_slice = append_same (negated Code.arraym) []
  save_same format (is_merge_slice h) = rw (append_same Code.arraym [])
  save_same format is_nil_map = append_same (negated Code.dict) []
  save_same format (is_map h) = rw (append_same Code.dict [])

pub Occupied-full :
    (fr : Frame) (k : ℕ) (done : List Fragment) (last : Fragment)
    → 0 < fr.width
    → AllFull fr k done
    → Occupied (done ++ last ∷ [])
Occupied-full fr k [] last positive full = tt
Occupied-full fr k (f ∷ []) last positive full = (omega (arith, full.0), tt)
Occupied-full fr k (f ∷ (g ∷ gs)) last positive full =
    (omega (arith, full.0), Occupied-full fr (k + 1) (g ∷ gs) last positive full.1)

-- A buffer that was written and not yet read holds all that was written.
pub writer-Holds :
    (fr : Frame) (done : List Fragment) (last : Fragment)
    → 0 < fr.width
    → fr.pos ≡ 0
    → AllFull fr 0 done
    → Holds (writer fr done last) (payloads (entries done ++ some last ∷ []))
writer-Holds fr [] last positive start full = record {
  current = last;
  behind = [];
  at = (refl, tt);
  within = omega (arith, start);
  bytes = rw start refl;
  counted = omega (arith, ap length (append-nil last.payload));
  occupied = tt;
}
writer-Holds fr (f ∷ fs) last positive start full =
    let all = entries-append fs last in
    let same = payloads-append (entries fs) (some last ∷ []) in
    record {
      current = f;
      behind = fs ++ last ∷ [];
      at = (refl, rw all at (At-entries (f ∷ []) (fs ++ last ∷ [])));
      within = omega (arith, start);
      bytes = rw (start, ← flat-payloads (fs ++ last ∷ []), all) refl;
      counted =
          rw (same, append-nil last.payload)
            (omega (
              arith,
              length-append f.payload (payloads (entries fs)),
              length-append f.payload (payloads (entries fs) ++ last.payload),
              length-append (payloads (entries fs)) last.payload,
            ));
      occupied = Occupied-tail f (fs ++ last ∷ []) (Occupied-full fr 0 (f ∷ fs) last positive full);
    }

module _ (format : ℕ → List ℕ) (parse : List ℕ → Option ℕ) (fr : Frame) (positive : 0 < fr.width)
    (t : TypeInfo) (v : Value) (typed : Typed t v) (fine : Saveable t v) where
  -- Writing into a buffer whose first fragment is to be opened.
  pub save-first :
      (b : Buffer)
      → ensure_fragment b ≡ ok (writer fr [] (opened fr 0))
      → Appended fr (encode format t v) (save format t v b)
  unfolding SavesAs
  save-first b start =
      let first = opened fr 0 in
      let empty = opened_lem fr 0 in
      let (done, last, e, full, fits, c) =
        save_lem format fr positive typed fine [] first tt empty.0 in
      (
        done,
        last,
        save_same b (writer fr [] first) (writer fr [] first) start (ensure-writer fr [] first)
              format typed
            ∙ e,
        full,
        fits,
        c ∙ rw (nil_of_zero first.payload empty.1),
      )

  -- What was written reads back, to the last byte.
  pub dump-save :
      (b : Buffer)
      → ensure_fragment b ≡ ok (writer fr [] (opened fr 0))
      → fr.pos ≡ 0
      → Fits format parse t v
      → (b1 : Buffer) × (b2 : Buffer) × (save format t v b ≡ ok b1)
        × (dump parse t b1 (zero_value t) ≡ ok (v, b2))
        × (b2.size ≡ 0)
  dump-save b start zero_pos fits =
      let (done, last, e, full, open_last, c) = save-first b start in
      let held = writer-Holds fr done last positive zero_pos full in
      let (b2, r, rest) =
        dump_lem format parse typed fits (writer fr done last) []
          (rw (c ∙ sym (append-nil (encode format t v))) at held) in
      (writer fr done last, b2, e, r, rest.counted)

-- A zero `Buffer`: no heads, no checksum, and the MTU is chosen at the first write.
abbrev default_frame : Frame
default_frame = record { schema = none; heads = []; len_checksum = 0; width = buffer_mtu; pos = 0 }

new_buffer-opens :
    ensure_fragment (new_buffer 0) ≡ ok (writer default_frame [] (opened default_frame 0))
unfolding ensure_fragment open_fragment with_default_mtu
new_buffer-opens = add-ready default_frame []

-- Any value of a type that the format can carry, without elements of type uintptr in its maps, comes
-- back from `marshal` unchanged, read into a zero value, and no byte is left over.
pub unmarshal_to-marshal :
    (format : ℕ → List ℕ) (parse : List ℕ → Option ℕ) (t : TypeInfo) (v : Value)
    → Typed t v
    → Saveable t v
    → Fits format parse t v
    → (b1 : Buffer) × (b2 : Buffer) × (marshal format t v ≡ ok b1)
      × (unmarshal_to parse t b1 (zero_value t) ≡ ok (v, b2))
      × (b2.size ≡ 0)
unfolding marshal marshal_to unmarshal_to
unmarshal_to-marshal format parse t v typed fine fits =
    dump-save format parse default_frame (omega arith) t v typed fine (new_buffer 0)
      new_buffer-opens refl fits
