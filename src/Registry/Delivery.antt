-- ===== src/Registry/Delivery.antt =====
-- An object that is marshalled and unmarshalled.
use tssdgo.Prelude.{
  ℕ, ◌+◌, ◌≤◌, ◌<◌, ◌≡◌, refl, sym, ap, ◌∙◌, Option, none, some, List, [], ◌∷◌, ◌++◌, length,
  length-append, arith,
}
use tssdgo.Wire.{
  Schema, ok, le2, le4, magic, version_minor, version_major, sizea_length, tarraym_head_length,
}
use tssdgo.Wire.Code
use tssdgo.Fragment.{Fragment}
use tssdgo.Buffer.{Buffer, new_buffer, payloads}
use tssdgo.Buffer.Write.{finish}
use tssdgo.Buffer.Write.State.{
  Frame, total, types_of, entries, ready, writer, AllFull, IsOpen, entries-append, payloads-append,
}
use tssdgo.Buffer.Write.Rounds.{ensure-ready}
use tssdgo.Buffer.Write.Checksums.{AllAlike}
use tssdgo.Buffer.Write.Sealed.{AllAlike-payloads, finish-AllAlike}
use tssdgo.Buffer.Read.Stream.{Holds, Occupied, Occupied-tail}
use tssdgo.Buffer.Read.Again.{At-entries, flat-payloads}
use tssdgo.Head.{schema_info, schema_value, prepare, prepared_mtu}
use tssdgo.Head.Layout.{head_bytes, prepare-heads}
use tssdgo.TypeInfo.{TypeInfo, Value}
use tssdgo.TypeInfo.Typed.{Typed}
use tssdgo.TypeInfo.Fits.{Fits}
use tssdgo.TypeInfo.Encode.{encode}
use tssdgo.TypeInfo.Save.{save}
use tssdgo.TypeInfo.Saveable.{Saveable}
use tssdgo.TypeInfo.Marshal.{marshal_to, save-first, Occupied-full}
use tssdgo.Receiver.SchemaPart.{schema_encoded, length_fields}
use tssdgo.Registry.{Flatable, lookup_key, BuildInfo, Factory, Registers, build_info_by_types}
use tssdgo.Registry.Marshal.{flat_schema, factory_marshal_to, flat_marshal_to, flat_marshal}

Occupied-alike : (fs gs : List Fragment) → AllAlike fs gs → Occupied fs → Occupied gs
Occupied-alike [] [] h k = tt
Occupied-alike [] (g ∷ gs) h k = absurd h
Occupied-alike (f ∷ fs) [] h k = absurd h
Occupied-alike (f ∷ []) (g ∷ []) h k = tt
Occupied-alike (f ∷ []) (g ∷ g' ∷ gs) h k = absurd h.1
Occupied-alike (f ∷ f' ∷ fs) (g ∷ []) h k = absurd h.1
Occupied-alike (f ∷ f' ∷ fs) (g ∷ g' ∷ gs) h k =
    (omega (arith, k.0, ap length h.0.0), Occupied-alike (f' ∷ fs) (g' ∷ gs) h.1 k.1)

-- The first fragment has the types of the object.
first_types :
    (fr : Frame) (done : List Fragment) (last g : Fragment) (gs : List Fragment)
    → 0 < length fr.heads
    → AllFull fr 0 done
    → IsOpen fr (length done) last
    → AllAlike (done ++ last ∷ []) (g ∷ gs)
    → g.schema.types ≡ types_of fr.schema
first_types fr [] last g gs long full opening h = ap (λ s. s.types) h.0.1 ∙ (opening.3 long).1
first_types fr (f ∷ fs) last g gs long full opening h = ap (λ s. s.types) h.0.1 ∙ (full.0.3 long).1

-- A finished buffer that nothing was read from.
pub record Sent (b : Buffer) (types bs : List ℕ) : Type 0 where
  pub first : Fragment
  pub others : List Fragment
  pub at : b.fragments ≡ entries (first ∷ others)
  pub no_stray : b.stray ≡ none
  pub typed : first.schema.types ≡ types
  pub occupied : Occupied others
  pub bytes : payloads b.fragments ≡ bs
  pub holds : Holds b bs

long_heads :
    (format : ℕ → List ℕ) (s : Schema) (k : ℕ)
    → 22 ≤ length ((head_bytes format s ++ le4 (k + sizea_length)) ++ le2 k)
unfolding head_bytes
long_heads format s k =
    let v = version_minor ∷ version_major ∷ Code.schema ∷ [] in
    let enc = encode format schema_info (schema_value s) in
    let tail = Code.arraym ∷ Code.uint8 ∷ [] in
    let l1 = length-append (magic ++ v) enc in
    let l2 = length-append ((magic ++ v) ++ enc) tail in
    let l3 = length-append (((magic ++ v) ++ enc) ++ tail) (le4 (k + sizea_length)) in
    let l4 = length-append ((((magic ++ v) ++ enc) ++ tail) ++ le4 (k + sizea_length)) (le2 k) in
    omega (arith, ap length (schema_encoded format s), length_fields s, l1, l2, l3, l4)

-- Writing with heads, and `finish`.
module _ (format : ℕ → List ℕ) (checksum_func : List ℕ → List ℕ) (n : ℕ)
    (sums : (bs : List ℕ) → length (checksum_func bs) ≡ n) (fr : Frame) (positive : 0 < fr.width)
    (start : fr.pos ≡ 0) (long : 22 ≤ length fr.heads)
    (sum : fr.len_checksum ≡ tarraym_head_length + n) where
  finished-Sent :
      (done : List Fragment) (last : Fragment) (bs : List ℕ) (gs : List Fragment)
      → AllFull fr 0 done
      → IsOpen fr (length done) last
      → payloads (entries done ++ some last ∷ []) ≡ bs
      → AllAlike (done ++ last ∷ []) gs
      → Sent (record (writer fr done last) { fragments = entries gs }) (types_of fr.schema) bs
  finished-Sent done last bs [] full opening written alike = absurd (no_fragments done alike)
    where
      no_fragments : (ds : List Fragment) → AllAlike (ds ++ last ∷ []) [] → ⊥
      no_fragments [] h = h
      no_fragments (d ∷ ds) h = h
  finished-Sent done last bs (g ∷ gs) full opening written alike =
      let same : payloads (entries (g ∷ gs)) ≡ payloads (entries done ++ some last ∷ []) =
        AllAlike-payloads (done ++ last ∷ []) (g ∷ gs) alike
        ∙ ap payloads (entries-append done last) in
      let occ = Occupied-tail g gs (
        Occupied-alike (done ++ last ∷ []) (g ∷ gs) alike
          (Occupied-full fr 0 done last positive full)) in
      record {
        first = g;
        others = gs;
        at = refl;
        no_stray = refl;
        typed = first_types fr done last g gs (omega (arith, long)) full opening alike;
        occupied = occ;
        bytes = same ∙ written;
        holds = record {
          current = g;
          behind = gs;
          at = At-entries [] (g ∷ gs);
          within = omega (arith, start);
          bytes = rw start (ap (λ t. g.payload ++ t) (sym (flat-payloads gs)) ∙ (same ∙ written));
          counted = omega (
            arith,
            ap length written,
            ap length (payloads-append (entries done) (some last ∷ [])),
            length-append (payloads (entries done)) (last.payload ++ []),
            length-append last.payload [],
          );
          occupied = occ;
        };
      }

  save_finished :
      (t : TypeInfo) (v : Value)
      → Typed t v
      → Saveable t v
      → (b1 : Buffer) × (b2 : Buffer) × (save format t v (ready fr []) ≡ ok b1)
        × (finish checksum_func b1 ≡ ok b2)
        × Sent b2 (types_of fr.schema) (encode format t v)
  save_finished t v typed fine =
      let (done, last, saved, full, opening, written) =
        save-first format (λ x. none) fr positive t v typed fine (ready fr [])
          (ensure-ready fr [] positive) in
      let (gs, alike, finished) =
        finish-AllAlike checksum_func n fr done last sums sum long full opening in
      (
        writer fr done last,
        record (writer fr done last) { fragments = entries gs },
        saved,
        finished,
        finished-Sent done last (encode format t v) gs full opening written alike,
      )

module _ (flatable : Flatable) (format : ℕ → List ℕ) (parse : List ℕ → Option ℕ)
    (checksum_func : List ℕ → List ℕ) (n : ℕ) (sums : (bs : List ℕ) → length (checksum_func bs) ≡ n)
    (r : Registers flatable) (flat : flatable.Object) (f : Factory flatable)
    (bi : BuildInfo flatable) where
  -- The object is registered, its value is one that can be saved and that the format can carry, and its
  -- heads leave room.
  pub record IsDeliverable : Type 0 where
    pub family : lookup_key (flatable.family flat) r.families ≡ some f
    pub version : lookup_key (flatable.version flat) f.versions ≡ some bi
    pub known_types : build_info_by_types flatable (flatable.types flat) r ≡ ok bi
    pub typed : Typed bi.info (flatable.value flat)
    pub saveable : Saveable bi.info (flatable.value flat)
    pub carried : Fits format parse bi.info (flatable.value flat)
    pub room :
        length (head_bytes format (flat_schema flatable format parse checksum_func flat))
          + 6
          + (tarraym_head_length + length (checksum_func []))
        < prepared_mtu 0

  marshal_chain :
      (b0 b1 b2 : Buffer)
      → IsDeliverable
      → prepare format checksum_func
          (flat_schema flatable format parse checksum_func flat)
          (new_buffer 0)
        ≡ ok (none, b0)
      → save format bi.info (flatable.value flat) b0 ≡ ok b1
      → finish checksum_func b1 ≡ ok b2
      → flat_marshal flatable format parse checksum_func r flat ≡ ok (none, b2)
  unfolding flat_marshal flat_marshal_to factory_marshal_to marshal_to
  marshal_chain b0 b1 b2 h prepared saved finished =
      rw
        (
          flat_marshal, flat_marshal_to, h.family, factory_marshal_to, h.version, prepared, saved,
          finished,
        )
        refl

  pub marshalled :
      IsDeliverable
      → (b : Buffer) × (flat_marshal flatable format parse checksum_func r flat ≡ ok (none, b))
        × Sent b (flatable.types flat) (encode format bi.info (flatable.value flat))
  marshalled h =
      let s = flat_schema flatable format parse checksum_func flat in
      let (k, positive, width, prepared) =
        prepare-heads format checksum_func s (new_buffer 0) h.room in
      let heads = (head_bytes format s ++ le4 (k + sizea_length)) ++ le2 k in
      let lc = tarraym_head_length + length (checksum_func []) in
      let fr : Frame = record {
        schema = some s;
        heads = heads;
        len_checksum = lc;
        width = k;
        pos = 0;
      } in
      let sum : lc ≡ tarraym_head_length + n = omega (arith, sums []) in
      let (b1, b2, saved, finished, sent) =
        save_finished format checksum_func n sums fr positive refl (long_heads format s k) sum
          bi.info (flatable.value flat) h.typed h.saveable in
      let mtu : prepared_mtu 0 ≡ total fr = omega (
        arith,
        width,
        length-append (head_bytes format s ++ le4 (k + sizea_length)) (le2 k),
        length-append (head_bytes format s) (le4 (k + sizea_length)),
      ) in
      let from : prepare format checksum_func s (new_buffer 0) ≡ ok (none, ready fr []) =
        prepared ∙ ap (λ m. ok (none, record (ready fr []) { mtu = m })) mtu in
      (b2, marshal_chain (ready fr []) b1 b2 h from saved finished, sent)
