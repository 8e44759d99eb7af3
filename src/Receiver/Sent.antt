-- ===== src/Receiver/Sent.antt =====
-- The fragments that `finish` leaves are frames that `Extract` finds.
use tssdgo.Prelude.{
  zero, suc, true, false, ◌==◌, if◌then◌else◌, eq→==, ne→==, inr, ◌%◌, ◌/◌, ℕ, ◌+◌, ◌-◌, ◌≤◌, ◌<◌,
  ◌≡◌, refl, sym, ap, ◌∙◌, Option, none, some, List, [], ◌∷◌, ◌++◌, length, drop, length-append,
  append_assoc, take-append, drop-append, arith,
}
use mathlib.Core.Path.{subst}
use tssdgo.Wire.{
  Schema, ok, le2, le4, neg16, magic, version_minor, version_major, sizea_length,
  tarraym_head_length,
}
use tssdgo.Wire.Code
use tssdgo.Fragment.{Fragment, write_at, raw_data}
use tssdgo.Buffer.{lookup_entry}
use tssdgo.Buffer.Write.{finish}
use tssdgo.Buffer.Write.State.{Frame, stamped, entries, writer, AllFull, IsOpen}
use tssdgo.Buffer.Write.Checksums.{AllAlike, checksum_tail, Wrapped, AllWrapped}
use tssdgo.Buffer.Write.Last.{sealed_last, sealed_heads_bytes, sealed_payload}
use tssdgo.Buffer.Write.Sealed.{finish-AllWrapped}
use tssdgo.TypeInfo.Encode.{encode}
use tssdgo.Head.Layout.{head_bytes}
use tssdgo.Receiver.SchemaPart.{FitsSchema, array_head}
use tssdgo.Receiver.{RBuffer, index_of, reset}
use tssdgo.Receiver.Extract.{extract, take_fragment}
use tssdgo.Receiver.Frame.{
  encoded, heads_of, frame_of, fragment_of, behind_fragment, extract-frame_of,
}

abbrev with_fid : ℕ → Schema → Schema
with_fid i s = record s { fid = i }

module _ (format : ℕ → List ℕ) (s : Schema) where
  -- The heads of `prepare`, for `k` bytes of payload.
  abbrev pub prepared_heads : ℕ → List ℕ
  prepared_heads k = (head_bytes format s ++ le4 (k + sizea_length)) ++ le2 k

  abbrev front : List ℕ
  front =
      (magic ++ (version_minor ∷ version_major ∷ Code.schema ∷ []))
      ++ (encoded format s ++ (Code.arraym ∷ Code.uint8 ∷ []))

  same_heads : (k : ℕ) → prepared_heads k ≡ heads_of format s k
  unfolding head_bytes
  same_heads k = simp append_assoc

  front_heads : (k : ℕ) → heads_of format s k ≡ front ++ (le4 (k + 2) ++ le2 k)
  front_heads k = simp append_assoc

  stamped_heads : (i k : ℕ) → stamped i (heads_of format s k) ≡ heads_of format (with_fid i s) k
  unfolding encode
  stamped_heads i k = refl

write_at-here :
    (n : ℕ) (a b c d : List ℕ)
    → length a ≡ n
    → length d ≡ length b
    → write_at n d (a ++ (b ++ c)) ≡ a ++ (d ++ c)
write_at-here n a b c d e same =
    let start = take-append n a (b ++ c) e in
    let rest : drop (n + length d) (a ++ (b ++ c)) ≡ c =
      ap (drop (n + length d)) (sym (append_assoc a b c))
      ∙ drop-append (n + length d) (a ++ b) c (omega (arith, length-append a b, e, same)) in
    rw (start, rest) refl

resized :
    (format : ℕ → List ℕ) (s : Schema) (p k n : ℕ)
    → length (heads_of format s k) ≡ p
    → write_at (p - 2) (le2 n) (write_at (p - 6) (le4 (n + 2)) (heads_of format s k))
      ≡ heads_of format s n
resized format s p k n e =
    let a = front format s in
    let len : length a + 6 ≡ p =
      omega
        (arith, e, ap length (front_heads format s k), length-append a (le4 (k + 2) ++ le2 k)) in
    let one =
      ap (write_at (p - 6) (le4 (n + 2))) (front_heads format s k)
      ∙ write_at-here (p - 6) a (le4 (k + 2)) (le2 k) (le4 (n + 2)) (omega (arith, len)) refl in
    let two : write_at (p - 2) (le2 n) (a ++ (le4 (n + 2) ++ le2 k)) ≡ a ++ (le4 (n + 2) ++ le2 n) =
      ap (write_at (p - 2) (le2 n)) (sym (append_assoc a (le4 (n + 2)) (le2 k)))
      ∙ (write_at-here (p - 2) (a ++ le4 (n + 2)) (le2 k) [] (le2 n)
            (omega (arith, len, length-append a (le4 (n + 2)))) refl
          ∙ append_assoc a (le4 (n + 2)) (le2 n)) in
    ap (write_at (p - 2) (le2 n)) one ∙ (two ∙ sym (front_heads format s n))

length-heads :
    (format : ℕ → List ℕ) (s : Schema) (i k : ℕ)
    → length (heads_of format (with_fid i s) k) ≡ length (heads_of format s k)
unfolding encode
length-heads format s i k = refl

module _ (format : ℕ → List ℕ) (checksum_func : List ℕ → List ℕ) (s : Schema) where
  -- `Data` is a fragment on the wire: the object's schema with the id `i`, the payload, and the
  -- checksum of what is before it.
  abbrev pub IsFrameAt : ℕ → Fragment → Type 0
  IsFrameAt i g =
      raw_data g
      ≡ frame_of format (with_fid i s) g.payload
          (checksum_func (heads_of format (with_fid i s) (length g.payload) ++ g.payload))

  -- The id of the fragment with the key `k`, where `n` is how many there are.
  abbrev pub id_at : ℕ → ℕ → ℕ
  id_at n k = if k + 1 == n then neg16 (k + 1) else (k + 1) % 0x10000

  -- The ids count up from the key `k` plus one, and the last one is negative.
  abbrev pub Numbered : ℕ → List Fragment → Type 0
  Numbered k [] = Unit
  Numbered k (g ∷ []) = IsFrameAt (neg16 (k + 1)) g
  Numbered k (g ∷ g' ∷ gs) = IsFrameAt ((k + 1) % 0x10000) g × Numbered (k + 1) (g' ∷ gs)

  pub Numbered-IsFrameAt :
      (k n : ℕ) (gs : List Fragment) (j : ℕ) (g : Fragment)
      → k + length gs ≡ n
      → Numbered k gs
      → lookup_entry (entries gs) j ≡ some g
      → IsFrameAt (id_at n (k + j)) g
  Numbered-IsFrameAt k n [] j g e h at = absurd (cc)
  Numbered-IsFrameAt k n (g ∷ []) zero f e h at =
      let here : (k + 0 + 1 == n) ≡ true = eq→== (k + 0 + 1) n (omega (arith, e)) in
      let first : k ≡ k + 0 = omega arith in
      let same : g ≡ f = cc in
      rw here
        (subst (λ m. IsFrameAt (neg16 (m + 1)) f) first (subst (IsFrameAt (neg16 (k + 1))) same h))
  Numbered-IsFrameAt k n (g ∷ []) (suc j) f e h at = absurd (cc)
  Numbered-IsFrameAt k n (g ∷ g' ∷ gs) zero f e h at =
      let here : (k + 0 + 1 == n) ≡ false = ne→== (k + 0 + 1) n (omega (arith, e)) in
      let first : k ≡ k + 0 = omega arith in
      let same : g ≡ f = cc in
      rw here (
        subst (λ m. IsFrameAt ((m + 1) % 0x10000) f) first
          (subst (IsFrameAt ((k + 1) % 0x10000)) same h.0))
  Numbered-IsFrameAt k n (g ∷ g' ∷ gs) (suc j) f e h at =
      let next : (k + 1) + j ≡ k + suc j = omega arith in
      subst (λ m. IsFrameAt (id_at n m) f) next
        (Numbered-IsFrameAt (k + 1) n (g' ∷ gs) j f (omega (arith, e)) h.1 at)

  Wrapped-IsFrameAt :
      (f g : Fragment) (i : ℕ)
      → Wrapped checksum_func f g
      → g.payload ≡ f.payload
      → f.heads ≡ heads_of format (with_fid i s) (length f.payload)
      → IsFrameAt i g
  Wrapped-IsFrameAt f g i around same heads =
      let n = length f.payload in
      let hs = heads_of format (with_fid i s) n in
      let sum = checksum_func (hs ++ f.payload) in
      let here : raw_data g ≡ frame_of format (with_fid i s) f.payload sum =
        around
        ∙ (ap (λ h. (h ++ f.payload) ++ checksum_tail (checksum_func (h ++ f.payload))) heads
            ∙ append_assoc hs f.payload (checksum_tail sum)) in
      here
      ∙ ap
          (λ p.
            frame_of format (with_fid i s) p
              (checksum_func (heads_of format (with_fid i s) (length p) ++ p)))
          (sym same)

  module _ (fr : Frame) (heads : fr.heads ≡ prepared_heads format s fr.width)
      (long : 22 ≤ length fr.heads) where
    from_frame :
        (i : ℕ) (h : List ℕ) → h ≡ stamped i fr.heads → h ≡ heads_of format (with_fid i s) fr.width
    from_frame i h e =
        e
        ∙ (ap (stamped i) (heads ∙ same_heads format s fr.width)
            ∙ stamped_heads format s i fr.width)

    last_heads :
        (done : List Fragment) (last : Fragment) (opening : IsOpen fr (length done) last)
        → (sealed_last fr done last opening long).heads
          ≡ heads_of format (with_fid (neg16 (length done + 1)) s) (length last.payload)
    last_heads done last opening =
        let i = (length done + 1) % 0x10000 in
        let e = (opening.3 (omega (arith, long))).2 (omega (arith, long)) in
        let neg = neg16 (length done + 1) in
        let n = length last.payload in
        let p = length fr.heads in
        let first =
          ap (stamped neg) (from_frame i last.heads e)
          ∙ stamped_heads format (with_fid i s) neg fr.width in
        let len : length (heads_of format (with_fid neg s) fr.width) ≡ p =
          length-heads format s neg fr.width
          ∙ sym (ap length (heads ∙ same_heads format s fr.width)) in
        sealed_heads_bytes fr done last opening long
        ∙ (ap (λ h. write_at (p - 2) (le2 n) (write_at (p - 6) (le4 (n + 2)) h)) first
            ∙ resized format (with_fid neg s) p fr.width n len)

    all-Numbered :
        (last end : Fragment) (k n : ℕ) (done gs : List Fragment)
        → k + length done ≡ n
        → end.payload ≡ last.payload
        → end.heads ≡ heads_of format (with_fid (neg16 (n + 1)) s) (length end.payload)
        → AllFull fr k done
        → AllAlike (done ++ last ∷ []) gs
        → AllWrapped checksum_func (done ++ end ∷ []) gs
        → Numbered k gs
    all-Numbered last end k n done [] e same hs full alike around = tt
    all-Numbered last end k n [] (g ∷ []) e same hs full alike around =
        let here : n ≡ k = omega (arith, e) in
        subst (λ m. IsFrameAt (neg16 (m + 1)) g) here
          (Wrapped-IsFrameAt end g (neg16 (n + 1)) around.0 (alike.0.0 ∙ sym same) hs)
    all-Numbered last end k n [] (g ∷ g' ∷ gs) e same hs full alike around = absurd alike.1
    all-Numbered last end k n (f ∷ []) (g ∷ []) e same hs full alike around = absurd alike.1
    all-Numbered last end k n (f ∷ f' ∷ fs) (g ∷ []) e same hs full alike around = absurd alike.1
    all-Numbered last end k n (f ∷ fs) (g ∷ g' ∷ gs) e same hs full alike around =
        let j = (k + 1) % 0x10000 in
        let stamp = (full.0.3 (omega (arith, long))).2 (omega (arith, long)) in
        let here =
          from_frame j f.heads stamp ∙ ap (heads_of format (with_fid j s)) (sym full.0.2) in
        (
          Wrapped-IsFrameAt f g j around.0 alike.0.0 here,
          all-Numbered last end (k + 1) n fs (g' ∷ gs) (omega (arith, e)) same hs full.1 alike.1
              around.1,
        )

  -- What `finish` leaves of a buffer that has been written with the heads that `prepare` makes for `s`
  -- is one fragment on the wire for each: `Data` is the heads with the object's schema and the sizes
  -- of this payload, the payload, and the checksum of both. The ids count up from 1, and the last one
  -- is the negative of its number, when the checksum has the length that `prepare` made room for.
  pub finish-Numbered :
      (n : ℕ) (fr : Frame) (done : List Fragment) (last : Fragment)
      → ((bs : List ℕ) → length (checksum_func bs) ≡ n)
      → fr.len_checksum ≡ tarraym_head_length + n
      → 22 ≤ length fr.heads
      → fr.heads ≡ prepared_heads format s fr.width
      → AllFull fr 0 done
      → IsOpen fr (length done) last
      → (gs : List Fragment) × (finish checksum_func (writer fr done last)
          ≡ ok (record (writer fr done last) { fragments = entries gs }))
        × AllAlike (done ++ last ∷ []) gs
        × Numbered 0 gs
  finish-Numbered n fr done last sums sum long heads full opening =
      let (gs, alike, around, e) =
        finish-AllWrapped checksum_func n fr done last sums sum long full opening in
      let end = sealed_last fr done last opening long in
      let same = sealed_payload fr done last opening long in
      let named =
        last_heads fr heads long done last opening
        ∙ ap (λ p. heads_of format (with_fid (neg16 (length done + 1)) s) (length p)) (sym same) in
      (
        gs,
        e,
        alike,
        all-Numbered fr heads long last end 0 (length done) done gs (omega arith) same named full
            alike around,
      )

low_bytes : (i : ℕ) → le2 i ≡ le2 (i % 0x10000)
low_bytes i =
    let a : i % 256 ≡ i % 0x10000 % 256 = omega arith in
    let b : i / 256 % 256 ≡ i % 0x10000 / 256 % 256 = omega arith in
    ap (λ x. x ∷ i / 256 % 256 ∷ []) a ∙ ap (λ y. i % 0x10000 % 256 ∷ y ∷ []) b

-- Only the low 16 bits of an id are on the wire.
low_fid :
    (format : ℕ → List ℕ) (s : Schema) (i k : ℕ)
    → heads_of format (with_fid i s) k ≡ heads_of format (with_fid (i % 0x10000) s) k
low_fid format s i k =
    sym (stamped_heads format s i k)
    ∙ (ap (λ w. write_at 16 w (heads_of format s k)) (low_bytes i)
        ∙ stamped_heads format s (i % 0x10000) k)

pub extract-IsFrameAt :
    (parse : List ℕ → Option ℕ) (checksum_func : List ℕ → List ℕ) (format : ℕ → List ℕ) (s : Schema)
    (i : ℕ) (g : Fragment) (noise rest input : List ℕ) (r : RBuffer)
    → FitsSchema s
    → IsFrameAt format checksum_func s i g
    → r.data_bytes ++ input ≡ noise ++ (raw_data g ++ rest)
    → index_of magic (r.data_bytes ++ input) ≡ some (length noise)
    → 64 ≤ length (raw_data g ++ rest)
    → length g.payload < 0x8000
    → ((bs : List ℕ) → length (checksum_func bs) < 0x8000)
    → (r' : RBuffer) × (f : Fragment) × (r'' : RBuffer) × (extract parse checksum_func input
          (reset r)
        ≡ ok (0, none, r'))
      × (take_fragment parse checksum_func r' ≡ ok (f, r''))
      × (f.payload ≡ g.payload)
      × (f.schema ≡ record s { fid = i % 0x10000 })
      × (r''.data_bytes ≡ rest)
      × (reset r'' ≡ r'')
unfolding reset
extract-IsFrameAt parse checksum_func format s i g noise rest input r fits framed stream first long
      small small_sum =
    let j = i % 0x10000 in
    let s' = with_fid j s in
    let n = length g.payload in
    let whole = λ (h : List ℕ).
      let sum = checksum_func (h ++ g.payload) in
      h ++ (g.payload ++ (array_head (length sum) ++ sum)) in
    let hs = heads_of format s' n in
    let sum = checksum_func (hs ++ g.payload) in
    let low : raw_data g ≡ frame_of format s' g.payload sum =
      framed ∙ ap whole (low_fid format s i n) in
    let fits' : FitsSchema s' = (omega arith, fits.1) in
    let (r', e, taken) =
      extract-frame_of parse checksum_func format s' noise g.payload sum rest input r fits'
        (stream ∙ ap (λ w. noise ++ (w ++ rest)) low) first
        (omega (arith, long, ap (λ w. length (w ++ rest)) low)) small (small_sum (hs ++ g.payload))
        (inr refl) in
    (
      r',
      fragment_of parse checksum_func format s' g.payload sum rest fits' r,
      behind_fragment parse checksum_func format s' g.payload sum rest fits' r,
      e,
      taken,
      refl,
      refl,
      refl,
      refl,
    )
