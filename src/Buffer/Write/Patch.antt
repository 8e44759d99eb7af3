-- ===== src/Buffer/Write/Patch.antt =====
-- `update_size` writes over the payloads as if they were one piece.
use tssdgo.Prelude.{
  ℕ, zero, suc, ◌+◌, ◌-◌, ◌*◌, ◌≤◌, ◌<◌, ◌≡◌, refl, sym, ap, some, List, [], ◌∷◌, ◌++◌, length, set,
  overwrite, length-append, length-set, set-append_left, set-append_right, append-nil, arith,
  lt→ltb, ne→==, leb, inl, inr, Bool-cases, leb→le,
}
use tssdgo.Wire.{ok, ◌>>=◌, le4}
use tssdgo.Fragment.{Fragment}
use tssdgo.Buffer.{count_entries, lookup_entry, put_entry, payloads}
use tssdgo.Buffer.Write.{reaches_wavail, write_pos, put_byte, update_bytes, update_size}
use tssdgo.Buffer.Write.State.{
  Frame, total, entries, writer, AllFull, IsOpen, count-entries, lookup-entries, payloads-append,
  first_entry,
}
use mathlib.Core.Path.{subst}
use tssdgo.Buffer.Write.Rounds.{Appended}

pub length-payloads :
    (fr : Frame) (k : ℕ) (done : List Fragment)
    → AllFull fr k done
    → length (payloads (entries done)) ≡ length done * fr.width
length-payloads fr k [] h = omega arith
length-payloads fr k (f ∷ fs) h =
    omega (
      arith,
      h.0,
      length-append f.payload (payloads (entries fs)),
      length-payloads fr (k + 1) fs h.1,
    )

pub length-content :
    (fr : Frame) (done : List Fragment) (last : Fragment)
    → AllFull fr 0 done
    → length (payloads (entries done ++ some last ∷ []))
      ≡ length done * fr.width + length last.payload
length-content fr done last full =
    rw (payloads-append, append-nil, length-append) (omega (arith, length-payloads fr 0 done full))

-- One byte: where the entry is found, and what the map holds after the write.
module _ (fr : Frame) (p v : ℕ) (inside : p < fr.width) where
  abbrev patched : Fragment → Fragment
  patched f = record f { payload = set f.payload p v }

  -- The fragments have the keys from `k` on, the last one `n`.
  Placed : ℕ → ℕ → List Fragment → Fragment → ℕ → Type 0
  Placed k n done last i =
      (f : Fragment) × (done' : List Fragment) × (last' : Fragment) × (lookup_entry
          (entries done ++ some last ∷ []) i
        ≡ some f)
      × (p < length f.payload)
      × (put_entry (entries done ++ some last ∷ []) i (patched f)
          ≡ entries done' ++ some last' ∷ [])
      × (length done' ≡ length done)
      × AllFull fr k done'
      × IsOpen fr n last'
      × (length last'.payload ≡ length last.payload)
      × (payloads (entries done' ++ some last' ∷ [])
          ≡ set (payloads (entries done ++ some last ∷ [])) (i * fr.width + p) v)

  place :
      (k n : ℕ) (done : List Fragment) (last : Fragment) (i : ℕ)
      → AllFull fr k done
      → IsOpen fr n last
      → i * fr.width + p < length (payloads (entries done ++ some last ∷ []))
      → Placed k n done last i
  unfolding Placed
  place k n [] last zero full fits h =
      let e : 0 * fr.width + p ≡ p = omega arith in
      let len : length (last.payload ++ []) ≡ length last.payload =
        ap length (append-nil last.payload) in
      (
        last,
        [],
        patched last,
        refl,
        omega (arith, len),
        refl,
        refl,
        tt,
        (
          omega (arith, fits, length-set last.payload p v),
          fits.1,
          omega (arith, fits, length-set last.payload p v),
          fits.3,
        ),
        length-set last.payload p v,
        rw (e, append-nil last.payload, append-nil (set last.payload p v)),
      )
  place k n [] last (suc i) full fits h =
      absurd (omega (arith, ap length (append-nil last.payload)))
  place k n (f ∷ fs) last zero full fits h =
      let e : 0 * fr.width + p ≡ p = omega arith in
      (
        f,
        patched f ∷ fs,
        last,
        refl,
        omega (arith, full.0),
        refl,
        refl,
        (
          (
            omega (arith, full.0, length-set f.payload p v),
            full.0.1,
            omega (arith, full.0, length-set f.payload p v),
            full.0.3,
          ),
          full.1,
        ),
        fits,
        refl,
        rw (
          e,
          set-append_left f.payload (payloads (entries fs ++ some last ∷ [])) p v
              (omega (arith, full.0)),
        ),
      )
  place k n (f ∷ fs) last (suc i) full fits h =
      let (g, done', last', e, lt, put, len, full', fits', size, content) =
        place (k + 1) n fs last i full.1 fits (
          omega
            (arith, full.0, length-append f.payload (payloads (entries fs ++ some last ∷ [])))) in
      (
        g,
        f ∷ done',
        last',
        e,
        lt,
        ap (λ t. some f ∷ t) put,
        omega arith,
        (full.0, full'),
        fits',
        size,
        let off : suc i * fr.width + p ≡ length f.payload + (i * fr.width + p) =
              omega (arith, full.0) in
            rw (
              content,
              off,
              set-append_right f.payload (payloads (entries fs ++ some last ∷ []))
                  (i * fr.width + p) v,
            ),
      )

pub reaches_wavail-writer :
    (fr : Frame) (p : ℕ) (done : List Fragment) (last : Fragment)
    → AllFull fr 0 done
    → IsOpen fr (length done) last
    → reaches_wavail (writer fr done last) p ≡ ok (leb fr.width p)
unfolding reaches_wavail
reaches_wavail-writer fr p done last full fits =
    let (f, e, cap) = first_entry fr (length done) done last full fits in
    let same : leb (total fr) (p + length fr.heads + fr.len_checksum) ≡ leb fr.width p =
      ground arith in
    rw (e, cap, same)

put_byte-Appended :
    (fr : Frame) (i p v : ℕ) (done : List Fragment) (last : Fragment)
    → AllFull fr 0 done
    → IsOpen fr (length done) last
    → p < fr.width
    → i * fr.width + p < length (payloads (entries done ++ some last ∷ []))
    → Appended fr
        (set (payloads (entries done ++ some last ∷ [])) (i * fr.width + p) v)
        (put_byte i p v (writer fr done last))
unfolding put_byte Placed
put_byte-Appended fr i p v done last full fits inside h =
    let (f, done', last', e, lt, put, len, full', fits', size, content) =
      place fr p v inside 0 (length done) done last i full fits h in
    let sizes : length (payloads (entries done')) + length last'.payload
        ≡ length (payloads (entries done)) + length last.payload =
      omega (
        arith,
        size,
        ap (λ (n : ℕ). n * fr.width) len,
        length-payloads fr 0 done full,
        length-payloads fr 0 done' full',
      ) in
    (
      done',
      last',
      rw (e, lt→ltb p (length f.payload) lt, put, ← sizes, ← len),
      full',
      subst (λ m. IsOpen fr m last') (sym len) fits',
      content,
    )

-- What the writes of the bytes `vs` from a position on do to a writer.
RunsFrom : Frame → List ℕ → ℕ → ℕ → Type 0
RunsFrom fr vs i p =
    (done : List Fragment) (last : Fragment)
    → AllFull fr 0 done
    → IsOpen fr (length done) last
    → i * fr.width + p + length vs ≤ length (payloads (entries done ++ some last ∷ []))
    → Appended fr (overwrite (i * fr.width + p) vs (payloads (entries done ++ some last ∷ [])))
        (update_bytes vs i p (writer fr done last))

-- One byte at a position inside a fragment, then the others.
run_at :
    (fr : Frame) (v : ℕ) (vs : List ℕ) (off i p : ℕ) (done : List Fragment) (last : Fragment)
    → AllFull fr 0 done
    → IsOpen fr (length done) last
    → p < fr.width
    → off ≡ i * fr.width + p
    → off + suc (length vs) ≤ length (payloads (entries done ++ some last ∷ []))
    → RunsFrom fr vs i (p + 1)
    → Appended fr
        (overwrite off (v ∷ vs) (payloads (entries done ++ some last ∷ [])))
        (put_byte i p v (writer fr done last) >>= update_bytes vs i (p + 1))
unfolding RunsFrom
run_at fr v vs off i p done last full fits inside e h rest =
    let (done', last', r, full', fits', c) =
      put_byte-Appended fr i p v done last full fits inside (omega arith) in
    let next : off + 1 ≡ i * fr.width + (p + 1) = omega arith in
    let len = length-set (payloads (entries done ++ some last ∷ [])) (i * fr.width + p) v in
    rw (next, e, r, ← c) (rest done' last' full' fits' (omega (arith, ap length c, len)))

update_bytes-RunsFrom :
    (fr : Frame) (vs : List ℕ) (i p : ℕ) → 0 < fr.width → p ≤ fr.width → RunsFrom fr vs i p
unfolding update_bytes RunsFrom
update_bytes-RunsFrom fr [] i p positive le done last full fits h =
    (done, last, refl, full, fits, refl)
update_bytes-RunsFrom fr (v ∷ vs) i p positive le done last full fits h =
    elim (Bool-cases (leb fr.width p)) [
      | inl e ↦
          rw (reaches_wavail-writer fr p done last full fits, e)
            (run_at fr v vs (i * fr.width + p) (i + 1) 0 done last full fits positive
              (ground (arith, leb→le fr.width p e)) h
              (update_bytes-RunsFrom fr vs (i + 1) (0 + 1) positive (omega arith)))
      | inr e ↦
          rw (reaches_wavail-writer fr p done last full fits, e)
            (run_at fr v vs (i * fr.width + p) i p done last full fits (ground arith) refl h
              (update_bytes-RunsFrom fr vs i (p + 1) positive (ground arith)))
    ]

-- The position that `write_pos` returns is where the next byte goes.
pub write_pos-writer :
    (fr : Frame) (done : List Fragment) (last : Fragment)
    → AllFull fr 0 done
    → IsOpen fr (length done) last
    → (i : ℕ) × (p : ℕ) × (write_pos (writer fr done last) ≡ ok (i, p))
      × (p ≤ fr.width)
      × (i * fr.width + p ≡ length (payloads (entries done ++ some last ∷ [])))
unfolding write_pos
write_pos-writer fr done last full fits =
    let cnt : 0 + count_entries (entries done ++ some last ∷ []) ≡ length done + 1 =
      omega (arith, count-entries done (some last ∷ [])) in
    let pred : length done + 1 - 1 ≡ length done = omega arith in
    let len = length-content fr done last full in
    elim (Bool-cases (leb fr.width (length last.payload))) [
      | inl e ↦ (
        length done + 1,
        0,
        rw (
          cnt,
          ne→== (length done + 1) 0 (omega arith),
          pred,
          lookup-entries done last [],
          reaches_wavail-writer fr (length last.payload) done last full fits,
          e,
        ),
        omega arith,
        omega (arith, fits, len, leb→le fr.width (length last.payload) e),
      )
      | inr e ↦ (
        length done,
        length last.payload,
        rw (
          cnt,
          ne→== (length done + 1) 0 (omega arith),
          pred,
          lookup-entries done last [],
          reaches_wavail-writer fr (length last.payload) done last full fits,
          e,
        ),
        fits.2,
        omega (arith, len),
      )
    ]

-- `update_size` writes the four bytes of `value` over those at the position.
pub update_size-Appended :
    (fr : Frame) (i p value : ℕ) (done : List Fragment) (last : Fragment)
    → 0 < fr.width
    → AllFull fr 0 done
    → IsOpen fr (length done) last
    → p ≤ fr.width
    → i * fr.width + p + 4 ≤ length (payloads (entries done ++ some last ∷ []))
    → Appended fr
        (overwrite (i * fr.width + p) (le4 value) (payloads (entries done ++ some last ∷ [])))
        (update_size i p value (writer fr done last))
unfolding update_size RunsFrom
update_size-Appended fr i p value done last positive full fits le h =
    update_bytes-RunsFrom fr (le4 value) i p positive le done last full fits h
