-- ===== src/TypeInfo/Save/Runs.antt =====
-- Operations that add bytes to a buffer that is being written, and how they compose.
use mathlib.Core.Path.{fun_ext, subst}
use tssdgo.Prelude.{
  ◌⊎◌, inl, inr, ne→==, ℕ, zero, suc, take, drop, length-drop, take-append-drop, ◌+◌, ◌-◌, ◌*◌, ◌<◌,
  ◌≡◌, refl, ap, ◌∙◌, some, List, [], ◌∷◌, ◌++◌, length, overwrite, length-append, overwrite-append,
  append-nil, append_assoc, arith,
}
use tssdgo.Wire.{Result, ok, ◌>>=◌, le2, le4}
use tssdgo.Fragment.{Fragment}
use tssdgo.Buffer.{Buffer, payloads}
use tssdgo.Buffer.Write.{
  append, append_byte, append_size2, append_size4, append_string, write_pos, update_size,
}
use tssdgo.Buffer.Write.State.{Frame, entries, writer, AllFull, IsOpen}
use tssdgo.Buffer.Write.Rounds.{Appended, append-Appended}
use tssdgo.Buffer.Write.Patch.{
  length-content, write_pos-writer, update_size-Appended, length-payloads,
}
use tssdgo.TypeInfo.Save.{
  save_sized, mem_append, save_text, time_save, merge_save, map_merge_items, map_merge_save,
}
use tssdgo.TypeInfo.Encode.{sized, string_bytes}
use tssdgo.Wire.Code

abbrev pub held : List Fragment → Fragment → List ℕ
held done last = payloads (entries done ++ some last ∷ [])

-- `save_sized` as a chain of calls.
sized_chain :
    (n i p value : ℕ) (body : Buffer → Result Buffer) (b b1 b2 b3 : Buffer) (r : Result Buffer)
    → write_pos b ≡ ok (i, p)
    → append_size4 0 b ≡ ok b1
    → append_size2 n b1 ≡ ok b2
    → body b2 ≡ ok b3
    → b3.size - b.size - 4 ≡ value
    → update_size i p value b3 ≡ r
    → save_sized n body b ≡ r
unfolding save_sized
sized_chain n i p value body b b1 b2 b3 r w e1 e2 e3 e4 e5 = rw (w, e1, e2, e3, e4, e5)

module _ (fr : Frame) (positive : 0 < fr.width) where
  -- On every buffer of the frame that is being written, `m` succeeds and adds `xs`.
  unfoldable pub SavesAs : (Buffer → Result Buffer) → List ℕ → Type 0
  SavesAs m xs =
      (done : List Fragment) (last : Fragment)
      → AllFull fr 0 done
      → IsOpen fr (length done) last
      → Appended fr (held done last ++ xs) (m (writer fr done last))

  Appended-bind :
      (c xs : List ℕ) (r : Result Buffer) (k : Buffer → Result Buffer)
      → Appended fr c r
      → SavesAs k xs
      → Appended fr (c ++ xs) (r >>= k)
  unfolding SavesAs
  Appended-bind c xs r k (done, last, e, full, fits, h) then_k =
      rw (e, ← h) (then_k done last full fits)

  pub SavesAs-none : SavesAs (λ b. ok b) []
  unfolding SavesAs
  SavesAs-none done last full fits = (done, last, refl, full, fits, rw append-nil)

  pub SavesAs-bind :
      (m k : Buffer → Result Buffer) (xs ys : List ℕ)
      → SavesAs m xs
      → SavesAs k ys
      → SavesAs (λ b. m b >>= k) (xs ++ ys)
  unfolding SavesAs
  SavesAs-bind m k xs ys hm hk done last full fits = rw (← append_assoc (held done last) xs ys) (
      Appended-bind (held done last ++ xs) ys (m (writer fr done last)) k (hm done last full fits)
        hk)

  pub append-SavesAs : (bs : List ℕ) → SavesAs (append bs) bs
  unfolding SavesAs
  append-SavesAs bs done last full fits = append-Appended fr done last bs positive full fits

  pub append_byte-SavesAs : (t : ℕ) → SavesAs (append_byte t) (t ∷ [])
  unfolding append_byte
  append_byte-SavesAs t = append-SavesAs (t ∷ [])

  append_size2-SavesAs : (n : ℕ) → SavesAs (append_size2 n) (le2 n)
  unfolding append_size2
  append_size2-SavesAs n = append-SavesAs (le2 n)

  append_size4-SavesAs : (n : ℕ) → SavesAs (append_size4 n) (le4 n)
  unfolding append_size4
  append_size4-SavesAs n = append-SavesAs (le4 n)

  append_string-SavesAs : (s : List ℕ) → SavesAs (append_string s) (string_bytes s)
  unfolding append_string
  append_string-SavesAs s =
      SavesAs-bind (append_size4 (length s)) (append s) (le4 (length s)) s
        (append_size4-SavesAs (length s)) (append-SavesAs s)

  pub mem_append-SavesAs : (t : ℕ) (bs : List ℕ) → SavesAs (mem_append t bs) (t ∷ bs)
  unfolding mem_append
  mem_append-SavesAs t bs =
      SavesAs-bind (append_byte t) (append bs) (t ∷ []) bs (append_byte-SavesAs t)
        (append-SavesAs bs)

  pub save_text-SavesAs : (t : ℕ) (s : List ℕ) → SavesAs (save_text t s) (t ∷ string_bytes s)
  unfolding save_text
  save_text-SavesAs t s =
      SavesAs-bind (append_byte t) (append_string s) (t ∷ []) (string_bytes s)
        (append_byte-SavesAs t) (append_string-SavesAs s)

  pub time_save-SavesAs :
      (format : ℕ → List ℕ) (t : ℕ)
      → SavesAs (time_save format t) (Code.time ∷ Code.string ∷ string_bytes (format t))
  unfolding time_save
  time_save-SavesAs format t =
      SavesAs-bind (append (Code.time ∷ Code.string ∷ [])) (append_string (format t))
        (Code.time ∷ Code.string ∷ []) (string_bytes (format t))
        (append-SavesAs (Code.time ∷ Code.string ∷ [])) (append_string-SavesAs (format t))

  pub merge_save-SavesAs :
      (n t e : ℕ) (bs : List ℕ)
      → SavesAs (merge_save n t e bs) (Code.arraym ∷ t ∷ (le4 (2 + e * n) ++ (le2 n ++ bs)))
  unfolding merge_save
  merge_save-SavesAs n t e bs =
      SavesAs-bind _ _ (Code.arraym ∷ []) _ (append_byte-SavesAs Code.arraym) (
        SavesAs-bind _ _ (t ∷ []) _ (append_byte-SavesAs t) (
          SavesAs-bind _ _ (le4 (2 + e * n)) _ (append_size4-SavesAs (2 + e * n))
            (SavesAs-bind _ _ (le2 n) bs (append_size2-SavesAs n) (append-SavesAs bs))))

  map_merge_items-SavesAs :
      (t e n : ℕ) (bs : List ℕ)
      → (n ≡ 0) ⊎ (0 < t)
      → length bs ≡ e * n
      → SavesAs (map_merge_items t e n bs) bs
  unfolding map_merge_items
  map_merge_items-SavesAs t e zero [] some_code h = SavesAs-none
  map_merge_items-SavesAs t e zero (x ∷ xs) some_code h = absurd (omega arith)
  map_merge_items-SavesAs t e (suc n) bs (inl no_items) h = absurd (omega arith)
  map_merge_items-SavesAs t e (suc n) bs (inr some_code) h =
      let left : length (drop e bs) ≡ e * n = grind (arith, length-drop e bs) in
      let one : (λ b. append (take e bs) b >>= map_merge_items t e n (drop e bs))
          ≡ map_merge_items t e (suc n) bs =
        fun_ext λ b. rw (ne→== t 0 (omega (arith, some_code))) refl in
      subst (λ m. SavesAs m bs) one
        (rw (take-append-drop e bs) at (
          SavesAs-bind (append (take e bs)) (map_merge_items t e n (drop e bs)) (take e bs)
            (drop e bs) (append-SavesAs (take e bs))
            (map_merge_items-SavesAs t e n (drop e bs) (inr some_code) left)))

  pub map_merge_save-SavesAs :
      (n t e : ℕ) (bs : List ℕ)
      → (n ≡ 0) ⊎ (0 < t)
      → length bs ≡ e * n
      → SavesAs (map_merge_save n t e bs) (Code.arraym ∷ t ∷ (le4 (2 + e * n) ++ (le2 n ++ bs)))
  unfolding map_merge_save
  map_merge_save-SavesAs n t e bs some_code h =
      SavesAs-bind _ _ (Code.arraym ∷ []) _ (append_byte-SavesAs Code.arraym) (
        SavesAs-bind _ _ (t ∷ []) _ (append_byte-SavesAs t) (
          SavesAs-bind _ _ (le4 (2 + e * n)) _ (append_size4-SavesAs (2 + e * n)) (
            SavesAs-bind _ _ (le2 n) bs (append_size2-SavesAs n)
              (map_merge_items-SavesAs t e n bs some_code h))))

  -- What stands in a writer after the reserved size, the count and the body.
  module _ (n : ℕ) (body : Buffer → Result Buffer) (xs : List ℕ) (h : SavesAs body xs) where
    reserved :
        (c : List ℕ) (v : ℕ)
        → overwrite (length c) (le4 v) (((c ++ le4 0) ++ le2 n) ++ xs)
          ≡ c ++ (le4 v ++ (le2 n ++ xs))
    reserved c v =
        rw (append_assoc (c ++ le4 0) (le2 n) xs, append_assoc c (le4 0) (le2 n ++ xs))
          (overwrite-append c (le4 0) (le2 n ++ xs) (le4 v) refl)

    pub save_sized-SavesAs : SavesAs (save_sized n body) (sized n xs)
    unfolding SavesAs
    save_sized-SavesAs done last full fits =
        let (i, p, w, inside, off) = write_pos-writer fr done last full fits in
        let (d1, l1, e1, full1, fits1, c1) = append_size4-SavesAs 0 done last full fits in
        let (d2, l2, e2, full2, fits2, c2) = append_size2-SavesAs n d1 l1 full1 fits1 in
        let (d3, l3, e3, full3, fits3, c3) = h d2 l2 full2 fits2 in
        let whole : held d3 l3 ≡ ((held done last ++ le4 0) ++ le2 n) ++ xs = rw (c3, c2, c1) in
        let len : length (held d3 l3) ≡ length (held done last) + 6 + length xs = omega (
          arith,
          ap length whole,
          length-append ((held done last ++ le4 0) ++ le2 n) xs,
          length-append (held done last ++ le4 0) (le2 n),
          length-append (held done last) (le4 0),
        ) in
        let count : length (payloads (entries d3))
              + length l3.payload
              - (length (payloads (entries done)) + length last.payload)
              - 4
            ≡ 2 + length xs =
          omega (
            arith,
            len,
            length-content fr d3 l3 full3,
            length-payloads fr 0 d3 full3,
            length-content fr done last full,
            length-payloads fr 0 done full,
          ) in
        let (d4, l4, e4, full4, fits4, c4) =
          update_size-Appended fr i p (2 + length xs) d3 l3 positive full3 fits3 inside
            (omega (arith, off, len)) in
        (
          d4,
          l4,
          sized_chain n i p (2 + length xs) body (writer fr done last) (writer fr d1 l1)
              (writer fr d2 l2) (writer fr d3 l3) _ w e1 e2 e3 count e4,
          full4,
          fits4,
          c4 ∙ rw (off, whole) (reserved (held done last) (2 + length xs)),
        )
