-- ===== src/TypeInfo/Dump/Truncated.antt =====
-- A value whose bytes are cut off is refused.
use tssdgo.Prelude.{
  ℕ, zero, suc, ◌+◌, ◌*◌, ◌<◌, ◌≡◌, refl, ◌∙◌, Option, ℤ, List, [], ◌∷◌, ◌++◌, length, take, drop,
  length-take, arith, ne→==, eq→==, ==_refl, lt→ltb, Option,
}
use tssdgo.Wire.{Result, err, insufficient_data, negated, le2, le4, ◌>>=◌}
use tssdgo.Wire.Code
use tssdgo.Buffer.{Buffer}
use tssdgo.Buffer.Read.{
  read_byte, peek_byte, dump_size4, check_dump_sizet, check_dump_size, first_byte,
}
use tssdgo.Buffer.Read.Stream.{Holds}
use tssdgo.Buffer.Read.Items.{read_byte-Got, peek_byte-Got, read-short, dump_size4-Got}
use tssdgo.TypeInfo.{TypeInfo, Value, info_count, item_count, entry_count, type_of}
use tssdgo.TypeInfo.Typed.{
  Typed, is_simple, is_str, is_time, is_nil_pointer, is_pointee, is_object, is_array, is_nil_slice,
  is_slice, is_merge_array, is_nil_merge_slice, is_merge_slice, is_nil_map, is_map,
}
use tssdgo.TypeInfo.Encode.{
  sized, string_bytes, merged, encode, encode_fields, encode_items, encode_entries,
}
use tssdgo.TypeInfo.Fits.{FitsSized, Fits}
use tssdgo.TypeInfo.RoundTrip.{encode_pos, cons_of_pos}
use tssdgo.TypeInfo.Dump.{
  mem_dump, string_dump, str_dump, time_dump, merge_head, merge_array_dump, merge_slice_dump,
  expect_byte, pointee_or, zero_value, dump,
}
use tssdgo.TypeInfo.Dump.Parts.{tag_same, expect_byte-Got}

abbrev Refused {ℓ} : {A : Type ℓ} → Result A → Type ℓ
Refused r = r ≡ err insufficient_data

-- A byte is read, unless there is none.
read_byte-Refused :
    {A : Type 0} (b : Buffer) (k x : ℕ) (xs : List ℕ) (f : ℕ × Buffer → Result A)
    → Holds b (take k (x ∷ xs))
    → ((b' : Buffer) (j : ℕ) → suc j ≡ k → Holds b' (take j xs) → Refused (f (x, b')))
    → Refused (read_byte b >>= f)
unfolding read_byte
read_byte-Refused b zero x xs f held next = rw (read-short b [] 1 held (omega arith)) refl
read_byte-Refused b (suc j) x xs f held next =
    let (b', r, h) = read_byte-Got b x (take j xs) held in rw r (next b' j refl h)

expect_byte-Refused :
    {A : Type 0} (b : Buffer) (k x : ℕ) (xs : List ℕ) (f : Buffer → Result A)
    → Holds b (take k (x ∷ xs))
    → ((b' : Buffer) (j : ℕ) → suc j ≡ k → Holds b' (take j xs) → Refused (f b'))
    → Refused (expect_byte x b >>= f)
unfolding read_byte
expect_byte-Refused b zero x xs f held next = rw (read-short b [] 1 held (omega arith)) refl
expect_byte-Refused b (suc j) x xs f held next =
    let (b', r, h) = expect_byte-Got x b (take j xs) held in rw r (next b' j refl h)

peek_byte-Refused :
    {A : Type 0} (b : Buffer) (k x : ℕ) (xs : List ℕ) (f : ℕ × Buffer → Result A)
    → Holds b (take k (x ∷ xs))
    → (0 < k → (b' : Buffer) → Holds b' (take k (x ∷ xs)) → Refused (f (x, b')))
    → Refused (peek_byte b >>= f)
unfolding peek_byte
peek_byte-Refused b zero x xs f held next = rw (eq→== b.size 0 (omega (arith, held.counted))) refl
peek_byte-Refused b (suc j) x xs f held next =
    let (b', r, h) = peek_byte-Got b x (take j xs) held in rw r (next (omega arith) b' h)

few_bytes : (b : Buffer) (s : List ℕ) → length s < 4 → Holds b s → Refused (check_dump_sizet b)
unfolding check_dump_sizet dump_size4
few_bytes b s few held = rw (read-short b s 4 held few) refl

check_dump_sizet-Refused :
    (b : Buffer) (k n : ℕ) (xs : List ℕ)
    → n < 0x80000000
    → k < 4 + n
    → Holds b (take k (le4 n ++ xs))
    → Refused (check_dump_sizet b)
unfolding check_dump_sizet
check_dump_sizet-Refused b zero n xs small cut held =
    few_bytes b (take 0 (le4 n ++ xs)) (omega arith) held
check_dump_sizet-Refused b (suc zero) n xs small cut held =
    few_bytes b (take 1 (le4 n ++ xs)) (omega arith) held
check_dump_sizet-Refused b (suc (suc zero)) n xs small cut held =
    few_bytes b (take 2 (le4 n ++ xs)) (omega arith) held
check_dump_sizet-Refused b (suc (suc (suc zero))) n xs small cut held =
    few_bytes b (take 3 (le4 n ++ xs)) (omega arith) held
check_dump_sizet-Refused b (suc (suc (suc (suc j)))) n xs small cut held =
    let (b', r, h) = dump_size4-Got b n (take j xs) small held in
    let less : b'.size < n = omega (arith, h.counted, length-take j xs) in
    rw (r, lt→ltb b'.size n less) refl

-- A counted body, and what goes on behind its sizes.
sized-Refused :
    {A : Type 0} (b : Buffer) (k n : ℕ) (xs : List ℕ) (f : ℤ × ℤ × Buffer → Result A)
    → n < 0x80000000
    → k < 4 + n
    → Holds b (take k (le4 n ++ xs))
    → Refused (check_dump_size b >>= f)
unfolding check_dump_size
sized-Refused b k n xs f small cut held = rw (check_dump_sizet-Refused b k n xs small cut held) refl

string_dump-Refused :
    (b : Buffer) (k : ℕ) (s : List ℕ)
    → length s < 0x80000000
    → k < 4 + length s
    → Holds b (take k (string_bytes s))
    → Refused (string_dump b)
unfolding string_dump
string_dump-Refused b k s small cut held =
    rw (check_dump_sizet-Refused b k (length s) s small cut held) refl

merge_head-Refused :
    (b : Buffer) (k t n : ℕ) (xs : List ℕ)
    → n < 0x80000000
    → k < 5 + n
    → Holds b (take k (t ∷ (le4 n ++ xs)))
    → Refused (merge_head t b)
unfolding merge_head
merge_head-Refused b k t n xs small cut held =
    read_byte-Refused b k t (le4 n ++ xs) _ held
      λ b' j e h. rw (==_refl t) (sized-Refused b' j n xs _ small (omega arith) h)

-- A code, and then a counted body or a string.
module _ (b : Buffer) (d : Value) (k : ℕ) where
  mem_dump-Refused :
      (t n : ℕ) (bs : List ℕ)
      → length bs ≡ n
      → k < 1 + n
      → Holds b (take k (t ∷ bs))
      → Refused (mem_dump t n b d)
  unfolding mem_dump
  mem_dump-Refused t n bs len cut held = read_byte-Refused b k t bs _ held λ b' j e h.
      let short : b'.size < n = omega (arith, h.counted, length-take j bs) in
      rw (tag_same t, lt→ltb b'.size n short) refl

  str_dump-Refused :
      (s : List ℕ)
      → length s < 0x80000000
      → k < 5 + length s
      → Holds b (take k (Code.string ∷ string_bytes s))
      → Refused (str_dump b d)
  unfolding str_dump
  str_dump-Refused s small cut held =
      read_byte-Refused b k Code.string (string_bytes s) _ held
        λ b' j e h. rw (string_dump-Refused b' j s small (omega arith) h) refl

  time_dump-Refused :
      (parse : List ℕ → Option ℕ) (s : List ℕ)
      → length s < 0x80000000
      → k < 6 + length s
      → Holds b (take k (Code.time ∷ Code.string ∷ string_bytes s))
      → Refused (time_dump parse b d)
  unfolding time_dump
  time_dump-Refused parse s small cut held =
      read_byte-Refused b k Code.time (Code.string ∷ string_bytes s) _ held λ b' j e h.
        expect_byte-Refused b' j Code.string (string_bytes s) _ h
          λ b2 i e2 h2. rw (string_dump-Refused b2 i s small (omega arith) h2) refl

  sized_body-Refused :
      {A : Type 0} (t n : ℕ) (body : List ℕ) (f : ℕ × Buffer → Result A)
      (g : Buffer → ℤ × ℤ × Buffer → Result A)
      → FitsSized n body
      → k < 7 + length body
      → Holds b (take k (t ∷ sized n body))
      → ((b' : Buffer) → f (t, b') ≡ (check_dump_size b' >>= g b'))
      → Refused (read_byte b >>= f)
  sized_body-Refused t n body f g fits cut held same =
      read_byte-Refused b k t (sized n body) f held λ b' j e h.
        same b' ∙ sized-Refused b' j (2 + length body) (le2 n ++ body) (g b') fits.1 (omega arith) h

  merged-Refused :
      {A : Type 0} (n t e : ℕ) (bs : List ℕ) (f : ℕ × Buffer → Result A)
      (g : Buffer → ℤ × Buffer → Result A)
      → FitsSized n bs
      → length bs ≡ e * n
      → k < 8 + length bs
      → Holds b (take k (merged n t e bs))
      → ((b' : Buffer) → f (Code.arraym, b') ≡ (merge_head t b' >>= g b'))
      → Refused (read_byte b >>= f)
  merged-Refused n t e bs f g fits len cut held same =
      read_byte-Refused b k Code.arraym (t ∷ (le4 (2 + e * n) ++ (le2 n ++ bs))) f held
        λ b' j i h. same b' ∙ behind b' j (omega arith) h
    where
      behind :
          (b' : Buffer) (j : ℕ)
          → j < 5 + (2 + e * n)
          → Holds b' (take j (t ∷ (le4 (2 + e * n) ++ (le2 n ++ bs))))
          → Refused (merge_head t b' >>= g b')
      behind b' j less h =
          rw
            (merge_head-Refused b' j t (2 + e * n) (le2 n ++ bs) (omega (arith, len, fits.1)) less
              h)
            refl

module _ (format : ℕ → List ℕ) (parse : List ℕ → Option ℕ) where
  cut_lem :
      {t : TypeInfo} {v : Value}
      → Typed t v
      → Fits format parse t v
      → (b : Buffer) (d : Value) (k : ℕ) → k < length (encode format t v)
      → Holds b (take k (encode format t v))
      → Refused (dump parse t b d)
  unfolding dump encode Fits merge_array_dump merge_slice_dump
  cut_lem (is_simple {t} {n} {bs} p q len) fits b d k cut held =
      mem_dump-Refused b d k t n bs len (omega arith) held
  cut_lem (is_str {s}) fits b d k cut held = str_dump-Refused b d k s fits (omega arith) held
  cut_lem (is_time {t}) fits b d k cut held =
      time_dump-Refused b d k parse (format t) fits.0 (omega arith) held
  cut_lem (is_nil_pointer {t}) fits b d k cut held =
      peek_byte-Refused b k (negated (type_of t)) [] _ held λ some_bytes b' h. absurd (omega arith)
  cut_lem (is_pointee {t} {v} h) fits b d k cut held =
      let e = cons_of_pos (encode format t v) (encode_pos format h) in
      peek_byte-Refused b k (first_byte (encode format t v)) (drop 1 (encode format t v)) _
        (rw e at held)
        λ some_bytes b' h'.
          let inner = cut_lem h fits.0 b' (pointee_or (zero_value t) d) k cut (rw (← e) at h') in
          rw (ne→== (first_byte (encode format t v)) (negated (type_of t)) fits.1, inner) refl
  cut_lem (is_object {ts} {vs} h) fits b d k cut held =
      sized_body-Refused b d k Code.object (info_count ts) (encode_fields format ts vs) _ _ fits.1
        (omega arith) held λ b'. refl
  cut_lem (is_array {n = n} {t = t} {vs = vs} found e h) fits b d k cut held =
      sized_body-Refused b d k Code.array n (encode_items (encode format t) vs) _ _ fits.1
        (omega arith) held λ b'. refl
  cut_lem is_nil_slice fits b d k cut held =
      read_byte-Refused b k (negated Code.array) [] _ held λ b' j e h. absurd (omega arith)
  cut_lem (is_slice {t} {vs} {spare} found h) fits b d k cut held =
      sized_body-Refused b d k Code.array (item_count vs) (encode_items (encode format t) vs) _ _
        fits.1 (omega arith) held λ b'. refl
  cut_lem (is_merge_array {n} {t} {e} {bs} len) fits b d k cut held =
      merged-Refused b d k n t e bs _ _ fits len (omega arith) held λ b'. refl
  cut_lem is_nil_merge_slice fits b d k cut held =
      read_byte-Refused b k (negated Code.arraym) [] _ held λ b' j e h. absurd (omega arith)
  cut_lem (is_merge_slice {n} {t} {e} {bs} {spare} len) fits b d k cut held =
      merged-Refused b d k n t e bs _ _ fits.0 len (omega arith) held λ b'. refl
  cut_lem is_nil_map fits b d k cut held =
      read_byte-Refused b k (negated Code.dict) [] _ held λ b' j e h. absurd (omega arith)
  cut_lem (is_map {k = t} {v = v} {es = es} h) fits b d k cut held =
      sized_body-Refused b d k Code.dict (entry_count es)
        (encode_entries (encode format t) (encode format v) es) _ _ fits.1 (omega arith) held
        λ b'. refl

-- When the unread bytes are the first bytes of a typed value that the format can carry, and not all of
-- them, `dump` refuses with ErrorInSufficientData, whatever the destination holds: it does not panic, and answers no value.
pub dump-take :
    (format : ℕ → List ℕ) (parse : List ℕ → Option ℕ) (t : TypeInfo) (v d : Value) (b : Buffer)
    (k : ℕ)
    → Typed t v
    → Fits format parse t v
    → k < length (encode format t v)
    → Holds b (take k (encode format t v))
    → dump parse t b d ≡ err insufficient_data
dump-take format parse t v d b k typed fits cut held =
    cut_lem format parse typed fits b d k cut held
