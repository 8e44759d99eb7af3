-- ===== src/TypeInfo/Dump/Bytes.antt =====
-- What the parts of `dump` that read bytes answer, on any bytes.
use tssdgo.Prelude.{
  ℕ, ◌+◌, ◌*◌, ◌≤◌, ◌≡◌, refl, ◌∙◌, arith, List, [], ◌++◌, length, take, drop, replicate,
  Bool-cases, inl, inr, length-append, length-take, length-drop, length-replicate, ltb, leb, ◌==◌,
  ltb→le, leb→le, ℤ, pos, negsuc,
}
use tssdgo.Wire.{Result, ok, err, panic, beyond, stuck, ◌>>=◌, invalid_data}
use tssdgo.Wire.Code
use tssdgo.Buffer.{Buffer}
use tssdgo.Buffer.Read.{read, read_byte}
use tssdgo.Buffer.Read.Yields.{
  read_byte_lem, Later, Yields-weaken, Upon, Yields, Upon-bind, Upon-if, Yields-from, Yields-bind,
  read-Yields, read_byte-Yields, check_dump_sizet-Yields, check_dump_size-Yields,
}
use tssdgo.TypeInfo.{simple, str, merge_array, merge_slice, Value, bytes, text, nil_slice, raw}
use tssdgo.TypeInfo.Shaped.{
  Shaped, of_simple, of_str, of_merge_array, of_nil_merge_slice, of_merge_slice,
}
use tssdgo.TypeInfo.Dump.{
  Tag, same, negative, mismatch, tag_of, mem_dump_as, mem_dump, recover, read_or, string_dump,
  str_dump, grown_bytes, merge_head, read_into, merge_array_dump, merge_slice_dump, expect_byte,
}

pub same_buffer : (b : Buffer) → Later b b
same_buffer b = (refl, omega arith)

-- The three cases of the type code behind `ReadByte`.
pub by_tag :
    {A : Type 0} (Q : A → Type 0) (t : ℕ) (b : Buffer) (f : Tag → Buffer → Result (A × Buffer))
    → ((b' : Buffer) → Yields Q b' (f same b'))
    → ((b' : Buffer) → Yields Q b' (f negative b'))
    → ((b' : Buffer) → Yields Q b' (f mismatch b'))
    → Yields Q b (read_byte b >>= λ (x, b'). f (tag_of x t) b')
by_tag Q t b f h k l = read_byte-Yields Q b _ λ x b'. cases (tag_of x t) b'
  where
    cases : (g : Tag) (b' : Buffer) → Yields Q b' (f g b')
    cases same b' = h b'
    cases negative b' = k b'
    cases mismatch b' = l b'

-- A negative count panics.
pub by_sign :
    {A : Type 0} (Q : A → Type 0) (b : Buffer) (f : ℕ → Result (A × Buffer)) (m : ℤ)
    → ((n : ℕ) → Yields Q b (f n))
    → Yields Q b (elim m [ pos n ↦ f n | negsuc n ↦ panic ])
by_sign Q b f (pos n) h = h n
by_sign Q b f (negsuc n) h = tt

pub mem_dump-Shaped :
    (t n : ℕ) (b : Buffer) (d : Value)
    → Shaped (simple t n) d
    → Yields (Shaped (simple t n)) b (mem_dump t n b d)
unfolding mem_dump
mem_dump-Shaped t n b d h =
    by_tag _ t b (λ g b1. mem_dump_as g n b1 d)
      (λ b1.
        Upon-if _ (ltb b1.size n) _ _ (λ e. tt)
          λ e.
            Yields-bind _ (λ bs. length bs ≡ n) b1 _ _ (read-Yields n b1)
              λ bs b2 len. (of_simple len, same_buffer b2))
      (λ b1. (h, same_buffer b1)) λ b1. tt

pub recover_lem :
    (old : List ℕ) (n : ℕ) (b : Buffer) (r : Result (List ℕ × Buffer))
    → length old ≤ n
    → Yields (λ bs. length bs ≡ n) b r
    → Yields (λ bs. length bs ≤ n) b (recover old b r)
recover_lem old n b (ok (bs, b')) le (len, l) = (omega arith, l)
recover_lem old n b (err e) le h = (le, same_buffer b)
recover_lem old n b panic le h = tt
recover_lem old n b beyond le h = tt
recover_lem old n b stuck le h = tt

pub read_or-Yields :
    (old : List ℕ) (n : ℕ) (b : Buffer)
    → length old ≤ n
    → Yields (λ bs. length bs ≤ n) b (read_or old n b)
read_or-Yields old n b le = recover_lem old n b (read n b) le (read-Yields n b)

pub string_dump-Yields : (b : Buffer) → Yields (λ s. Unit {0}) b (string_dump b)
unfolding string_dump
string_dump-Yields b = check_dump_sizet-Yields _ b _ λ n b1. by_sign _ b1 _ n λ k.
    Yields-weaken (λ s. length s ≤ k) _ b1 _ (read_or-Yields [] k b1 (omega arith)) (λ s le. tt)

-- `string_dump`, and what goes on behind it.
pub behind_string :
    (Q : Value → Type 0) (b : Buffer) (f : List ℕ × Buffer → Result (Value × Buffer))
    → ((s : List ℕ) (b' : Buffer) → Yields Q b' (f (s, b')))
    → Yields Q b (string_dump b >>= f)
behind_string Q b f k =
    Yields-bind Q _ b (string_dump b) f (string_dump-Yields b) (λ s b' u. k s b')

pub str_dump-Shaped : (b : Buffer) (d : Value) → Shaped str d → Yields (Shaped str) b (str_dump b d)
unfolding str_dump
str_dump-Shaped b d h =
    by_tag _ Code.string b
      (λ g b1. elim g [
        | same ↦ string_dump b1 >>= λ (s, b2). ok (text s, b2)
        | negative ↦ ok (d, b1)
        | mismatch ↦ err invalid_data
      ])
      (λ b1. behind_string _ b1 _ λ s b2. (of_str, same_buffer b2)) (λ b1. (h, same_buffer b1))
      λ b1. tt

pub expect_byte-Yields :
    {A : Type 0} (Q : A → Type 0) (t : ℕ) (b : Buffer) (f : Buffer → Result (A × Buffer))
    → ((b' : Buffer) → Yields Q b' (f b'))
    → Yields Q b (expect_byte t b >>= f)
expect_byte-Yields Q t b f k =
    Upon-bind (Later b) _ (expect_byte t b) f arrives λ b' l. Yields-from Q b b' (f b') l (k b')
  where
    arrives : Upon (Later b) (expect_byte t b)
    arrives =
        Upon-bind _ _ (read_byte b) _ (read_byte_lem b)
          λ (x, b') (u, l). Upon-if _ (x == t) _ _ (λ e. l) λ e. tt

pub read_into-Yields :
    (old : List ℕ) (n : ℕ) (b : Buffer)
    → Yields (λ bs. length bs ≡ length old) b (read_into old n b)
read_into-Yields old n b =
    Yields-bind _ (λ bs. length bs ≤ n) b _ _
      (read_or-Yields (take n old) n b (omega (arith, length-take n old)))
      λ bs b' le.
        Upon-if _ (leb (length bs) (length old)) _ _
          (λ e. (
            omega (
              arith,
              leb→le (length bs) (length old) e,
              length-append bs (drop (length bs) old),
              length-drop (length bs) old,
            ),
            same_buffer b',
          ))
          λ e. tt

pub merge_head-Yields :
    {A : Type 0} (Q : A → Type 0) (t : ℕ) (b : Buffer) (f : ℤ × Buffer → Result (A × Buffer))
    → ((n : ℤ) (b' : Buffer) → Yields Q b' (f (n, b')))
    → Yields Q b (merge_head t b >>= f)
unfolding merge_head
merge_head-Yields Q t b f k =
    Yields-bind Q (λ n. Unit {0}) b (merge_head t b) f
      (read_byte-Yields _ b _ λ x b1.
        Upon-if _ (x == t) _ _ (λ e. check_dump_size-Yields _ b1 _ λ s n b2. (tt, same_buffer b2))
          λ e. tt)
      (λ n b' u. k n b')

pub merge_array_dump-Shaped :
    (n t e : ℕ) (b : Buffer) (d : Value)
    → Shaped (merge_array n t e) d
    → Yields (Shaped (merge_array n t e)) b (merge_array_dump n t e b d)
unfolding merge_array_dump
merge_array_dump-Shaped n t e b d (of_merge_array {bs = old} h) =
    by_tag _ Code.arraym b
      (λ g b1. elim g [
        | same ↦ merge_head t b1 >>= λ (m, b2). elim m [
          | pos k ↦ read_into old (k * e) b2 >>= λ (bs, b3). ok (bytes bs, b3)
          | negsuc k ↦ panic
        ]
        | negative ↦ ok (bytes (replicate (e * n) 0), b1)
        | mismatch ↦ err invalid_data
      ])
      (λ b1. merge_head-Yields _ t b1 _ λ m b2. by_sign _ b2 _ m λ k.
        Yields-bind _ (λ bs. length bs ≡ length old) b2 _ _ (read_into-Yields old (k * e) b2)
          λ bs b3 len. (of_merge_array (len ∙ h), same_buffer b3))
      (λ b1. (of_merge_array (length-replicate {A = ℕ} (e * n) 0), same_buffer b1)) λ b1. tt

pub length-grown_bytes : (n : ℕ) (d : Value) → length (grown_bytes n d).0 ≡ n
length-grown_bytes n (raw k bs spare) = elim (Bool-cases (ltb (length bs + length spare) n)) [
  | inl e ↦ rw e (length-replicate {A = ℕ} n 0)
  | inr e ↦ rw e (
      omega (
        arith,
        length-take n (bs ++ spare),
        length-append bs spare,
        ltb→le (length bs + length spare) n e,
      ))
]
length-grown_bytes n _ = length-replicate {A = ℕ} n 0

pub merge_slice_dump-Shaped :
    (t e : ℕ) (b : Buffer) (d : Value)
    → Yields (Shaped (merge_slice t e)) b (merge_slice_dump t e b d)
unfolding merge_slice_dump
merge_slice_dump-Shaped t e b d =
    by_tag _ Code.arraym b
      (λ g b1. elim g [
        | same ↦ merge_head t b1 >>= λ (m, b2). elim m [
          | pos k ↦
              let (old, spare) = grown_bytes (k * e) d in
              read_into old (k * e) b2 >>= λ (bs, b3). ok (raw k bs spare, b3)
          | negsuc k ↦ panic
        ]
        | negative ↦ ok (nil_slice, b1)
        | mismatch ↦ err invalid_data
      ])
      (λ b1. merge_head-Yields _ t b1 _ λ m b2. by_sign _ b2 _ m λ k.
        let (old, spare) = grown_bytes (k * e) d in
        Yields-bind _ (λ bs. length bs ≡ length old) b2 _ _ (read_into-Yields old (k * e) b2)
          λ bs b3 len. (of_merge_slice (len ∙ length-grown_bytes (k * e) d), same_buffer b3))
      (λ b1. (of_nil_merge_slice, same_buffer b1)) λ b1. tt
