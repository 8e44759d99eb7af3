-- ===== src/Buffer/Read/Yields.antt =====
-- What a read leaves of the buffer, whatever the buffer holds.
use tssdgo.Prelude.{
  ℕ, zero, suc, ◌+◌, ◌-◌, ◌≤◌, ◌≡◌, refl, sym, ◌∙◌, Bool, true, false, Bool-cases, inl, inr, length,
  take, drop, length-append, length-take, ltb, leb, ◌==◌, if◌then◌else◌, leb→le, ==→eq, arith, ℤ,
}
use tssdgo.Wire.{Result, insufficient_data, ok, err, panic, beyond, stuck, ◌>>=◌}
use tssdgo.Buffer.{Buffer, entry}
use tssdgo.Buffer.Read.{
  skip_used, take_chunk, read_rest, read_on, read, read_byte, byte_at, peek_byte, dump_size2,
  dump_size4, lacks, check_dump_sizet, check_dump_size,
}

-- The fragments are as they were, and no more bytes are unread.
abbrev pub Later : Buffer → Buffer → Type 0
Later b b' = (b'.fragments ≡ b.fragments) × (b'.size ≤ b.size)

-- A result that is not `ok` asks nothing.
abbrev pub Upon {ℓ} : {A : Type ℓ} → (A → Type 0) → Result A → Type 0
Upon P (ok a) = P a
Upon P (err e) = Unit
Upon P panic = Unit
Upon P beyond = Unit
Upon P stuck = Unit

abbrev pub Yields {ℓ} : {A : Type ℓ} → (A → Type 0) → Buffer → Result (A × Buffer) → Type 0
Yields P b r = Upon (λ (a, b'). P a × Later b b') r

pub Upon-bind {κ ℓ} :
    {C : Type κ} {A : Type ℓ} (S : A → Type 0) (Q : C → Type 0) (r : Result A) (go : A → Result C)
    → Upon S r
    → ((a : A) → S a → Upon Q (go a))
    → Upon Q (r >>= go)
Upon-bind S Q (ok a) go held next = next a held
Upon-bind S Q (err e) go held next = tt
Upon-bind S Q panic go held next = tt
Upon-bind S Q beyond go held next = tt
Upon-bind S Q stuck go held next = tt

pub Upon-weaken {ℓ} :
    {A : Type ℓ} (P Q : A → Type 0) (r : Result A) → Upon P r → ((a : A) → P a → Q a) → Upon Q r
Upon-weaken P Q (ok a) h k = k a h
Upon-weaken P Q (err e) h k = tt
Upon-weaken P Q panic h k = tt
Upon-weaken P Q beyond h k = tt
Upon-weaken P Q stuck h k = tt

pub Upon-after {ℓ κ} :
    {A : Type ℓ} {B : Type κ} (Q : B → Type 0) (r : Result A) (f : A → Result B)
    → ((a : A) → Upon Q (f a))
    → Upon Q (r >>= f)
Upon-after Q (ok a) f k = k a
Upon-after Q (err e) f k = tt
Upon-after Q panic f k = tt
Upon-after Q beyond f k = tt
Upon-after Q stuck f k = tt

pub Upon-if {ℓ} :
    {A : Type ℓ} (Q : A → Type 0) (c : Bool) (r s : Result A)
    → (c ≡ true → Upon Q r)
    → (c ≡ false → Upon Q s)
    → Upon Q (if c then r else s)
Upon-if Q true r s h k = h refl
Upon-if Q false r s h k = k refl

pub Later-trans : (a b c : Buffer) → Later a b → Later b c → Later a c
Later-trans a b c (p, h) (q, k) = (q ∙ p, omega arith)

pub Yields-weaken {ℓ} :
    {A : Type ℓ} (P Q : A → Type 0) (b : Buffer) (r : Result (A × Buffer))
    → Yields P b r
    → ((a : A) → P a → Q a)
    → Yields Q b r
Yields-weaken P Q b r h k = Upon-weaken _ _ r h (λ (a, b') (p, l). (k a p, l))

module _ {ℓ} {A : Type ℓ} (Q : A → Type 0) where
  pub Yields-from :
      (b c : Buffer) (r : Result (A × Buffer)) → Later b c → Yields Q c r → Yields Q b r
  Yields-from b c r l h = Upon-weaken _ _ r h (λ (a, b') (q, m). (q, Later-trans b c b' l m))

  pub Yields-bind {κ} :
      {B : Type κ} (P : B → Type 0) (b : Buffer) (r : Result (B × Buffer))
      (f : B × Buffer → Result (A × Buffer))
      → Yields P b r
      → ((a : B) (b' : Buffer) → P a → Yields Q b' (f (a, b')))
      → Yields Q b (r >>= f)
  Yields-bind P b r f h k =
      Upon-bind _ _ r f h (λ (a, b') (p, l). Yields-from b b' (f (a, b')) l (k a b' p))

skip_used-Later : (b : Buffer) → Upon (Later b) (skip_used b)
unfolding skip_used
skip_used-Later b = Upon-after _ (entry b b.index) _ λ f.
    elim (Bool-cases (leb (length f.payload) b.pos)) [
      | inl e ↦ rw e (refl, omega arith)
      | inr e ↦ rw e (refl, omega arith)
    ]

take_chunk-Yields : (n : ℕ) (b : Buffer) → Yields (λ bs. length bs ≤ n) b (take_chunk n b)
unfolding take_chunk
take_chunk-Yields n b = Upon-after _ (entry b b.index) _ λ f.
    Upon-if _ (ltb (length f.payload) b.pos) _ _ (λ e. tt)
      λ e. (omega (arith, length-take n (drop b.pos f.payload)), (refl, omega arith))

read_rest-Yields : (fuel n : ℕ) (b : Buffer) → Yields (λ bs. length bs ≡ n) b (read_rest fuel n b)
unfolding read_rest
read_rest-Yields zero n b = tt
read_rest-Yields (suc fuel) n b = Upon-after _ (entry b b.index) _ λ f.
    let chunk = take n f.payload in
    let left = n - length chunk in
    let b1 = record b { size = b.size - length chunk; index = b.index + 1 } in
    Upon-if _ (left == 0) _ _
      (λ e. (omega (arith, ==→eq left 0 e, length-take n f.payload), (refl, omega arith)))
      λ e.
        Yields-from _ b b1 _ (refl, omega arith)
          (Yields-bind _ (λ bs. length bs ≡ left) b1 _ _ (read_rest-Yields fuel left b1)
            λ bs b' h.
              (omega (arith, length-append chunk bs, length-take n f.payload), (refl, omega arith)))

read_on-Yields : (fuel n : ℕ) (b : Buffer) → Yields (λ bs. length bs ≡ n) b (read_on fuel n b)
unfolding read_on
read_on-Yields fuel n b =
    Yields-bind _ (λ bs. length bs ≤ n) b _ _ (take_chunk-Yields n b)
      λ front b2 h.
        Upon-if _ (leb n (length front)) _ _
          (λ e. (omega (arith, leb→le n (length front) e), (refl, omega arith)))
          λ e. Upon-bind (Later b2) _ _ _ (skip_used-Later b2) λ b3 l. Yields-from _ b2 b3 _ l (
            Yields-bind _ (λ bs. length bs ≡ n - length front) b3 _ _
              (read_rest-Yields fuel (n - length front) b3)
              λ back b4 k. (omega (arith, length-append front back), (refl, omega arith)))

-- `Read` that answers no error fills the slice.
pub read-Yields : (n : ℕ) (b : Buffer) → Yields (λ bs. length bs ≡ n) b (read n b)
unfolding read
read-Yields n b =
    Upon-if _ (n == 0) _ _ (λ e. (sym (==→eq n 0 e), (refl, omega arith)))
      λ e.
        Upon-if _ (ltb b.size n) _ _ (λ f. tt)
          λ f.
            Upon-bind (Later b) _ _ _ (skip_used-Later b)
              λ b1 l. Yields-from _ b b1 _ l (read_on-Yields (length b.fragments + 1) n b1)

pub read_byte_lem : (b : Buffer) → Yields (λ x. Unit {0}) b (read_byte b)
unfolding read_byte
read_byte_lem b =
    Yields-bind _ (λ bs. length bs ≡ 1) b _ _ (read-Yields 1 b) λ bs b' h. (tt, (refl, omega arith))

peek_byte_lem : (b : Buffer) → Yields (λ x. Unit {0}) b (peek_byte b)
unfolding peek_byte
peek_byte_lem b =
    Upon-if _ (b.size == 0) _ _ (λ e. tt)
      λ e. Upon-bind (Later b) _ _ _ (skip_used-Later b) λ b1 l.
        Upon-after _ (entry b1 b1.index) _
          λ f. Upon-after _ (byte_at f.payload b1.pos) _ λ x. (tt, l)

check_dump_sizet_lem : (b : Buffer) → Yields (λ n. Unit {0}) b (check_dump_sizet b)
unfolding check_dump_sizet dump_size4
check_dump_sizet_lem b =
    Yields-bind _ (λ n. Unit {0}) b (dump_size4 b) _
      (Yields-bind _ (λ bs. length bs ≡ 4) b _ _ (read-Yields 4 b)
        λ bs b' h. (tt, (refl, omega arith)))
      λ n b1 u. Upon-after _ (lacks b1 n insufficient_data) _ λ v. (tt, (refl, omega arith))

dump_size2_lem : (b : Buffer) → Yields (λ n. Unit {0}) b (dump_size2 b)
unfolding dump_size2
dump_size2_lem b =
    Yields-bind _ (λ bs. length bs ≡ 2) b _ _ (read-Yields 2 b) λ bs b' h. (tt, (refl, omega arith))

check_dump_size_lem : (b : Buffer) → Upon (λ (s, n, b'). Later b b') (check_dump_size b)
unfolding check_dump_size
check_dump_size_lem b =
    Upon-bind _ _ (check_dump_sizet b) _ (check_dump_sizet_lem b) λ (s, b1) (u, l).
      Upon-bind _ _ (dump_size2 b1) _ (dump_size2_lem b1) λ (n, b2) (v, m). Later-trans b b1 b2 l m

-- What goes on behind one of these reads goes on from a later buffer.
module _ {ℓ} {A : Type ℓ} (Q : A → Type 0) (b : Buffer) where
  pub read_byte-Yields :
      (f : ℕ × Buffer → Result (A × Buffer))
      → ((x : ℕ) (b' : Buffer) → Yields Q b' (f (x, b')))
      → Yields Q b (read_byte b >>= f)
  read_byte-Yields f k = Yields-bind Q _ b (read_byte b) f (read_byte_lem b) (λ x b' h. k x b')

  pub peek_byte-Yields :
      (f : ℕ × Buffer → Result (A × Buffer))
      → ((x : ℕ) (b' : Buffer) → Yields Q b' (f (x, b')))
      → Yields Q b (peek_byte b >>= f)
  peek_byte-Yields f k = Yields-bind Q _ b (peek_byte b) f (peek_byte_lem b) (λ x b' h. k x b')

  pub check_dump_sizet-Yields :
      (f : ℤ × Buffer → Result (A × Buffer))
      → ((n : ℤ) (b' : Buffer) → Yields Q b' (f (n, b')))
      → Yields Q b (check_dump_sizet b >>= f)
  check_dump_sizet-Yields f k =
      Yields-bind Q _ b (check_dump_sizet b) f (check_dump_sizet_lem b) (λ x b' h. k x b')

  pub check_dump_size-Yields :
      (f : ℤ × ℤ × Buffer → Result (A × Buffer))
      → ((s n : ℤ) (b' : Buffer) → Yields Q b' (f (s, n, b')))
      → Yields Q b (check_dump_size b >>= f)
  check_dump_size-Yields f k =
      Upon-bind _ _ (check_dump_size b) f (check_dump_size_lem b)
        (λ (s, n, b') l. Yields-from Q b b' (f (s, n, b')) l (k s n b'))
