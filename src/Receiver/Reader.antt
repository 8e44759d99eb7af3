-- ===== src/Receiver/Reader.antt =====
-- tssd/rbuffer.go: `ExtractReader`, over an io.Reader.
use tssdgo.Prelude.{
  arith, ne→==, ℕ, zero, suc, ◌<◌, ◌≡◌, inl, inr, refl, Bool, true, false, ◌||◌, Option, none, some,
  List, [], length, ltb, if◌then◌else◌, ◌==◌, Bool-cases,
}
use tssdgo.Wire.{
  Error, Result, ok, err, panic, beyond, stuck, ◌>>=◌, buffer_mtu, fragment_min_header_size,
}
use tssdgo.Receiver.{RBuffer, Step, at_most}
use tssdgo.Receiver.Extract.{extract, take_fragment, is_insufficient}
use tssdgo.Receiver.Route.{push_fragment}
use tssdgo.Receiver.Progress.{Asks, Asks-extract}

abbrev pub no_error : Option Error → Bool
no_error none = true
no_error (some e) = false

-- What the loop over the fragments leaves: `more`, `exit`, `got`, the error that is returned at
-- once, and the receiver.
pub record Drained : Type 0 where
  pub more : ℕ
  pub exit : Bool
  pub got : Bool
  pub returned : Option Error
  pub receiver : RBuffer

module _ (index : List (List ℕ × (List ℕ × List ℕ))) (parse : List ℕ → Option ℕ)
    (checksum_func : List ℕ → List ℕ) where
  -- Behind `Extract`: an error ends the loop, and a fragment goes to `Push`.
  abbrev pub handle :
      (Bool → Bool → RBuffer → Result Drained)
      → Bool
      → Bool
      → ℕ × Option Error × RBuffer
      → Result Drained
  handle again exit got (more, some e, r) =
      if is_insufficient e
      then ok (record { more = more; exit = exit; got = got; returned = none; receiver = r })
      else ok (record { more = more; exit = exit; got = got; returned = some e; receiver = r })
  handle again exit got (more, none, r) = take_fragment parse checksum_func r >>= λ (f, r1).
      let (answer, r2) = push_fragment index f r1 in
      again (no_error answer) (got || no_error answer) r2

  -- The inner loop.
  unfoldable pub drain : ℕ → List ℕ → Bool → Bool → RBuffer → Result Drained
  drain zero chunk exit got r = stuck
  drain (suc fuel) chunk exit got r =
      extract parse checksum_func chunk r >>= handle (λ x g r1. drain fuel [] x g r1) exit got

  -- `Read` of the reader, with the number of bytes that there is room for: the bytes, the error, and
  -- the reader.
  module _ (Reader : Type 0) (read : ℕ → Reader → List ℕ × Option Error × Reader) where
    abbrev pub is_end : List ℕ → Bool
    is_end bs = length bs == 0

    abbrev pub last_error : Bool → Option Error → Option Error
    last_error true e = none
    last_error false e = e

    -- Behind the inner loop, with the error of the last `Read`.
    abbrev pub next_read :
        (ℕ → Bool → RBuffer → Reader → Option Error → Result (Option Error × RBuffer × Reader))
        → Option Error
        → Reader
        → Drained
        → Result (Option Error × RBuffer × Reader)
    next_read again e s d = elim d.returned [
      | some x ↦ ok (some x, d.receiver, s)
      | none ↦
          if d.exit
          then ok (last_error d.got e, d.receiver, s)
          else again d.more d.got d.receiver s e
    ]

    -- The outer loop, on fuel: the source has no bound. `fuel` is also that of the inner loop.
    unfoldable pub extract_reader_loop :
        ℕ
        → ℕ
        → ℕ
        → Bool
        → RBuffer
        → Reader
        → Option Error
        → Result (Option Error × RBuffer × Reader)
    extract_reader_loop zero fragments more got r s e = stuck
    extract_reader_loop (suc fuel) fragments more got r s e =
        if more == 0
        then (drain fragments [] false got r
            >>= next_read (λ m g r1 s1 e1. extract_reader_loop fuel fragments m g r1 s1 e1) e s)
        else (let (bs, e1, s1) = read (at_most buffer_mtu more) s in
            drain fragments bs (is_end bs) got r
            >>= next_read (λ m g r2 s2 e2. extract_reader_loop fuel fragments m g r2 s2 e2) e1 s1)

    unfoldable pub extract_reader :
        ℕ → ℕ → RBuffer → Reader → Result (Option Error × RBuffer × Reader)
    extract_reader fuel fragments r s =
        extract_reader_loop fuel fragments fragment_min_header_size false r s none

-- The loop over the fragments returns no error at once, and if it does not end the reading then it
-- wants a byte or more.
abbrev Quiet : Result Drained → Type 0
Quiet (ok d) = (d.returned ≡ none) × (0 < d.more)
Quiet _ = Unit

module _ (index : List (List ℕ × (List ℕ × List ℕ))) (parse : List ℕ → Option ℕ)
    (checksum_func : List ℕ → List ℕ) where
  Quiet->>= :
      {A : Type 0} (m : Result A) (k : A → Result Drained)
      → ((a : A) → Quiet (k a))
      → Quiet (m >>= k)
  Quiet->>= (ok a) k h = h a
  Quiet->>= (err e) k h = tt
  Quiet->>= panic k h = tt
  Quiet->>= beyond k h = tt
  Quiet->>= stuck k h = tt

  handle-Quiet :
      (again : Bool → Bool → RBuffer → Result Drained) (exit got : Bool) (s : Step)
      → ((x g : Bool) (r : RBuffer) → Quiet (again x g r))
      → Asks s
      → Quiet (s >>= handle index parse checksum_func again exit got)
  handle-Quiet again exit got (ok (more, none, r)) h k =
      Quiet->>= (take_fragment parse checksum_func r) _ λ x. h _ _ _
  handle-Quiet again exit got (ok (more, some e, r)) h k = rw (k.0) (refl, k.1)
  handle-Quiet again exit got (err e) h k = tt
  handle-Quiet again exit got panic h k = tt
  handle-Quiet again exit got beyond h k = tt
  handle-Quiet again exit got stuck h k = tt

  drain-Quiet :
      (fuel : ℕ) (chunk : List ℕ) (exit got : Bool) (r : RBuffer)
      → Quiet (drain index parse checksum_func fuel chunk exit got r)
  unfolding drain
  drain-Quiet zero chunk exit got r = tt
  drain-Quiet (suc fuel) chunk exit got r =
      handle-Quiet _ exit got (extract parse checksum_func chunk r)
        (λ x g r1. drain-Quiet fuel [] x g r1) (Asks-extract parse checksum_func chunk r)

  module _ (Reader : Type 0) (read : ℕ → Reader → List ℕ × Option Error × Reader) where
    -- A reader that was read from, each time for at least one byte, beginning as `s0`.
    pub data AskedFrom (s0 : Reader) : Reader → Type 0 where
      unasked : AskedFrom s0 s0
      asked_for : {s : Reader} (n : ℕ) → AskedFrom s0 s → 0 < n → AskedFrom s0 (read n s).2

    -- The error of the last `Read` of the run that ended with the reader `s`.
    abbrev pub IsLast : Reader → Reader → Option Error → Type 0
    IsLast s0 s none = Unit
    IsLast s0 s (some x) =
        (n : ℕ) × (s1 : Reader) × AskedFrom s0 s1
        × (0 < n)
        × ((read n s1).1 ≡ some x)
        × ((read n s1).2 ≡ s)

    abbrev pub Blames : Reader → Result (Option Error × RBuffer × Reader) → Type 0
    Blames s0 (ok (e, r, s)) = AskedFrom s0 s × IsLast s0 s e
    Blames s0 _ = Unit

    last_error-IsLast :
        (s0 s : Reader) (got : Bool) (e : Option Error)
        → IsLast s0 s e
        → IsLast s0 s (last_error index parse checksum_func Reader read got e)
    last_error-IsLast s0 s true e h = tt
    last_error-IsLast s0 s false e h = h

    next_read-Blames :
        (again : ℕ
          → Bool
          → RBuffer
          → Reader
          → Option Error
          → Result (Option Error × RBuffer × Reader))
        (e : Option Error) (s0 s : Reader) (m : Result Drained)
        → ((more : ℕ) (g : Bool) (r : RBuffer) → 0 < more → Blames s0 (again more g r s e))
        → AskedFrom s0 s
        → IsLast s0 s e
        → Quiet m
        → Blames s0 (m >>= next_read index parse checksum_func Reader read again e s)
    next_read-Blames again e s0 s (ok d) h run k (quiet, more) =
        rw quiet (elim (Bool-cases d.exit) [
          | inl y ↦ rw y (run, last_error-IsLast s0 s d.got e k)
          | inr y ↦ rw y (h d.more d.got d.receiver more)
        ])
    next_read-Blames again e s0 s (err x) h run k q = tt
    next_read-Blames again e s0 s panic h run k q = tt
    next_read-Blames again e s0 s beyond h run k q = tt
    next_read-Blames again e s0 s stuck h run k q = tt

    loop-Blames :
        (fuel fragments more : ℕ) (got : Bool) (r : RBuffer) (s0 s : Reader) (e : Option Error)
        → AskedFrom s0 s
        → 0 < more
        → Blames s0 (
            extract_reader_loop index parse checksum_func Reader read fuel fragments more got r s e)
    unfolding extract_reader_loop
    loop-Blames zero fragments more got r s0 s e run h = tt
    loop-Blames (suc fuel) fragments more got r s0 s e run h =
        let asked = at_most buffer_mtu more in
        let some_room : 0 < asked = at_most_pos more h in
        let after : AskedFrom s0 (read asked s).2 = asked_for asked run some_room in
        rw (ne→== more 0 (omega (arith, h))) (
          next_read-Blames
            (λ m g r1 s1 e1.
              extract_reader_loop index parse checksum_func Reader read fuel fragments m g r1 s1 e1)
            (read asked s).1 s0 (read asked s).2
            (drain index parse checksum_func fragments (read asked s).0
              (is_end index parse checksum_func Reader read (read asked s).0) got r)
            (λ m g r1 pos.
              loop-Blames fuel fragments m g r1 s0 (read asked s).2 (read asked s).1 after pos)
            after (given asked (read asked s).1 some_room refl)
            (drain-Quiet fragments (read asked s).0
              (is_end index parse checksum_func Reader read (read asked s).0) got r))
      where
        at_most_pos : (m : ℕ) → 0 < m → 0 < at_most buffer_mtu m
        at_most_pos m h = elim (Bool-cases (ltb m buffer_mtu)) [
          | inl y ↦ rw y h
          | inr y ↦ rw y (omega arith)
        ]

        given : (n : ℕ) (o : Option Error) → 0 < n → (read n s).1 ≡ o → IsLast s0 (read n s).2 o
        given n none pos e = tt
        given n (some x) pos e = (n, s, run, pos, e, refl)

    -- Whatever bytes the reader gives, damaged ones and noise included, the reader that `ExtractReader`
    -- leaves was asked for at least one byte each time, and an error that it returns is the one that
    -- the last `Read` gave.
    pub extract_reader-Blames :
        (fuel fragments : ℕ) (r : RBuffer) (s : Reader)
        → Blames s (extract_reader index parse checksum_func Reader read fuel fragments r s)
    unfolding extract_reader
    extract_reader-Blames fuel fragments r s =
        loop-Blames fuel fragments fragment_min_header_size false r s s none unasked (omega arith)
