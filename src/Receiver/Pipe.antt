-- ===== src/Receiver/Pipe.antt =====
-- tssd/misc.go: `Pipe`, which hands the fragments of a sender's buffer to a receiver in any order and
-- pushes what it finds into a new buffer.
use tssdgo.Prelude.{
  ℕ, ◌%◌, zero, suc, ◌+◌, ◌≤◌, ◌<◌, ◌≡◌, refl, sym, ap, ◌∙◌, Option, none, some, List, [], ◌∷◌,
  ◌++◌, length, All, append-nil, arith,
}
use mathlib.Core.Path.{subst}
use tssdgo.Wire.{Schema, Result, ok, err, panic, ◌>>=◌, magic}
use tssdgo.Fragment.{Fragment, raw_data}
use tssdgo.Buffer.{
  Buffer, found, lookup_entry, fragment_count, count_entries, one_if_some, new_buffer,
}
use tssdgo.Buffer.Write.State.{entries, count-entries_full}
use tssdgo.Buffer.Assemble.{push}
use tssdgo.Buffer.Assemble.Gather.{push_all}
use tssdgo.Receiver.{RBuffer, Step, index_of, new_rbuffer, reset}
use tssdgo.Receiver.Extract.{extract, take_fragment}
use tssdgo.Receiver.SchemaPart.{FitsSchema}
use tssdgo.Receiver.Sent.{IsFrameAt, Numbered, id_at, Numbered-IsFrameAt, extract-IsFrameAt}

-- The keys from `i` on, `n` of them.
abbrev pub numbers : ℕ → ℕ → List ℕ
numbers zero i = []
numbers (suc n) i = i ∷ numbers n (i + 1)

-- `Pipe` panics unless the fragment was complete.
abbrev pub unless_refused : Step → (RBuffer → Result Buffer) → Result Buffer
unless_refused (err e) next = panic
unless_refused r next = r >>= λ (more, e, r'). elim e [
  | some _ ↦ panic
  | none ↦ elim more [ zero ↦ next r' | suc _ ↦ panic ]
]

module _ (parse : List ℕ → Option ℕ) (checksum_func : List ℕ → List ℕ) where
  -- The loop of `Pipe`, over the shuffled keys. What `Push` answers is not looked at.
  unfoldable pub pipe_loop : List (Option Fragment) → List ℕ → RBuffer → Buffer → Result Buffer
  pipe_loop os [] r b = ok b
  pipe_loop os (n ∷ ns) r b = found (lookup_entry os n) >>= λ f.
      unless_refused (extract parse checksum_func (raw_data f) r) λ r1.
        take_fragment parse checksum_func r1 >>= λ (g, r2). pipe_loop os ns r2 (push (some g) b).2

  -- `rand.Shuffle` of the keys.
  module _ (shuffle : List ℕ → List ℕ) where
    unfoldable pub pipe : Buffer → Result Buffer
    pipe sender =
        pipe_loop sender.fragments (shuffle (numbers (fragment_count sender) 0)) new_rbuffer
          (new_buffer 0)

numbers-below : (m n i : ℕ) → i + n ≤ m → All (λ j. j < m) (numbers n i)
numbers-below m zero i h = tt
numbers-below m (suc n) i h = (omega (arith, h), numbers-below m n (i + 1) (omega (arith, h)))

All-entry :
    {P : Fragment → Type 0}
    → (gs : List Fragment) (j : ℕ) → All P gs
    → j < length gs
    → (g : Fragment) × (lookup_entry (entries gs) j ≡ some g) × P g
All-entry [] j all h = absurd (omega arith)
All-entry (g ∷ gs) zero all h = (g, refl, all.0)
All-entry (g ∷ gs) (suc j) all h = All-entry gs j all.1 (omega arith)

module _ (parse : List ℕ → Option ℕ) (checksum_func : List ℕ → List ℕ) (format : ℕ → List ℕ)
    (s : Schema) (fits : FitsSchema s)
    (sums : (bs : List ℕ) → length (checksum_func bs) < 0x8000) where
  -- A fragment no shorter than the shortest that is looked at, with a payload that fits its size.
  abbrev pub IsSized : Fragment → Type 0
  IsSized g = (64 ≤ length (raw_data g)) × (length g.payload < 0x8000)

  -- What comes for the keys: the payloads of their fragments, with the schema of the object and
  -- the id of the key.
  abbrev pub Arrived : List Fragment → List ℕ → List Fragment → Type 0
  Arrived gs [] [] = Unit
  Arrived gs (n ∷ ns) (f ∷ fs) =
      ((g : Fragment) × (lookup_entry (entries gs) n ≡ some g)
        × (f.payload ≡ g.payload)
        × (f.schema ≡ record s { fid = id_at format checksum_func s (length gs) n % 0x10000 }))
      × Arrived gs ns fs
  Arrived gs _ _ = ⊥

  frame_first :
      (i : ℕ) (g : Fragment)
      → IsFrameAt format checksum_func s i g
      → index_of magic (raw_data g) ≡ some 0
  unfolding index_of
  frame_first i g e = ap (index_of magic) e

  loop_lem :
      (gs : List Fragment) (ns : List ℕ) (r : RBuffer) (b : Buffer)
      → Numbered format checksum_func s 0 gs
      → All IsSized gs
      → All (λ j. j < length gs) ns
      → r.data_bytes ≡ []
      → reset r ≡ r
      → (fs : List Fragment) × Arrived gs ns fs
        × (pipe_loop parse checksum_func (entries gs) ns r b ≡ ok (push_all fs b))
  unfolding pipe_loop
  loop_lem gs [] r b numbered sized below empty clean = ([], tt, refl)
  loop_lem gs (n ∷ ns) r b numbered sized below empty clean =
      let (g, at, enough) = All-entry gs n sized below.0 in
      let long = enough.0 in
      let small = enough.1 in
      let i = id_at format checksum_func s (length gs) n in
      let from : 0 + n ≡ n = omega arith in
      let framed : IsFrameAt format checksum_func s i g =
        subst (λ m. IsFrameAt format checksum_func s (id_at format checksum_func s (length gs) m) g)
          from
          (Numbered-IsFrameAt format checksum_func s 0 (length gs) gs n g (omega arith) numbered
            at) in
      let whole = append-nil (raw_data g) in
      let stream : r.data_bytes ++ raw_data g ≡ [] ++ (raw_data g ++ []) =
        ap (λ bs. bs ++ raw_data g) empty ∙ sym whole in
      let first : index_of magic (r.data_bytes ++ raw_data g) ≡ some 0 =
        ap (λ bs. index_of magic (bs ++ raw_data g)) empty ∙ frame_first i g framed in
      let (r1, f, r2, extracted, taken, same, named, left, ready) =
        extract-IsFrameAt parse checksum_func format s i g [] [] (raw_data g) r fits framed stream
          first (omega (arith, long, ap length whole)) small sums in
      let (fs, arrived, e) =
        loop_lem gs ns r2 (push (some f) b).2 numbered sized below.1 left ready in
      let got : extract parse checksum_func (raw_data g) r ≡ ok (0, none, r1) =
        ap (extract parse checksum_func (raw_data g)) (sym clean) ∙ extracted in
      (f ∷ fs, ((g, at, same, named), arrived), rw (at, got, taken) e)

  -- `Pipe` of a buffer whose fragments are those of the sender does not panic: each is found at once,
  -- in whatever order, and pushed with its payload, and the schema of the object with its number,
  -- when Shuffle makes no key up and the sizes fit.
  pub pipe-push_all :
      (shuffle : List ℕ → List ℕ)
      → ((n : ℕ) (ns : List ℕ) → All (λ j. j < n) ns → All (λ j. j < n) (shuffle ns))
      → (b : Buffer) (gs : List Fragment) → b.fragments ≡ entries gs
      → b.stray ≡ none
      → Numbered format checksum_func s 0 gs
      → All IsSized gs
      → (fs : List Fragment) × Arrived gs (shuffle (numbers (length gs) 0)) fs
        × (pipe parse checksum_func shuffle b ≡ ok (push_all fs (new_buffer 0)))
  unfolding pipe new_rbuffer reset
  pipe-push_all shuffle shuffled b gs at no_stray numbered sized =
      let count : fragment_count b ≡ length gs = omega (
        arith,
        ap (one_if_some {A = Fragment}) no_stray,
        ap count_entries at,
        count-entries_full gs,
      ) in
      let ns = shuffle (numbers (length gs) 0) in
      let (fs, arrived, e) =
        loop_lem gs ns new_rbuffer (new_buffer 0) numbered sized
          (shuffled (length gs) (numbers (length gs) 0)
            (numbers-below (length gs) (length gs) 0 (omega arith)))
          refl refl in
      let start : pipe parse checksum_func shuffle b
          ≡ pipe_loop parse checksum_func (entries gs) ns new_rbuffer (new_buffer 0) =
        rw (count, at) refl in
      (fs, arrived, start ∙ e)
