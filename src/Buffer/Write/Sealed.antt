-- ===== src/Buffer/Write/Sealed.antt =====
-- What `finish` leaves: the same payloads in the same fragments.
use tssdgo.Prelude.{
  ℕ, ◌+◌, ◌≤◌, ◌<◌, ◌≡◌, refl, sym, ap, ◌∙◌, List, [], ◌∷◌, ◌++◌, length, All, length-append,
  length-take, arith, ltb, ◌==◌, le→ltb, ne→==, false,
}
use tssdgo.Wire.{ok, neg16, tarraym_head_length}
use tssdgo.Fragment.{Fragment, memory, capacity, raw_data}
use tssdgo.Buffer.{Buffer, payloads}
use tssdgo.Buffer.Write.{append_checksums, finish}
use tssdgo.Buffer.Write.State.{
  Frame, total, entries, writer, AllFull, IsOpen, lookup-entries, put-entries, entries-append,
  All-append,
}
use tssdgo.Buffer.Write.Rounds.{update_id}
use tssdgo.Buffer.Write.Checksums.{Alike, AllAlike, HasRoom, AllWrapped, append_checksums-Alike}
use tssdgo.Buffer.Write.Last.{
  cut_last, sealed_last, in_writer, sizes_lem, sealed_heads, sealed_capacity, sealed_data,
  sealed_schema, sealed_payload,
}

full-HasRoom :
    (fr : Frame) (n k : ℕ) (fs : List Fragment)
    → 0 < length fr.heads
    → fr.len_checksum ≡ tarraym_head_length + n
    → AllFull fr k fs
    → All (HasRoom n) fs
full-HasRoom fr n k [] long sum h = tt
full-HasRoom fr n k (f ∷ fs) long sum h =
    let (ends, types, named) = h.0.3 long in
    (
      (omega (arith, ends, h.0), omega (arith, ends, h.0, sum)),
      full-HasRoom fr n (k + 1) fs long sum h.1,
    )

pub AllAlike-payloads :
    (fs gs : List Fragment) → AllAlike fs gs → payloads (entries gs) ≡ payloads (entries fs)
AllAlike-payloads [] [] h = refl
AllAlike-payloads [] (g ∷ gs) h = absurd h
AllAlike-payloads (f ∷ fs) [] h = absurd h
AllAlike-payloads (f ∷ fs) (g ∷ gs) h = rw (h.0.0, AllAlike-payloads fs gs h.1) refl

AllAlike-last :
    (done : List Fragment) (f f' : Fragment) (gs : List Fragment)
    → (f'.payload ≡ f.payload) × (f'.schema ≡ f.schema) × (capacity f' ≡ capacity f)
    → AllAlike (done ++ f' ∷ []) gs
    → AllAlike (done ++ f ∷ []) gs
AllAlike-last [] f f' [] h k = absurd k
AllAlike-last [] f f' (g ∷ gs) h k = ((k.0.0 ∙ h.0, k.0.1 ∙ h.1, omega (arith, k.0.2, h.2)), k.1)
AllAlike-last (d ∷ ds) f f' [] h k = absurd k
AllAlike-last (d ∷ ds) f f' (g ∷ gs) h k = (k.0, AllAlike-last ds f f' gs h k.1)

-- What `finish` leaves, with the last fragment as it stands in front of the checksums.
pub finish-AllWrapped :
    (checksum_func : List ℕ → List ℕ) (n : ℕ) (fr : Frame) (done : List Fragment) (last : Fragment)
    → ((bs : List ℕ) → length (checksum_func bs) ≡ n)
    → fr.len_checksum ≡ tarraym_head_length + n
    → (long : 22 ≤ length fr.heads) → AllFull fr 0 done
    → (opening : IsOpen fr (length done) last)
    → (gs : List Fragment) × AllAlike (done ++ last ∷ []) gs
      × AllWrapped checksum_func (done ++ sealed_last fr done last opening long ∷ []) gs
      × (finish checksum_func (writer fr done last)
          ≡ ok (record (writer fr done last) { fragments = entries gs }))
unfolding finish
finish-AllWrapped checksum_func n fr done last sums sum long full opening =
    let end = sealed_last fr done last opening long in
    let cut = cut_last fr done last opening long in
    let b3 = in_writer fr done last opening long end in
    let at : b3.fragments ≡ entries [] ++ entries (done ++ end ∷ []) =
      sym (entries-append done end) in
    let heads = sealed_heads fr done last opening long in
    let ends = sealed_data fr done last opening long in
    let same = sealed_payload fr done last opening long in
    let room : HasRoom n end = (
      omega (arith, ends, heads, ap length same),
      omega (arith, ends, opening, sum, sealed_capacity fr done last opening long),
    ) in
    let rooms =
      All-append (HasRoom n) done end (full-HasRoom fr n 0 done (omega (arith, long)) sum full)
        room in
    let (gs, alike, around, e) =
      append_checksums-Alike checksum_func n sums (done ++ end ∷ []) [] b3 at rooms in
    let count : length (done ++ end ∷ []) ≡ length done + 1 =
      omega (arith, length-append done (end ∷ [])) in
    let fits : ltb (capacity last) (length fr.heads + length last.payload) ≡ false =
      le→ltb _ _ (omega (arith, opening)) in
    let some_heads : (length fr.heads == 0) ≡ false =
      ne→== (length fr.heads) 0 (omega (arith, long)) in
    let named =
      update_id fr (length done) (length (payloads (entries done)) + length last.payload) done cut
        (neg16 (length done + 1)) in
    (
      gs,
      AllAlike-last done last end gs
          (
            same,
            sealed_schema fr done last opening long,
            sealed_capacity fr done last opening long ∙ sym opening.0,
          )
          alike,
      around,
      rw
          (
            lookup-entries done last [],
            fits,
            some_heads,
            put-entries done last cut [],
            named,
            sizes_lem fr done last opening long,
          )
          (ap (λ k. append_checksums checksum_func k 0 b3) (sym count) ∙ e),
    )

-- `finish` of a buffer that has been written with heads succeeds, and leaves the payload and the
-- schema of every fragment, when the checksum has the length that `prepare` made room for.
pub finish-AllAlike :
    (checksum_func : List ℕ → List ℕ) (n : ℕ) (fr : Frame) (done : List Fragment) (last : Fragment)
    → ((bs : List ℕ) → length (checksum_func bs) ≡ n)
    → fr.len_checksum ≡ tarraym_head_length + n
    → 22 ≤ length fr.heads
    → AllFull fr 0 done
    → IsOpen fr (length done) last
    → (gs : List Fragment) × AllAlike (done ++ last ∷ []) gs
      × (finish checksum_func (writer fr done last)
          ≡ ok (record (writer fr done last) { fragments = entries gs }))
finish-AllAlike checksum_func n fr done last sums sum long full opening =
    let (gs, alike, around, e) =
      finish-AllWrapped checksum_func n fr done last sums sum long full opening in
    (gs, alike, e)

raw_data-bound : (f g : Fragment) (m : ℕ) → Alike f g → capacity f ≡ m → length (raw_data g) ≤ m
unfolding raw_data
raw_data-bound f g m h e = omega (arith, h.2, e, length-take g.data_len (memory g))

AllAlike-bound :
    (fr : Frame) (k n : ℕ) (done : List Fragment) (last : Fragment) (gs : List Fragment)
    → AllFull fr k done
    → IsOpen fr n last
    → AllAlike (done ++ last ∷ []) gs
    → All (λ g. length (raw_data g) ≤ total fr) gs
AllAlike-bound fr k n [] last [] full opening h = tt
AllAlike-bound fr k n [] last (g ∷ []) full opening h =
    (raw_data-bound last g (total fr) h.0 opening.0, tt)
AllAlike-bound fr k n [] last (g ∷ g' ∷ gs) full opening h = absurd h.1
AllAlike-bound fr k n (f ∷ fs) last [] full opening h = tt
AllAlike-bound fr k n (f ∷ fs) last (g ∷ gs) full opening h = (
  raw_data-bound f g (total fr) h.0 full.0.0,
  AllAlike-bound fr (k + 1) n fs last gs full.1 opening h.1,
)

-- No fragment that `finish` leaves, with its heads, payload and checksum, is longer than the MTU,
-- for a buffer that has been written with heads and a checksum of the length that `prepare` made
-- room for.
pub finish-bound :
    (checksum_func : List ℕ → List ℕ) (n : ℕ) (fr : Frame) (done : List Fragment) (last : Fragment)
    → ((bs : List ℕ) → length (checksum_func bs) ≡ n)
    → fr.len_checksum ≡ tarraym_head_length + n
    → 22 ≤ length fr.heads
    → AllFull fr 0 done
    → IsOpen fr (length done) last
    → (b : Buffer) × (gs : List Fragment) × (finish checksum_func (writer fr done last) ≡ ok b)
      × (b.fragments ≡ entries gs)
      × All (λ g. length (raw_data g) ≤ b.mtu) gs
finish-bound checksum_func n fr done last sums sum long full opening =
    let (gs, alike, e) = finish-AllAlike checksum_func n fr done last sums sum long full opening in
    (
      record (writer fr done last) { fragments = entries gs },
      gs,
      e,
      refl,
      AllAlike-bound fr 0 (length done) done last gs full opening alike,
    )
