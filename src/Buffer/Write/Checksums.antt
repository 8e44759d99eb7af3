-- ===== src/Buffer/Write/Checksums.antt =====
-- `appendChecksum` on every fragment: the payloads stay, and `Data` gets the checksum behind it.
use tssdgo.Prelude.{
  ℕ, ◌+◌, ◌≤◌, ◌≡◌, refl, sym, ap, ◌∙◌, Option, some, List, [], ◌∷◌, ◌++◌, length, take, All,
  length-append, append_assoc, arith, ltb, leb, le→ltb, le→leb, true, false,
}
use tssdgo.Wire.{ok, le2, le4, tarraym_head_length}
use tssdgo.Wire.Code
use tssdgo.Fragment.{Fragment, memory, capacity, poke, append_data, raw_data}
use tssdgo.Fragment.Laws.{poke_behind-payload, poke-raw_data, raw_data-whole}
use tssdgo.Buffer.{Buffer}
use tssdgo.Buffer.Write.{append_checksum, append_checksums}
use tssdgo.Buffer.Write.State.{entries, lookup-entries, put-entries, entries-append}

-- Two fragments that differ in their heads, checksum and `Data` alone, and `Data` fits the array.
abbrev pub Alike : Fragment → Fragment → Type 0
Alike f g = (g.payload ≡ f.payload) × (g.schema ≡ f.schema) × (g.data_len ≤ capacity f)

-- A fragment whose `Data` ends behind its payload, with room for a checksum of `n` bytes.
abbrev pub HasRoom : ℕ → Fragment → Type 0
HasRoom n f =
    (f.data_len ≡ length f.heads + length f.payload)
    × (f.data_len + (tarraym_head_length + n) ≤ capacity f)

abbrev pub AllAlike : List Fragment → List Fragment → Type 0
AllAlike [] [] = Unit
AllAlike (f ∷ fs) (g ∷ gs) = Alike f g × AllAlike fs gs
AllAlike _ _ = ⊥

-- A checksum with the head of its array.
abbrev pub checksum_tail : List ℕ → List ℕ
checksum_tail sum = Code.arraym ∷ Code.uint8 ∷ (le4 (length sum + 2) ++ (le2 (length sum) ++ sum))

-- `Data` of the second is the heads and the payload of the first, with their checksum behind them.
abbrev pub Wrapped : (List ℕ → List ℕ) → Fragment → Fragment → Type 0
Wrapped checksum_func f g =
    raw_data g ≡ (f.heads ++ f.payload) ++ checksum_tail (checksum_func (f.heads ++ f.payload))

abbrev pub AllWrapped : (List ℕ → List ℕ) → List Fragment → List Fragment → Type 0
AllWrapped checksum_func [] [] = Unit
AllWrapped checksum_func (f ∷ fs) (g ∷ gs) =
    Wrapped checksum_func f g × AllWrapped checksum_func fs gs
AllWrapped checksum_func _ _ = ⊥

abbrev pub with_fragments : List (Option Fragment) → Buffer → Buffer
with_fragments os b = record b { fragments = os }

module _ (checksum_func : List ℕ → List ℕ) (n : ℕ)
    (sums : (bs : List ℕ) → length (checksum_func bs) ≡ n) where
  wrapped :
      (f g : Fragment)
      → HasRoom n f
      → (let tail = checksum_tail (checksum_func (raw_data f)) in
          g ≡ record (poke f.data_len tail f) {
            data_len = f.data_len + length tail;
            checksum = tail;
          })
      → Wrapped checksum_func f g
  unfolding raw_data
  wrapped f g (ends, room) e =
      let tail = checksum_tail (checksum_func (raw_data f)) in
      let size = length f.heads + length f.payload in
      let fits : size + length tail ≤ capacity f = omega (arith, ends, room, sums (raw_data f)) in
      ap (λ x. take x.data_len (memory x)) e
      ∙ (ap (λ m. take (m + length tail) (memory (poke m tail f))) ends
          ∙ (poke-raw_data tail f fits
              ∙ ap (λ r. (f.heads ++ f.payload) ++ checksum_tail (checksum_func r))
                  (raw_data-whole f ends)))

  append_checksum-Alike :
      (done : List Fragment) (f : Fragment) (os : List (Option Fragment)) (b : Buffer)
      → b.fragments ≡ entries done ++ some f ∷ os
      → HasRoom n f
      → (g : Fragment) × Alike f g
        × Wrapped checksum_func f g
        × (append_checksum checksum_func (length done) b
            ≡ ok (with_fragments (entries done ++ some g ∷ os) b))
  unfolding append_checksum append_data poke
  append_checksum-Alike done f os b at (ends, room) =
      let sum = checksum_func (raw_data f) in
      let tail = Code.arraym ∷ Code.uint8 ∷ (le4 (length sum + 2) ++ (le2 (length sum) ++ sum)) in
      let long : length tail ≡ tarraym_head_length + n = omega (arith, sums (raw_data f)) in
      let inside : ltb (capacity f) f.data_len ≡ false = le→ltb _ _ (omega (arith, room)) in
      let fits : leb (f.data_len + length tail) (capacity f) ≡ true =
        le→leb _ _ (omega (arith, room, long)) in
      let g = record (poke f.data_len tail f) {
        data_len = f.data_len + length tail;
        checksum = tail;
      } in
      (
        g,
        (
          poke_behind-payload f.data_len tail f (omega (arith, ends)) (omega (arith, room)),
          refl,
          omega (arith, room, long),
        ),
        wrapped f g (ends, room) refl,
        rw (at, lookup-entries done f os, inside, fits, put-entries done f _ os) refl,
      )

  pub append_checksums-Alike :
      (fs done : List Fragment) (b : Buffer)
      → b.fragments ≡ entries done ++ entries fs
      → All (HasRoom n) fs
      → (gs : List Fragment) × AllAlike fs gs
        × AllWrapped checksum_func fs gs
        × (append_checksums checksum_func (length fs) (length done) b
            ≡ ok (with_fragments (entries done ++ entries gs) b))
  unfolding append_checksums
  append_checksums-Alike [] done b at rooms = ([], tt, tt, ap (λ os. ok (with_fragments os b)) at)
  append_checksums-Alike (f ∷ fs) done b at rooms =
      let (g, alike, around, e) = append_checksum-Alike done f (entries fs) b at rooms.0 in
      let next : length done + 1 ≡ length (done ++ g ∷ []) =
        omega (arith, length-append done (g ∷ [])) in
      let b1 = with_fragments (entries done ++ some g ∷ entries fs) b in
      let there = append_assoc (entries done) (some g ∷ []) (entries fs) in
      let at1 : b1.fragments ≡ entries (done ++ g ∷ []) ++ entries fs =
        sym (ap (λ os. os ++ entries fs) (entries-append done g) ∙ there) in
      let (gs, rest, rest_around, e1) = append_checksums-Alike fs (done ++ g ∷ []) b1 at1 rooms.1 in
      let all : entries (done ++ g ∷ []) ++ entries gs ≡ entries done ++ entries (g ∷ gs) =
        ap (λ os. os ++ entries gs) (entries-append done g)
        ∙ append_assoc (entries done) (some g ∷ []) (entries gs) in
      (
        g ∷ gs,
        (alike, rest),
        (around, rest_around),
        rw (e, next) (e1 ∙ ap (λ os. ok (with_fragments os b)) all),
      )
