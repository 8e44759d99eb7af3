-- ===== src/Buffer/Read/Again.antt =====
-- Reading again from the start (`Rewind`), and writing again after `Clear`.
use mathlib.Core.Path.{subst}
use tssdgo.Prelude.{
  sym, ℕ, suc, ◌+◌, ◌<◌, ◌≡◌, refl, ap, some, none, List, [], ◌∷◌, ◌++◌, length, length-append,
  append_assoc, arith, ne→==,
}
use tssdgo.Wire.{ok, panic}
use tssdgo.Fragment.{Fragment}
use tssdgo.Buffer.{Buffer, lookup_entry, payloads, fragment_count, count_entries, one_if_some}
use tssdgo.Buffer.Write.{append, append_loop, append_round, ensure_fragment}
use tssdgo.Buffer.Write.State.{entries, count-entries_full}
use tssdgo.Buffer.Read.{sum_payloads, rewind, clear}
use tssdgo.Buffer.Read.Stream.{At, Holds, Occupied, flat}

pub At-entries : (pre post : List Fragment) → At (entries (pre ++ post)) (length pre) post
At-entries pre [] = tt
At-entries pre (f ∷ post) =
    let next : length (pre ++ f ∷ []) ≡ length pre + 1 =
      omega (arith, length-append pre (f ∷ [])) in
    (
      lookup_here pre,
      rw next at (rw (append_assoc pre (f ∷ []) post) at (At-entries (pre ++ f ∷ []) post)),
    )
  where
    lookup_here :
        (us : List Fragment) → lookup_entry (entries (us ++ f ∷ post)) (length us) ≡ some f
    lookup_here [] = refl
    lookup_here (u ∷ us) = lookup_here us

pub flat-payloads : (fs : List Fragment) → payloads (entries fs) ≡ flat fs
flat-payloads [] = refl
flat-payloads (f ∷ fs) = ap (λ t. f.payload ++ t) (flat-payloads fs)

sum_payloads-entries :
    (fs : List Fragment) → sum_payloads (entries fs) (length fs) ≡ ok (length (flat fs))
sum_payloads-entries [] = refl
sum_payloads-entries (f ∷ fs) = rw (sum_payloads-entries fs, length-append f.payload (flat fs)) refl

-- `Rewind` of a buffer whose map has the fragments `f ∷ fs` at the keys from 0 on succeeds, however
-- much was read before, and all their payloads are unread again, when no fragment behind the first
-- is empty but perhaps the last.
pub rewind-Holds :
    (b : Buffer) (f : Fragment) (fs : List Fragment)
    → b.fragments ≡ entries (f ∷ fs)
    → b.stray ≡ none
    → Occupied fs
    → (b' : Buffer) × (rewind b ≡ ok b') × Holds b' (payloads b.fragments)
unfolding rewind
rewind-Holds b f fs e stray occ =
    let n : fragment_count b ≡ length (f ∷ fs) =
      omega (arith, ap count_entries e, ap one_if_some stray, count-entries_full (f ∷ fs)) in
    (
      record b { index = 0; pos = 0; size = length (flat (f ∷ fs)) },
      rw (n, e, sum_payloads-entries (f ∷ fs)) refl,
      record {
        current = f;
        behind = fs;
        at = subst (λ os. At os 0 (f ∷ fs)) (sym e) (At-entries [] (f ∷ fs));
        within = omega arith;
        bytes = rw (e, flat-payloads fs) refl;
        counted = rw (e, flat-payloads fs) refl;
        occupied = occ;
      },
    )

-- `Clear` forgets the fragments and not where to write: after it, a buffer that had filled a
-- fragment panics at the next `Append` of a byte or more.
pub append-clear :
    (x : ℕ) (xs : List ℕ) (b : Buffer) → 0 < b.windex → append (x ∷ xs) (clear b) ≡ panic
unfolding append append_loop append_round ensure_fragment clear
append-clear x xs b h =
    let fuel : suc (length xs) + 2 ≡ suc (length xs + 2) = omega arith in
    rw (fuel, ne→== b.windex 0 (omega (arith, h))) refl
