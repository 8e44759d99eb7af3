-- ===== src/TypeInfo/Print/Steps.antt =====
-- What the parts of printing do on the bytes of a part of a value.
use tssdgo.Prelude.{
  ℕ, zero, suc, ◌+◌, ◌-◌, ◌*◌, ◌≡◌, refl, some, List, [], ◌∷◌, ◌++◌, length, take, drop, replicate,
  length-append, nil_of_empty, length-take, length-drop, take-append-drop, append_assoc, append-nil,
  arith, le→leb, ℤ, pos,
}
use tssdgo.Wire.{Result, ok, le2, le4}
use tssdgo.Wire.Code
use tssdgo.Buffer.{Buffer}
use tssdgo.Buffer.Read.Stream.{Holds}
use tssdgo.Buffer.Read.Items.{read_byte-Got, read-Got, peek_byte-Got, check_dump_size-Got}
use tssdgo.TypeInfo.Encode.{sized, merged}
use tssdgo.TypeInfo.Fits.{FitsSized}
use tssdgo.TypeInfo.Dump.Parts.{tag_same, sized-Got}
use tssdgo.TypeInfo.Print.{
  Nodes, no_nodes, next_node, End, done, attempt, print_element, opened, with_sizes, width_of,
  print_elements, print_merged,
}
use tssdgo.TypeInfo.Print.Tree.{chunks, merged_node}

-- The call appends the nodes, and the unread bytes are then `rest`.
abbrev pub Prints : Result (Nodes × End) → Nodes → List ℕ → Type 0
Prints r ns rest = (b' : Buffer) × (r ≡ ok (ns, done b')) × Holds b' rest

pub opened-Prints :
    (t : ℕ) (body : Buffer → Result (Nodes × End)) (b : Buffer) (xs : List ℕ) (ns : Nodes)
    (rest : List ℕ)
    → Holds b (t ∷ xs)
    → ((b' : Buffer) → Holds b' (t ∷ xs) → Prints (body b') ns rest)
    → Prints (opened t body b) ns rest
opened-Prints t body b xs ns rest held inner =
    let (b1, r1, h1) = peek_byte-Got b t xs held in
    let (b2, r2, h2) = inner b1 h1 in (b2, rw (r1, attempt, tag_same t, r2), h2)

pub with_sizes-Prints :
    (k : ℤ → ℤ → Buffer → Result (Nodes × End)) (b : Buffer) (t n : ℕ) (body rest : List ℕ)
    (ns : Nodes) (after : List ℕ)
    → FitsSized n body
    → Holds b (t ∷ (sized n body ++ rest))
    → ((b' : Buffer)
        → Holds b' (body ++ rest)
        → Prints (k (pos (2 + length body)) (pos n) b') ns after)
    → Prints (with_sizes k b) ns after
with_sizes-Prints k b t n body rest ns after fits held inner =
    let (b1, r1, h1) = read_byte-Got b t _ held in
    let (b2, r2, h2) = sized-Got b1 n body rest fits h1 in
    let (b3, r3, h3) = inner b2 h2 in (b3, rw (r1, attempt, r2, attempt, r3), h3)

zero_left : (e : ℕ) → e - e ≡ 0
zero_left e = omega arith

pub print_elements-Got :
    (e t n : ℕ) (b : Buffer) (bs rest : List ℕ)
    → width_of t ≡ some e
    → length bs ≡ e * n
    → Holds b (bs ++ rest)
    → (b' : Buffer) × (print_elements e t n b ≡ ok (chunks e n bs, done b')) × Holds b' rest
unfolding print_elements
print_elements-Got e t zero b bs rest known len held =
    (b, refl, rw (nil_of_empty bs (omega arith)) at held)
print_elements-Got e t (suc n) b bs rest known len held =
    let cut = take-append-drop e bs in
    let size : length (take e bs) ≡ e = omega (arith, length-take e bs) in
    let (b1, r1, h1) =
      read-Got b (take e bs) (drop e bs ++ rest) (rw (← cut, append_assoc) at held) in
    let (b2, r2, h2) =
      print_elements-Got e t n b1 (drop e bs) rest known (omega (arith, length-drop e bs)) h1 in
    let whole : replicate {A = ℕ} (e - e) 0 ≡ [] = rw (zero_left e) refl in
    (
      b2,
      rw (
        print_element,
        known,
        rw size at r1,
        le→leb e e (omega arith),
        whole,
        append-nil (take e bs),
        attempt,
        r2,
      ),
      h2,
    )

pub print_merged-Prints :
    (n t e : ℕ) (b : Buffer) (bs rest : List ℕ)
    → FitsSized n bs
    → width_of t ≡ some e
    → length bs ≡ e * n
    → Holds b (merged n t e bs ++ rest)
    → Prints (print_merged e b) (next_node (merged_node n t e bs) no_nodes) rest
print_merged-Prints n t e b bs rest fits known len held =
    let (b1, r1, h1) =
      read-Got b (Code.arraym ∷ t ∷ []) (le4 (2 + e * n) ++ (le2 n ++ (bs ++ rest))) held in
    let (b2, r2, h2) =
      check_dump_size-Got b1 (2 + e * n) n (bs ++ rest) (omega (arith, fits, len)) fits.0
        (omega (arith, len, length-append bs rest)) h1 in
    let (b3, r3, h3) = print_elements-Got e t n b2 bs rest known len h2 in
    (b3, rw (r1, attempt, r2, attempt, r3), h3)
