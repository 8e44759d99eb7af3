-- ===== src/TypeInfo/Print.antt =====
-- tssd/print.go: `parse`, which reads the bytes of a value into a tree of texts. A text is what
-- `fmt.Sprintf` is given for it, without the name and the Go type of the field. A call fails with
-- the nodes that it has appended so far. Where the source drops the error of a read and goes on,
-- from wherever that read has left the buffer, the answer is `beyond`.
pub mod Tree
pub mod Steps
pub mod Walk
use tssdgo.Prelude.{
  ℕ, zero, suc, ◌+◌, ◌-◌, Bool, true, false, Option, none, some, List, [], ◌∷◌, ◌++◌, replicate,
  leb, ◌==◌, ◌||◌, if◌then◌else◌, ℤ,
}
use tssdgo.Wire.{Error, Result, ok, err, panic, beyond, stuck, ◌>>=◌}
use tssdgo.Wire.Code
use tssdgo.Buffer.{Buffer}
use tssdgo.Buffer.Read.{read, read_byte, peek_byte, check_dump_size, first_byte}
use tssdgo.TypeInfo.{
  TypeInfo, simple, str, time, pointer, object, array, slice, merge_array, merge_slice, dict, Infos,
  no_infos, info, type_of, Value, text, instant,
}
use tssdgo.TypeInfo.Dump.{
  tag_of, same, negative, mismatch, zero_value, mem_dump, str_dump, time_dump, to_count,
}
use tssdgo.TypeInfo.MapDump.{second_byte}

-- What a node says: nothing; a type code and a value; a type code, a total size and a count; the
-- elements of a merged array besides, with the code that they are printed by, and whether the
-- bracket is closed; the number of an entry of a map; and the nodes of the header.
pub data Content : Type 0 where
  blank : Content
  scalar : ℕ → Value → Content
  counted : ℕ → ℤ → ℤ → Content
  listed : ℤ → ℤ → ℕ → List (Option (List ℕ)) → Bool → Content
  numbered : ℕ → Content
  root heading : Content
  magic_text : List ℕ → Content
  version_text : ℕ → ℕ → Content
  schema_text : List ℕ → List ℕ → ℕ → List ℕ → Content

mutual
  pub data Node : Type 0 where
    node : Content → Nodes → Node

  pub data Nodes : Type 0 where
    no_nodes : Nodes
    next_node : Node → Nodes → Nodes

abbrev pub append_nodes : Nodes → Nodes → Nodes
append_nodes no_nodes ms = ms
append_nodes (next_node n ns) ms = next_node n (append_nodes ns ms)

abbrev pub leaf : Content → Nodes
leaf c = next_node (node c no_nodes) no_nodes

pub data End : Type 0 where
  done : Buffer → End
  failed : Error → End

-- `if err != nil`
abbrev pub attempt {ℓ κ} :
    {A : Type ℓ} {B : Type κ} → Result A → (Error → Result B) → (A → Result B) → Result B
attempt (ok a) f g = g a
attempt (err e) f g = f e
attempt panic f g = panic
attempt beyond f g = beyond
attempt stuck f g = stuck

-- Nodes, and then those of what goes on.
abbrev pub followed : Result (Nodes × End) → (Buffer → Result (Nodes × End)) → Result (Nodes × End)
followed r f = r >>= λ (ns, end). elim end [
  | failed e ↦ ok (ns, failed e)
  | done b ↦ f b >>= λ (ms, end'). ok (append_nodes ns ms, end')
]

-- The node with the nodes that were appended to it.
abbrev pub enclosed : Content → Result (Nodes × End) → Result (Nodes × End)
enclosed c r = r >>= λ (ns, end). ok (next_node (node c ns) no_nodes, end)

-- An error behind the node that was appended empty.
abbrev pub empty_failed : Error → Result (Nodes × End)
empty_failed e = ok (leaf blank, failed e)

-- The type code is looked at and compared; another one is reported, and no error.
abbrev pub opened : ℕ → (Buffer → Result (Nodes × End)) → Buffer → Result (Nodes × End)
opened t body b =
    attempt (peek_byte b) (λ e. ok (no_nodes, failed e))
      λ (x, b1). elim (tag_of x t) [
        | same ↦ body b1
        | negative ↦ ok (leaf blank, done b1)
        | mismatch ↦ ok (no_nodes, done b1)
      ]

-- The sizes behind the code of an object, an array or a map.
abbrev pub with_sizes : (ℤ → ℤ → Buffer → Result (Nodes × End)) → Buffer → Result (Nodes × End)
with_sizes k b =
    attempt (read_byte b) empty_failed
      λ (x, b1). attempt (check_dump_size b1) empty_failed λ (sizet, n, b2). k sizet n b2

abbrev pub among : List ℕ → ℕ → Bool
among [] t = false
among (c ∷ cs) t = (t == c) || among cs t

-- The size of the variable `d` that `dprintf` and `dprintf2` read a value of the code into.
unfoldable pub width_of : ℕ → Option ℕ
width_of t =
    let small = among (Code.bool ∷ Code.int8 ∷ Code.uint8 ∷ []) t in
    let half = among (Code.int16 ∷ Code.uint16 ∷ []) t in
    let single = among (Code.int32 ∷ Code.uint32 ∷ Code.float32 ∷ []) t in
    let double = among (Code.int64 ∷ Code.uint64 ∷ Code.float64 ∷ []) t in
    if small || half
    then some (if small then 1 else 2)
    else if single || double
    then some (if single then 4 else 8)
    else none

-- `parseMergeArray` and `dprintf2` for an element of `size` bytes, printed by the code `t`: a code
-- that is not known reads nothing, and a variable too small is written past its end.
abbrev pub print_element : ℕ → ℕ → Buffer → Result (Option (List ℕ) × Buffer)
print_element size t b = elim (width_of t) [
  | none ↦ ok (none, b)
  | some w ↦ read size b >>= λ (bs, b1).
      if leb size w then ok (some (bs ++ replicate (w - size) 0), b1) else beyond
]

-- The loop over the elements of a merged array.
unfoldable pub print_elements : ℕ → ℕ → ℕ → Buffer → Result (List (Option (List ℕ)) × End)
print_elements size t zero b = ok ([], done b)
print_elements size t (suc n) b =
    attempt (print_element size t b) (λ e. ok ([], failed e))
      λ (s, b1). print_elements size t n b1 >>= λ (ss, end). ok (s ∷ ss, end)

abbrev pub is_done : End → Bool
is_done (done b) = true
is_done (failed e) = false

-- `Tarraym`: both codes are read at once.
abbrev pub print_merged : ℕ → Buffer → Result (Nodes × End)
print_merged size b = attempt (read 2 b) empty_failed λ (bs, b1).
    attempt (check_dump_size b1) empty_failed λ (sizet, n, b2).
      print_elements size (second_byte bs) (to_count n) b2 >>= λ (ss, end).
      ok (leaf (listed sizet n (second_byte bs) ss (is_done end)), end)

-- The loop over the elements of an array.
unfoldable pub print_items : (Buffer → Result (Nodes × End)) → ℕ → Buffer → Result (Nodes × End)
print_items one zero b = ok (no_nodes, done b)
print_items one (suc n) b = followed (one b) (print_items one n)

-- A key or a value: its error is dropped.
abbrev pub unchecked :
    Result (Nodes × End) → (Nodes → Buffer → Result (Nodes × End)) → Result (Nodes × End)
unchecked r f = r >>= λ (ns, end). elim end [ failed e ↦ beyond | done b ↦ f ns b ]

-- `KVNode[%d]`
abbrev pub begun : ℕ → Nodes → Nodes
begun k ns = next_node (node (numbered k) ns) no_nodes

-- The loop over the entries of a map, from number `k` on. The bytes in front of a key and a value
-- are read, and not compared.
unfoldable pub print_entries :
    (Buffer → Result (Nodes × End))
    → (Buffer → Result (Nodes × End))
    → ℕ
    → ℕ
    → Buffer
    → Result (Nodes × End)
print_entries key val k zero b = ok (no_nodes, done b)
print_entries key val k (suc n) b =
    attempt (read_byte b) (λ e. ok (begun k no_nodes, failed e))
      λ (x, b1). unchecked (key b1) λ ks b2.
        attempt (read_byte b2) (λ e. ok (begun k ks, failed e))
          λ (y, b3). unchecked (val b3) λ vs b4.
            followed (ok (begun k (append_nodes ks vs), done b4)) (print_entries key val (suc k) n)

module _ (parse : List ℕ → Option ℕ) where
  unfoldable mutual
    -- Behind the comparison of the type code.
    pub print_body : TypeInfo → Buffer → Result (Nodes × End)
    print_body (simple t n) b = elim (width_of t) [
      | none ↦ ok (leaf blank, done b)
      | some w ↦
          attempt (mem_dump t n b (zero_value (simple t n))) (λ e. beyond)
            λ (v, b1). ok (leaf (scalar t v), done b1)
    ]
    print_body str b =
        attempt (str_dump b (text [])) (λ e. beyond)
          λ (v, b1). ok (leaf (scalar Code.string v), done b1)
    print_body time b =
        attempt (time_dump parse b (instant 0)) empty_failed
          λ (v, b1). ok (leaf (scalar Code.time v), done b1)
    print_body (pointer t) b = ok (leaf blank, done b)
    print_body (object ts) b =
        with_sizes
          (λ sizet n b1. enclosed (counted Code.object sizet n) (print_fields ts (to_count n) b1)) b
    print_body (array n e t) b =
        with_sizes
          (λ sizet m b1.
            enclosed (counted Code.array sizet m)
              (print_items (opened (type_of t) (print_body t)) (to_count m) b1))
          b
    print_body (slice t) b =
        with_sizes
          (λ sizet m b1.
            enclosed (counted Code.array sizet m)
              (print_items (opened (type_of t) (print_body t)) (to_count m) b1))
          b
    print_body (merge_array n t e) b = print_merged e b
    print_body (merge_slice t e) b = print_merged e b
    print_body (dict k v) b =
        with_sizes
          (λ sizet m b1. enclosed (counted Code.dict sizet m) (
            print_entries (opened (type_of k) (print_body k)) (opened (type_of v) (print_body v)) 0
              (to_count m) b1))
          b

    -- `info.info[i]` for `i` below the count on the wire.
    pub print_fields : Infos → ℕ → Buffer → Result (Nodes × End)
    print_fields ts zero b = ok (no_nodes, done b)
    print_fields no_infos (suc n) b = panic
    print_fields (info t ts) (suc n) b =
        followed (opened (type_of t) (print_body t) b) (print_fields ts n)

  -- `parse`: the nodes that it appends to the parent.
  unfoldable pub print_parse : TypeInfo → Buffer → Result (Nodes × End)
  print_parse t b = opened (type_of t) (print_body t) b
