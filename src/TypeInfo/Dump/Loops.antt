-- ===== src/TypeInfo/Dump/Loops.antt =====
-- What the loops of `dump` over elements and entries answer, on any bytes.
use tssdgo.Prelude.{
  ℕ, zero, suc, ◌+◌, ◌≡◌, refl, ◌∙◌, Option-cases, Option, none, some, Bool-cases, inl, inr, ltb,
}
use tssdgo.Wire.{Result}
use tssdgo.Wire.Code
use tssdgo.Buffer.{Buffer}
use tssdgo.Buffer.Read.Yields.{Yields-weaken, Upon, Yields, Upon-bind, Yields-bind}
use tssdgo.TypeInfo.{TypeInfo, pointer, slice, Value, Items, item_count, item_at, set_item}
use tssdgo.TypeInfo.Shaped.{
  Shaped, of_nil_pointer, of_pointee, of_nil_slice, of_slice, ShapedItems, of_no_items,
  ShapedEntries, of_no_entries, of_entry, repeat_item-Shaped, append_items-Shaped,
  take_items-Shaped, drop_items-Shaped, set_item-Shaped, item_count-set_item, item_at-Shaped,
  zero_value-Shaped,
}
use tssdgo.TypeInfo.Dump.{zero_value, slot, dump_items, grown, dump_entries, pointee_or}
use tssdgo.TypeInfo.Dump.Bytes.{same_buffer, expect_byte-Yields}

pub slot-Upon :
    (t : TypeInfo) (vs : Items) (o : Option ℕ)
    → ShapedItems t vs
    → Upon (λ (j, d). Shaped t d) (slot vs o)
slot-Upon t vs none h = tt
slot-Upon t vs (some j) h = elim (Option-cases (item_at vs j)) [
  | inl e ↦ rw (slot, e) tt
  | inr (v, e) ↦ rw (slot, e) (item_at-Shaped t vs j v h e)
]

-- The loop over elements keeps their number.
pub dump_items-Shaped :
    (t : TypeInfo) (one : Buffer → Value → Result (Value × Buffer)) (at : ℕ → Option ℕ)
    → ((b : Buffer) (d : Value) → Shaped t d → Yields (Shaped t) b (one b d))
    → (n i : ℕ) (vs : Items) (b : Buffer) → ShapedItems t vs
    → Yields
        (λ ws. ShapedItems t ws × (item_count ws ≡ item_count vs))
        b
        (dump_items one at n i vs b)
unfolding dump_items
dump_items-Shaped t one at each zero i vs b h = ((h, refl), same_buffer b)
dump_items-Shaped t one at each (suc n) i vs b h =
    Upon-bind _ _ (slot vs (at i)) _ (slot-Upon t vs (at i) h) λ (j, d) hd.
      Yields-bind _ (Shaped t) b (one b d) _ (each b d hd) λ v b' hv.
        Yields-weaken (λ ws. ShapedItems t ws × (item_count ws ≡ item_count (set_item vs j v))) _ b'
          _
          (dump_items-Shaped t one at each n (i + 1) (set_item vs j v) b'
            (set_item-Shaped t vs j v h hv))
          λ ws (k, e). (k, e ∙ item_count-set_item vs j v)

pub dump_entries-Shaped :
    (k v : TypeInfo) (key val : Buffer → Result (Value × Buffer))
    → ((b : Buffer) → Yields (Shaped k) b (key b))
    → ((b : Buffer) → Yields (Shaped v) b (val b))
    → (n : ℕ) (b : Buffer) → Yields (ShapedEntries k v) b (dump_entries key val n b)
unfolding dump_entries
dump_entries-Shaped k v key val hk hv zero b = (of_no_entries, same_buffer b)
dump_entries-Shaped k v key val hk hv (suc n) b = expect_byte-Yields _ Code.dictk b _ λ b1.
    Yields-bind _ (Shaped k) b1 (key b1) _ (hk b1) λ x b2 hx.
      expect_byte-Yields _ Code.dictv b2 _ λ b3.
        Yields-bind _ (Shaped v) b3 (val b3) _ (hv b3) λ y b4 hy.
          Yields-bind _ (ShapedEntries k v) b4 _ _ (dump_entries-Shaped k v key val hk hv n b4)
            λ es b5 hs. (of_entry hx hy hs, same_buffer b5)

pub grown-Shaped :
    (t : TypeInfo) (n : ℕ) {d : Value}
    → Shaped (slice t) d
    → ShapedItems t (grown n (zero_value t) d).0 × ShapedItems t (grown n (zero_value t) d).1
grown-Shaped t n of_nil_slice =
    (repeat_item-Shaped t (zero_value t) n (zero_value-Shaped t), of_no_items)
grown-Shaped t n (of_slice {vs = vs} {spare = spare} h k) =
    elim (Bool-cases (ltb (item_count vs + item_count spare) n)) [
      | inl e ↦ rw e (repeat_item-Shaped t (zero_value t) n (zero_value-Shaped t), of_no_items)
      | inr e ↦
          let whole = append_items-Shaped t vs spare h k in
          rw e (take_items-Shaped t n _ whole, drop_items-Shaped t n _ whole)
    ]

pub pointee_or-Shaped :
    (t : TypeInfo) {d : Value} → Shaped (pointer t) d → Shaped t (pointee_or (zero_value t) d)
pointee_or-Shaped t of_nil_pointer = zero_value-Shaped t
pointee_or-Shaped t (of_pointee h) = h
