-- ===== src/TypeInfo/Dump/Sound.antt =====
-- Reading keeps the type of the destination, on any bytes: a value that `dump` answers is of the
-- type, whatever the buffer holds, and the buffer still has its fragments.
use tssdgo.Prelude.{ℕ, ◌≡◌, ◌∙◌, Option, none, some, List, ◌==◌, if◌then◌else◌, pos, negsuc}
use tssdgo.Wire.{ok, err, panic, ◌>>=◌, negated, invalid_data, other}
use tssdgo.Wire.Code
use tssdgo.Buffer.{Buffer}
use tssdgo.Buffer.Read.{check_dump_size}
use tssdgo.Buffer.Read.Yields.{
  Later, Yields, Upon-if, Yields-bind, read_byte-Yields, peek_byte-Yields, check_dump_size-Yields,
}
use mathlib.Core.Path.{subst}
use tssdgo.TypeInfo.{
  TypeInfo, simple, str, time, pointer, object, array, slice, merge_array, merge_slice, dict, Infos,
  no_infos, info, info_count, type_of, element_index, Value, instant, fields, elements, nil_slice,
  items, nil_map, entries, Items, repeat_item,
}
use tssdgo.TypeInfo.Shaped.{
  Shaped, of_time, of_nil_pointer, of_pointee, of_object, of_array, of_nil_slice, of_slice,
  of_nil_map, of_map, ShapedFields, of_no_fields, of_field, repeat_item-Shaped, item_count-repeat,
  zero_value-Shaped,
}
use tssdgo.TypeInfo.Dump.{
  same, negative, mismatch, zero_value, string_dump, dump_items, grown, expect_byte, dump_entries,
  to_count, is_count, time_dump, dump, dump_fields,
}
use tssdgo.TypeInfo.Dump.Bytes.{
  same_buffer, by_tag, by_sign, mem_dump-Shaped, behind_string, str_dump-Shaped, expect_byte-Yields,
  merge_array_dump-Shaped, merge_slice_dump-Shaped,
}
use tssdgo.TypeInfo.Dump.Loops.{
  dump_items-Shaped, dump_entries-Shaped, grown-Shaped, pointee_or-Shaped,
}

module _ (parse : List ℕ → Option ℕ) where
  time_dump-Shaped :
      (b : Buffer) (d : Value) → Shaped time d → Yields (Shaped time) b (time_dump parse b d)
  unfolding time_dump
  time_dump-Shaped b d h =
      by_tag _ Code.time b
        (λ g b1. elim g [
          | same ↦ expect_byte Code.string b1 >>= λ b2. string_dump b2 >>= λ (s, b3).
              elim (parse s) [ none ↦ err other | some t ↦ ok (instant t, b3) ]
          | negative ↦ ok (d, b1)
          | mismatch ↦ err invalid_data
        ])
        (λ b1.
          expect_byte-Yields _ Code.string b1 _
            λ b2. behind_string _ b2 _ λ s b3. cases (parse s) b3)
        (λ b1. (h, same_buffer b1)) λ b1. tt
    where
      cases :
          (o : Option ℕ) (b3 : Buffer)
          → Yields (Shaped time) b3 (elim o [ none ↦ err other | some t ↦ ok (instant t, b3) ])
      cases none b3 = tt
      cases (some t) b3 = (of_time, same_buffer b3)

  mutual
    unfolding dump

    pub dump_lem :
        (t : TypeInfo) (b : Buffer) {d : Value}
        → Shaped t d
        → Yields (Shaped t) b (dump parse t b d)
    dump_lem (simple t n) b {d} h = mem_dump-Shaped t n b d h
    dump_lem str b {d} h = str_dump-Shaped b d h
    dump_lem time b {d} h = time_dump-Shaped b d h
    dump_lem (pointer t) b {d} h = peek_byte-Yields _ b _ λ x b1.
        Upon-if _ (x == negated (type_of t)) _ _
          (λ e. read_byte-Yields _ b1 _ λ y b2. (of_nil_pointer, same_buffer b2))
          λ e.
            Yields-bind _ (Shaped t) b1 _ _ (dump_lem t b1 (pointee_or-Shaped t h))
              λ v b2 k. (of_pointee k, same_buffer b2)
    dump_lem (object ts) b (of_object {vs = vs} h) =
        by_tag _ Code.object b
          (λ g b1. elim g [
            | same ↦ check_dump_size b1 >>= λ (sizet, n, b2).
                let read_fields = dump_fields parse ts vs b2 >>= λ (ws, b3). ok (fields ws, b3) in
                if is_count n (info_count ts) then read_fields else err invalid_data
            | negative ↦ ok (fields vs, b1)
            | mismatch ↦ err invalid_data
          ])
          (λ b1. check_dump_size-Yields _ b1 _ λ s n b2.
            Upon-if _ (is_count n (info_count ts)) _ _
              (λ e.
                Yields-bind _ (ShapedFields ts) b2 _ _ (dump_fields_lem ts b2 h)
                  λ ws b3 k. (of_object k, same_buffer b3))
              λ e. tt)
          (λ b1. (of_object h, same_buffer b1)) λ b1. tt
    dump_lem (array n e t) b (of_array {vs = vs} c h) =
        by_tag _ Code.array b
          (λ g b1. elim g [
            | same ↦ check_dump_size b1 >>= λ (sizet, m, b2).
                dump_items (dump parse t) (element_index t) (to_count m) 0 vs b2 >>= λ (ws, b3).
                ok (elements ws, b3)
            | negative ↦ ok (elements (repeat_item n (zero_value t)), b1)
            | mismatch ↦ err invalid_data
          ])
          (λ b1. check_dump_size-Yields _ b1 _ λ s m b2.
            Yields-bind _ _ b2 _ _
              (dump_items-Shaped t (dump parse t) (element_index t) (λ b' d k. dump_lem t b' k)
                (to_count m) 0 vs b2 h)
              λ ws b3 (k, e). (of_array (e ∙ c) k, same_buffer b3))
          (λ b1. (
            of_array (item_count-repeat n (zero_value t))
                (repeat_item-Shaped t (zero_value t) n (zero_value-Shaped t)),
            same_buffer b1,
          ))
          λ b1. tt
    dump_lem (slice t) b {d} h =
        by_tag _ Code.array b
          (λ g b1. elim g [
            | same ↦ check_dump_size b1 >>= λ (sizet, m, b2). elim m [
              | pos n ↦
                  let (old, spare) = grown n (zero_value t) d in
                  dump_items (dump parse t) (element_index t) n 0 old b2 >>= λ (vs, b3).
                  ok (items vs spare, b3)
              | negsuc n ↦ panic
            ]
            | negative ↦ ok (nil_slice, b1)
            | mismatch ↦ err invalid_data
          ])
          (λ b1. check_dump_size-Yields _ b1 _ λ s m b2. by_sign _ b2 _ m λ n.
            let (old, spare) = grown-Shaped t n h in
            Yields-bind _ _ b2 _ _
              (dump_items-Shaped t (dump parse t) (element_index t) (λ b' d k. dump_lem t b' k) n 0
                _ b2 old)
              λ ws b3 (k, e). (of_slice k spare, same_buffer b3))
          (λ b1. (of_nil_slice, same_buffer b1)) λ b1. tt
    dump_lem (merge_array n t e) b {d} h = merge_array_dump-Shaped n t e b d h
    dump_lem (merge_slice t e) b {d} h = merge_slice_dump-Shaped t e b d
    dump_lem (dict k v) b {d} h =
        by_tag _ Code.dict b
          (λ g b1. elim g [
            | same ↦ check_dump_size b1 >>= λ (sizet, m, b2).
                dump_entries (λ b'. dump parse k b' (zero_value k))
                  (λ b'. dump parse v b' (zero_value v)) (to_count m) b2
                >>= λ (es, b3). ok (entries es, b3)
            | negative ↦ ok (nil_map, b1)
            | mismatch ↦ err invalid_data
          ])
          (λ b1. check_dump_size-Yields _ b1 _ λ s m b2.
            Yields-bind _ _ b2 _ _
              (dump_entries-Shaped k v _ _ (λ b'. dump_lem k b' (zero_value-Shaped k))
                (λ b'. dump_lem v b' (zero_value-Shaped v)) (to_count m) b2)
              λ es b3 hs. (of_map hs, same_buffer b3))
          (λ b1. (of_nil_map, same_buffer b1)) λ b1. tt

    dump_fields_lem :
        (ts : Infos) (b : Buffer) {vs : Items}
        → ShapedFields ts vs
        → Yields (ShapedFields ts) b (dump_fields parse ts vs b)
    dump_fields_lem no_infos b of_no_fields = (of_no_fields, same_buffer b)
    dump_fields_lem (info t ts) b (of_field h hs) =
        Yields-bind _ (Shaped t) b _ _ (dump_lem t b h) λ w b1 k.
          Yields-bind _ (ShapedFields ts) b1 _ _ (dump_fields_lem ts b1 hs)
            λ ws b2 ks. (of_field k ks, same_buffer b2)

-- Whatever bytes the buffer holds: a value that `dump` answers is of the type of the destination.
-- The fragments are as they were, and no more bytes are unread than before.
pub dump-Shaped :
    (parse : List ℕ → Option ℕ) (t : TypeInfo) (b b' : Buffer) (d v : Value)
    → Shaped t d
    → dump parse t b d ≡ ok (v, b')
    → Shaped t v × Later b b'
dump-Shaped parse t b b' d v h e = subst (λ r. Yields (Shaped t) b r) e (dump_lem parse t b h)
