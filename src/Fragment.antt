-- ===== src/Fragment.antt =====
-- tssd/tssd.go: the type Fragment. Its slices share one backing array, `heads ++ payload ++ spare`:
-- `heads` and `payload` are the slices of those names, `spare` is the room behind the payload,
-- and `Data` is the array's first `data_len` bytes.
pub mod Laws
use tssdgo.Prelude.{ℕ, ◌+◌, List, ◌++◌, length, take, drop, ltb, leb, if◌then◌else◌}
use tssdgo.Wire.{Header, Schema, Result, ok, panic, beyond}

pub record Fragment : Type 0 where
  pub header : Header
  pub schema : Schema
  pub heads : List ℕ
  pub payload : List ℕ
  pub spare : List ℕ
  pub data_len : ℕ
  pub checksum : List ℕ

abbrev pub memory : Fragment → List ℕ
memory f = f.heads ++ (f.payload ++ f.spare)

-- `cap(frag.Data)`.
abbrev pub capacity : Fragment → ℕ
capacity f = length f.heads + length f.payload + length f.spare

unfoldable pub raw_data : Fragment → List ℕ
raw_data f = take f.data_len (memory f)

abbrev pub write_at : ℕ → List ℕ → List ℕ → List ℕ
write_at pos bs xs = take pos xs ++ (bs ++ drop (pos + length bs) xs)

-- A write into the backing array through any slice of it.
unfoldable pub poke : ℕ → List ℕ → Fragment → Fragment
poke pos bs f =
    let m = write_at pos bs (memory f) in
    record f {
      heads = take (length f.heads) m;
      payload = take (length f.payload) (drop (length f.heads) m);
      spare = drop (length f.heads + length f.payload) m;
    }

-- `frag.payload = append(frag.payload, bs...)`: in place while the array has room.
unfoldable pub append_payload : List ℕ → Fragment → Result Fragment
append_payload bs f =
    if leb (length bs) (length f.spare)
    then ok (record f { payload = f.payload ++ bs; spare = drop (length bs) f.spare })
    else beyond

-- `append(frag.Data[:pos], bs...)`, whose result is dropped or stored with the new length.
unfoldable pub append_data : ℕ → List ℕ → Fragment → Result Fragment
unfolding poke
append_data pos bs f =
    if ltb (capacity f) pos
    then panic
    else if leb (pos + length bs) (capacity f)
    then ok (poke pos bs f)
    else beyond
