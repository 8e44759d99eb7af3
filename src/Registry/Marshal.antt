-- ===== src/Registry/Marshal.antt =====
-- tssd/factory.go and tssd/flat.go: `Marshal` and `Unmarshal`, which join the registry, the heads
-- and the values.
use tssdgo.Prelude.{ℕ, ◌||◌, Option, none, some, List, ◌==◌, if◌then◌else◌}
use tssdgo.Wire.{Schema, Error, Result, ok, err, panic, ◌>>=◌, insufficient_data, schema_unmatch}
use tssdgo.Buffer.{Buffer, new_buffer, entry, fragment_count}
use tssdgo.Buffer.Assemble.{same_text}
use tssdgo.Buffer.Write.{finish}
use tssdgo.Buffer.Read.{rewind}
use tssdgo.Head.{prepare}
use tssdgo.TypeInfo.Marshal.{marshal_to, unmarshal_to}
use tssdgo.Registry.{
  Flatable, lookup_key, is_empty, BuildInfo, Factory, Registers, build_info_by_types, decorate_loop,
}

module _ (flatable : Flatable) (format : ℕ → List ℕ) (parse : List ℕ → Option ℕ)
    (checksum_func : List ℕ → List ℕ) where
  -- `Schema()`, whose id is -1.
  abbrev pub flat_schema : flatable.Object → Schema
  flat_schema flat = record {
    fid = 0xFFFF;
    types = flatable.types flat;
    tid = flatable.tid flat;
    info = flatable.info flat;
  }

  -- `factory.marshalTo` behind `prepare`: an error leaves the buffer as `prepare` did.
  abbrev pub marshal_prepared :
      BuildInfo flatable → flatable.Object → Option Error × Buffer → Result (Option Error × Buffer)
  marshal_prepared bi flat (some e, b) = ok (some e, b)
  marshal_prepared bi flat (none, b) = marshal_to format bi.info (flatable.value flat) b >>= λ b1.
      finish checksum_func b1 >>= λ b2. ok (none, b2)

  unfoldable pub factory_marshal_to :
      Factory flatable → flatable.Object → Buffer → Result (Option Error × Buffer)
  factory_marshal_to f flat b = elim (lookup_key (flatable.version flat) f.versions) [
    | none ↦ ok (some schema_unmatch, b)
    | some bi ↦ prepare format checksum_func (flat_schema flat) b >>= marshal_prepared bi flat
  ]

  -- `MarshalTo`
  unfoldable pub flat_marshal_to :
      Registers flatable → flatable.Object → Buffer → Result (Option Error × Buffer)
  flat_marshal_to r flat b = elim (lookup_key (flatable.family flat) r.families) [
    | none ↦ ok (some schema_unmatch, b)
    | some f ↦ factory_marshal_to f flat b
  ]

  -- `Marshal`
  unfoldable pub flat_marshal :
      Registers flatable → flatable.Object → Result (Option Error × Buffer)
  flat_marshal r flat = flat_marshal_to r flat (new_buffer 0)

  -- A pointer to a buildInfo that is dereferenced.
  abbrev pub build_info_at : List ℕ → Factory flatable → Result (BuildInfo flatable)
  build_info_at version f = elim (lookup_key version f.versions) [ none ↦ panic | some bi ↦ ok bi ]

  -- `bi.info.unmarshalTo(buf, obj)`
  abbrev pub read_object :
      BuildInfo flatable → Buffer → flatable.Object → Result (flatable.Object × Buffer)
  read_object bi b o = unmarshal_to parse bi.info b (flatable.value o) >>= λ (v, b1).
      ok (flatable.with_value o v, b1)

  -- `Decorate` returns the object that it was called on; the source counts on that.
  abbrev pub decorated :
      ℕ
      → Factory flatable
      → flatable.Object
      → flatable.Object × Buffer
      → Result (flatable.Object × Buffer)
  decorated fuel f to (o, b) = decorate_loop flatable fuel f.versions to o >>= λ o1. ok (o1, b)

  -- `factory.unmarshalTo`, with the fuel of `decorate`.
  unfoldable pub factory_unmarshal_to :
      ℕ
      → Registers flatable
      → Factory flatable
      → Buffer
      → flatable.Object
      → Result (flatable.Object × Buffer)
  factory_unmarshal_to fuel r f b dest = if fragment_count b == 0 then err insufficient_data else do
    first ← entry b 0
    here ← build_info_at (flatable.version dest) f
    bi ← build_info_by_types flatable first.schema.types r
    b1 ← rewind b
    if same_text here.types first.schema.types
        then read_object bi b1 dest
        else read_object bi b1 (flatable.build bi.builder) >>= decorated fuel f dest

  -- `UnmarshalTo`
  unfoldable pub flat_unmarshal_to :
      ℕ → Registers flatable → Buffer → flatable.Object → Result (flatable.Object × Buffer)
  flat_unmarshal_to fuel r b dest = elim (lookup_key (flatable.family dest) r.families) [
    | none ↦ err schema_unmatch
    | some f ↦ factory_unmarshal_to fuel r f b dest
  ]

  -- `factory.unmarshal` behind the reading.
  abbrev pub upgraded :
      ℕ → Factory flatable → flatable.Object × Buffer → Result (flatable.Object × Buffer)
  upgraded fuel f (o, b) =
      if is_empty (flatable.progeny o) || same_text (flatable.version o) f.current
      then ok (o, b)
      else build_info_at f.current f >>= λ bi. decorated fuel f (flatable.build bi.builder) (o, b)

  unfoldable pub factory_unmarshal :
      ℕ → Registers flatable → Factory flatable → Buffer → Result (flatable.Object × Buffer)
  factory_unmarshal fuel r f b = if fragment_count b == 0 then err insufficient_data else do
    first ← entry b 0
    bi ← build_info_by_types flatable first.schema.types r
    read ← read_object bi b (flatable.build bi.builder)
    upgraded fuel f read

  -- `Unmarshal`
  unfoldable pub flat_unmarshal :
      ℕ → Registers flatable → Buffer → List ℕ → Result (flatable.Object × Buffer)
  flat_unmarshal fuel r b family = elim (lookup_key family r.families) [
    | none ↦ err schema_unmatch
    | some f ↦ factory_unmarshal fuel r f b
  ]
