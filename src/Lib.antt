-- ===== src/Lib.antt =====
-- tssdgo: the TSSD binary format in Go. A value is written by functions that are chosen once per
-- Go type (tssd/typeinfo.go), through a buffer that cuts the bytes into fragments of at most MTU
-- bytes (tssd/buffer.go, tssd/tssd.go); the other side puts the fragments together in any order
-- and reads the value from them.
--
-- Which file models what:
--   Wire, Wire/Code: tssd/tssd.go, the constants, type codes, errors, Header and Schema; the little
--     endian bytes of appendSize2 and appendSize4 of tssd/buffer.go (`le2`, `le4`), and `Result`,
--     the outcome of a call: `ok`, an error, a run-time panic, `beyond` for what Go does outside of
--     the model's memory, and `stuck` for a loop without fuel.
--   Wire/Hash: hash of tssd/tssd.go, and the random id of Flat.TID of tssd/flat.go.
--   Fragment: the type Fragment. Its slices share one backing array, kept as `heads ++ payload ++
--     spare`; `Data` is its first `data_len` bytes.
--   Buffer: the type Buffer, its map of fragments as a list of options by key.
--   Buffer/Write: Append, AppendByte, appendSize2, appendSize4, appendString, writePos, updateSize,
--     updateFragmentID, finish and appendChecksum. Buffer/Write/State says what a buffer that is
--     being written looks like (`writer`); Rounds, Patch, Checksums, Last and Sealed are about
--     Append, updateSize and finish.
--   Buffer/Read: Read, ReadByte, PeekByte, dumpSize2, dumpSize4, checkDumpSizet, checkDumpSize,
--     Rewind and Clear. Buffer/Read/Stream has the abstract view: `Holds b s` says that `s` are the
--     unread bytes of `b`; Items is about bytes and sizes, Again about Rewind and Clear,
--     Yields about what a read leaves of any buffer, Returns about its fuel.
--   Buffer/Assemble: Push, Wanted, Merge, Split and split. Its Push and Wanted are about one call,
--     Gather and Complete about fragments that come in any order, Text about what they hold.
--   Buffer/Output: Fragments and WriteFragments, with Fragment.Write of tssd/tssd.go.
--   TypeInfo: the type typeInfo as a data type with a constructor for each pair of functions that
--     doParse chooses, and Go values as trees. TypeInfo/Save has the functions of tssd/typeinfo.go
--     and tssd/typeinfo_map.go that write, TypeInfo/Dump those that read, TypeInfo/Marshal the
--     entry points. TypeInfo/Encode is the format as a function from values to bytes; TypeInfo/Typed
--     and TypeInfo/Fits say which values have a type whose code and element offsets work, and which the
--     format can carry; TypeInfo/Saveable which the functions for maps can write (no elements of type
--     uintptr); TypeInfo/Shaped which have the form of a type. Dump/Sound and
--     Dump/Truncated are about any bytes and about too few.
--   TypeInfo/MapDump: the functions of tssd/typeinfo_map.go that read. Nothing but one another calls
--     them. They are followed where the string types of fields and elements are `string` itself
--     (`plain`); Set panics on others.
--   TypeInfo/Print: parse, parseMergeArray, dprintf and dprintf2 of tssd/print.go, up to the tree that
--     is printed; a text is what fmt.Sprintf is given. Where the source drops the error of a read and
--     goes on, the answer is `beyond`. Registry/Print: Print and factory.print.
--   TypeInfo/Parse: parse, doParse, setType, updateType, toTSSDType and shouldIgnore, over a tree of
--     kinds in place of reflect.Type; Parse/Shape says what of a type is on the wire.
--   Head: prepare of tssd/buffer.go and Schema.marshal of tssd/tssd.go, the heads of every fragment;
--     Head/Layout is about their bytes.
--   Registry: Register, RegisterCurrent, CurrentVersion, getBuildInfoByTypes of tssd/flat.go, and
--     register and decorate of tssd/factory.go, over the user's Flatable as a parameter, with what
--     reflection shows of an object. Registry/Marshal: Marshal, MarshalTo, Unmarshal, UnmarshalTo
--     and the methods of factory under them; Registry/Delivery joins them.
--     Registry/Index is about the index by type hash, Registry/Chain about the chain of versions.
--   Receiver: the type RBuffer of tssd/rbuffer.go and detectMagic; Receiver/Extract: the parts of a
--     fragment, Extract and Fragment, with Validate of tssd/tssd.go; Receiver/Route: Push and Buffer,
--     whose maps are lists of keys and values; Receiver/Reader: ExtractReader.
--     An int that is -1 until it is known is an option. Receiver/Search, Detect, SchemaPart, Frame,
--     Progress, Returns and Rounds are about the search, the layout of a fragment, and the loop; Route/Filed,
--     Route/Taken and Route/Interleaved about the objects. Sent joins the two sides: what finish
--     leaves, and Extract. Pipe: Pipe of tssd/misc.go.
--   Misc: the comparisons of tssd/misc.go, and isMagic and Heads of tssd/tssd.go.
--   Examples and the modules that end in Examples: tests, and the theorems at concrete inputs.
--
-- Integers are native numbers. A size on the wire is an int32 and a count an int16, cut off when
-- written (`le4`, `le2`) and read with their sign (`signed32`, `signed16`). `append` has fuel for
-- two rounds more than there are bytes: each round takes a byte or opens a fragment that then takes
-- one. `read` has a round for each slot of the map of fragments and one more. `decorate_loop` takes
-- its fuel as an argument: the rank of the version, in a chain without a cycle, is enough.
-- `extract` has a round for each byte held and each byte that comes in, and two more; each round but
-- the last drops five bytes. `extract_reader` takes its fuel as an argument, since how often it reads
-- is up to the reader.
--
-- Not modelled: the layout of the printed text, typeInfo.print and Node.print of tssd/print.go,
-- which nothing calls; MapEqual, MakeMap, randBytes and getCallerInfo of tssd/misc.go, which the
-- tests use; and the example (examples/transfer). The text of a time (time.Format,
-- time.Parse), md5 and hex, rand.Read, rand.Shuffle, ChecksumFunc, reflect.Type.Size, the room that
-- reflect.Value.Grow makes beyond what is asked, the io.Reader of ExtractReader and the io.Writer of
-- WriteFragments are parameters.
pub mod Prelude
pub mod Wire
pub mod Fragment
pub mod Buffer
pub mod TypeInfo
pub mod Registry
pub mod Head
pub mod Receiver
pub mod Misc
mod Examples
mod HeadExamples
mod RegistryExamples
mod ReceiverExamples
mod ParseExamples
mod RouteExamples
mod DeliveryExamples
mod SentExamples
mod ReadExamples
mod GatherExamples
mod OutputExamples
