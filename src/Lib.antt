-- ===== src/Lib.antt =====
-- A verification library for DragonEgg, the GCC plugin that replaces GCC's optimizers by LLVM: for its
-- calling conventions, the layout of records, its tables and alias metadata, inline assembly, the
-- initial values of globals, and the data structures below them.
--
-- The parts, and how they interact:
--   * DefaultABI (src/DefaultABI.cpp, include/dragonegg/ABI.h) breaks the arguments and the result of
--     a function down for a client (a `DefaultABIClient`): it calls the client back for every scalar,
--     reference and field, and records the scalar types in `ScalarElts`. Files: Client.antt (the
--     callbacks as a log with the vector), Client/Log.antt (well-formed additions to a log),
--     Abi.antt (`PassInIntegerRegisters`, `PassInMixedRegisters`), Abi/Arguments.antt
--     (`HandleArgument`, `HandleUnion`), Abi/Results.antt (`HandleReturnType`), Abi/Single.antt
--     (`isSingleElementStructOrArray`). The proofs are in Abi/Nesting.antt, Abi/Balanced.antt,
--     Abi/Returns.antt and Abi/Bytes.antt.
--   * The targets answer how a type is passed, behind the `LLVM_` macros: src/x86/Target.cpp is
--     X86.antt with X86/Arguments.antt, X86/Returns.antt and X86/Extract.antt, src/arm/Target.cpp is
--     Arm.antt with Arm/Extract.antt. In the development of DefaultABI the macros are the record `Hooks`.
--   * Ranges and interval lists (include/dragonegg/ADT) hold the layout of records and constants:
--     Range.antt is `Range`, Intervals.antt is `IntervalList`. What the template asks of its
--     interval type is the record `Interval`, a parameter of all that is said of the lists.
--   * Bits.antt is `BitSlice` of src/ConstantConversion.cpp, a range of bits in memory with its contents,
--     on top of `Range`; Bits/Extend.antt and Bits/Hull.antt have the proofs. LLVM's integer constants
--     and the constant folder are the record `Folder`, whose laws are the documented meaning of the
--     folder's operations on bits.
--   * Records.antt is the layout of records and unions in src/TypeConversion.cpp, on top of
--     `IntervalList`: Records/Contents.antt has `TypedRange` as an interval and its contents;
--     Records/Fields.antt, Records/Placement.antt and Records/Elements.antt have the proofs, on
--     Intervals/Bounded.antt and Intervals/Wrapped.antt. LLVM's data layout is the record `DataLayout`, and what it says of bytes and
--     of all types is `LayoutRules`. The struct's elements are placed by LLVM's rule for structs, which
--     Records/Placement.antt states.
--   * Caches.antt has the tables of src/Cache.cpp, on GCC's hash table as the interface `HashTable`, against
--     plain maps in Caches/Refines.antt; Caches/FieldIndex.antt is `GetFieldIndex` of
--     src/TypeConversion.cpp, a client of the table of integers.
--   * Aliasing.antt is `describeAliasSet` of src/Aliasing.cpp with its static variables;
--     Aliasing/Leaves.antt, Aliasing/Sound.antt and Aliasing/Calls.antt have the proofs.
--   * Asm.antt is the text of inline assembly in src/Convert.cpp (`ConvertInlineAsmStr`,
--     `isOperandMentioned`), with Asm/Escape.antt and Asm/Ends.antt; Asm/Registers.antt is
--     `CanonicalizeConstraint`, Asm/Weights.antt is `MatchWeight` and `ChooseConstraintTuple`; their
--     children have the proofs.
--   * Phis.antt is `PopulatePhiNodes` of src/Convert.cpp; Phis/Seek.antt, Phis/Fill.antt and
--     Phis/Operands.antt have the proofs. The function under construction is the record `PhiContext`.
--   * Constants.antt has the functions of src/Trees.cpp on integer constants and fields, and
--     `ArrayLengthOf`; Names.antt has the names of trees; Constants/Numbers.antt is about `getAPIntValue`, which
--     reads two host words, of which the second need not be set. LLVM's `APInt` is the record `ApInts`.
--   * The conversion of initial values in src/ConstantConversion.cpp: Views.antt is `ViewAsBits`, a client of
--     `BitSlice`, and Interpret.antt is `InterpretAsType` on top of it. LLVM's data layout and constants
--     are the records `Sizes`, `Constants` and `Makers`, with the laws of Views/Rules.antt and
--     Interpret/Parts.antt; `memory_bit` in Views.antt says which bits a constant has in memory,
--     independently of the code. RegisterConstants.antt is `ExtractRegisterFromConstantImpl` and `RepresentAsMemory`.
--     ArrayInit.antt is `ConvertArrayCONSTRUCTOR`, CharArrays.antt is `ConvertSTRING_CST`.
--     RecordInit.antt is `FieldContents` and the layout that `ConvertRecordCONSTRUCTOR` builds with
--     `IntervalList`, RecordInit/Elements.antt what it makes of the layout. Their children have the proofs.
--   * Globals.antt has the lists of globals in src/Backend.cpp (`changeLLVMConstant`,
--     `register_ctor_dtor`) and the strings of `ConvertMetadataStringToGV`.
--   * Ir.antt has the values of LLVM's `Type`; Base.antt the shared helpers; Examples the runs on
--     small inputs.
--
-- State is passed explicitly: a `State` holds the calls made on the client so far, `ScalarElts` and
-- the attributes. `llvm_unreachable` and a failed `assert` are the value `unreachable` of `Result`.
-- A GCC type is a value of `Tree`, a field list one of `Fields`; what is asked of a type beside its
-- structure stands in a record (`Info`, and `Facts` for the x86 queries), so the answers of GCC and of
-- LLVM's data layout, among them the classes of `classify_argument`, are parameters. A type that
-- contains itself through a pointer is no obstacle, as no function here looks through pointers.
--
-- Bounds and fuel: the recursion is on types and lists. `AlignBoundaries` visits one interval in each
-- round and never makes the list longer, so its fuel is the number of intervals. `ConvertInlineAsmStr`
-- and `isOperandMentioned` have fuel for each character and one more, and Asm/Ends.antt shows that it
-- suffices. The layout of a record computes modulo 2 ^ 64; what is said of it is for types below 2 ^ 35
-- bits, since `GetUnitType` takes 32 bits of the number of bytes. Widths and offsets are unbounded integers
-- where the code asserts that nothing wraps or takes them from GCC; unsigned arithmetic that can wrap (the
-- remainder of a negative offset, the rounding of a boundary in the bounds' type, the size difference of a last element, the size of a field of a union)
-- is reduced modulo 2 ^ 32.
--
-- The loop that splits the elements of an array into runs has fuel for each element, and
-- ArrayInit/Runs.antt shows that it suffices. What is said of the padding of arrays is for
-- types below 2 ^ 32 bits and fewer than 2 ^ 32 elements, since the code holds the numbers of missing
-- bits and of elements in 32 bits. Bit offsets
-- within a constant are unbounded integers where the code has an `int`; the positions of fields are
-- narrowed to `int` as `FieldContents::get` does.
--
-- Not modelled: the conversion of gimple (src/Convert.cpp, but for the strings of inline assembly and for
-- phi nodes) and of types (src/TypeConversion.cpp, but for records, array lengths, `GetFieldIndex` and
-- `isPassedByInvisibleReference`); of constants, the dispatch of `ConvertInitializerImpl`, `ConvertCST`
-- (which prints a number by GCC's `native_encode_expr`), casts, arithmetic on addresses and `AddressOf`,
-- so the values of the entries of a constructor are inputs here; debug information and the plugin's
-- driver, but for the lists of globals: they build LLVM values through its interfaces; the lowering of
-- x86 builtins; the walk over trees that finds homogeneous aggregates for ARM, whose answer is an
-- argument; and the code taken from GCC.
pub mod Base
pub mod Range
pub mod Intervals
pub mod Bits
pub mod Records
pub mod Ir
pub mod Aliasing
pub mod Asm
pub mod Caches
pub mod Phis
pub mod Constants
pub mod Names
pub mod Views
pub mod Interpret
pub mod ArrayInit
pub mod RecordInit
pub mod CharArrays
pub mod RegisterConstants
pub mod Globals
pub mod Client
pub mod X86
pub mod Arm
pub mod Abi
pub mod Examples
