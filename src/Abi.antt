-- ===== src/Abi.antt =====
-- src/DefaultABI.cpp: breaking arguments and results down into calls on an ABI client. A GCC type
-- is a tree by its `TREE_CODE`, with what else is asked of it in `Info`; the target's `LLVM_` macros
-- of include/dragonegg/ABI.h and the data layout are the parameter `Hooks`.
pub mod Single
pub mod Arguments
pub mod Results
pub mod Nesting
pub mod Balanced
pub mod Returns
pub mod Bytes
use dragonegg.Base.{
  ℕ, zero, suc, ◌+◌, ◌-◌, ◌/◌, ◌%◌, ◌^◌, Bool, true, false, not, ◌&&◌, ◌||◌, List, [], ◌∷◌, ◌++◌,
  Option, none, some, ltb, leb, ◌==◌, if◌then◌else◌, map,
}
use dragonegg.Base.Int.{ℤ}
use dragonegg.Base.Results.{Result, ok, unreachable, ◌>>=◌}
use dragonegg.Ir.{
  IrType, IrTypes, void, int, array, struct, nil, cons, to_list, struct_of, is_void, is_integer,
  is_struct, is_array,
}
use dragonegg.Client.{State, enter, exit, scalar, emit, push_scalar}

-- What is asked of a type beside its structure.
pub record Info : Type 0 where
  -- `ConvertType`
  pub ir : IrType
  -- `TYPE_SIZE`, if it is there and constant
  pub size_bits : Option ℕ
  -- `TYPE_SIZE_UNIT`
  pub size_unit : ℕ
  -- `int_size_in_bytes`
  pub int_size : ℤ
  -- `TYPE_ALIGN`
  pub align_bits : ℕ
  -- `TYPE_TRANSPARENT_AGGR`
  pub transparent : Bool
  -- `TREE_ADDRESSABLE`
  pub addressable : Bool

mutual
  pub data Tree : Type 0 where
    -- any type that is no aggregate and not complex
    scalar_type : Info → Tree
    complex_type : Info → Tree → Tree
    record_type : Info → Fields → Tree
    -- `UNION_TYPE` and `QUAL_UNION_TYPE`
    union_type : Info → Fields → Tree
    array_type : Info → Tree → Tree

  -- `TYPE_FIELDS`: fields with their number and `DECL_SIZE` (if constant), and other declarations.
  pub data Fields : Type 0 where
    no_fields : Fields
    field : ℕ → Option ℕ → Tree → Fields → Fields
    other_decl : Fields → Fields

abbrev pub info : Tree → Info
info (scalar_type i) = i
info (complex_type i t) = i
info (record_type i fs) = i
info (union_type i fs) = i
info (array_type i t) = i

-- `isPassedByInvisibleReference` of src/TypeConversion.cpp. `error_mark_node` is no tree here.
unfoldable pub is_passed_by_invisible_reference : Tree → Bool
is_passed_by_invisible_reference t =
    (info t).addressable || elim (info t).size_bits [ none ↦ true | some n ↦ false ]

pub record Hooks : Type 0 where
  pub vector_in_integer_regs : Tree → Bool
  pub vector_by_val : Tree → Bool
  pub try_custom : Tree → State Tree → Result (Bool × State Tree)
  pub as_fca : Tree → Bool
  pub in_mixed_regs : Tree → Result (Bool × List IrType)
  pub partially_in_regs : List IrType → List IrType → Result Bool
  pub by_val : Tree → Bool
  -- the answer, `Size` and `DontCheckAlignment`
  pub in_integer_regs : Tree → Bool × ℕ × Bool
  pub byval_alignment : Tree → ℕ
  -- `GetFieldIndex`
  pub field_index : ℕ → IrType → ℕ
  -- the data layout
  pub alloc_size : IrType → ℕ
  pub int64_align : ℕ
  pub pointer_size : ℕ

-- `C.EnterField(i, sty); C.HandleScalarArgument(t, 0, real_size); push; C.ExitField()`.
abbrev pub pass_field : IrType → ℕ → IrType → ℕ → State Tree → State Tree
pass_field sty i t real_size s =
    emit (push_scalar (emit (emit s (enter i sty)) (scalar t none real_size)) t) exit

-- The smallest integer type for the bytes left over.
unfoldable pub leftover_type : ℕ → Option IrType
leftover_type size =
    if ltb 4 size
    then some (int 64)
    else if ltb 2 size
    then some (int 32)
    else if ltb 1 size
    then some (int 16)
    else if ltb 0 size
    then some (int 8)
    else none

-- The loop over the array of integers, from element `j` on.
unfoldable pub pass_elements : IrType → IrType → ℕ → ℕ → State Tree → State Tree
pass_elements aty elt zero j s = s
pass_elements aty elt (suc left) j s = pass_elements aty elt left (suc j) (pass_field aty j elt 0 s)

-- The array, if there is one, as field 0.
unfoldable pub pass_array : IrType → IrType → IrType → ℕ → State Tree → State Tree
unfolding pass_elements
pass_array sty aty elt n s =
    if ltb 0 n then emit (pass_elements aty elt n 0 (emit s (enter 0 sty))) exit else s

-- The leftover, as the field behind the array.
unfoldable pub pass_leftover : (IrType → ℕ) → IrType → ℕ → ℕ → State Tree → State Tree
unfolding leftover_type
pass_leftover alloc_size sty i size s = elim (leftover_type size) [
  | none ↦ s
  | some t ↦ pass_field sty i t (if size == alloc_size t then 0 else size) s
]

abbrev pub array_field : IrType → ℕ → List IrType
array_field aty n = if ltb 0 n then aty ∷ [] else []

abbrev pub leftover_field : ℕ → List IrType
leftover_field size = elim (leftover_type size) [ none ↦ [] | some t ↦ t ∷ [] ]

-- The part of `PassInIntegerRegisters` behind the choice of the element size (8 or 4 bytes).
unfoldable pub pass_integers : (IrType → ℕ) → ℕ → ℕ → State Tree → State Tree
pass_integers alloc_size element_size size s =
    let elt = int (if element_size == 8 then 64 else 32) in
    let n = size / element_size in
    let left = (if ltb 0 n then size % element_size else size) in
    let aty = array elt n in
    let sty = struct_of false (array_field aty n ++ leftover_field left) in
    pass_leftover alloc_size sty (if ltb 0 n then 1 else 0) left (pass_array sty aty elt n s)

-- `PassInIntegerRegisters`. The size of the type is held in an `unsigned`.
unfoldable pub pass_in_integer_registers :
    Hooks → Tree → ℕ → Bool → State Tree → Result (State Tree)
pass_in_integer_registers h t orig_size dont_check_alignment s =
    let use_int64 = dont_check_alignment || leb h.int64_align ((info t).align_bits / 8) in
    let element_size = (if use_int64 then 8 else 4) in
    if ltb 0 orig_size
    then ok (pass_integers h.alloc_size element_size orig_size s)
    else elim (info t).size_bits [
      | none ↦ unreachable
      | some bits ↦ ok (pass_integers h.alloc_size element_size (bits / 8 % 2 ^ 32) s)
    ]

-- The elements with a word in place of each that is not passed.
abbrev stored_elts : IrType → List IrType → List IrType
stored_elts word elts = map (λ t. if is_void t then word else t) elts

abbrev last_of : List IrType → Option IrType
last_of [] = none
last_of (t ∷ []) = some t
last_of (t ∷ u ∷ ts) = last_of (u ∷ ts)

-- `LastEltSizeDiff`, an unsigned difference; 0 if the last element is to be read whole.
unfoldable pub last_elt_size_diff : Hooks → IrType → List IrType → ℕ
last_elt_size_diff h ty elts =
    let size = h.alloc_size (struct_of false elts) in
    let in_size = h.alloc_size ty in
    if (is_struct ty || is_array ty) && ltb in_size size
    then elim (last_of elts) [
      | none ↦ 0
      | some t ↦ (if is_integer t then (h.alloc_size t + 2 ^ 32 - (size - in_size)) % 2 ^ 32 else 0)
    ]
    else 0

-- The loop of `PassInMixedRegisters`, from element `i` on.
unfoldable pub pass_mixed : IrType → IrType → ℕ → ℕ → List IrType → State Tree → State Tree
pass_mixed sty word diff i [] s = s
pass_mixed sty word diff i (t ∷ []) s = if is_void t then s else pass_field sty i t diff s
pass_mixed sty word diff i (t ∷ u ∷ ts) s =
    pass_mixed sty word diff (suc i) (u ∷ ts) (if is_void t then s else pass_field sty i t 0 s)

-- `PassInMixedRegisters`.
unfoldable pub pass_in_mixed_registers : Hooks → IrType → List IrType → State Tree → State Tree
pass_in_mixed_registers h ty orig_elts s =
    let word = int (if h.pointer_size == 4 then 32 else 64) in
    let elts = stored_elts word orig_elts in
    pass_mixed (struct_of false elts) word (last_elt_size_diff h ty elts) 0 orig_elts s
