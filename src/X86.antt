-- ===== src/X86.antt =====
-- The calling convention queries of src/x86/Target.cpp. What GCC and LLVM answer for a type is
-- gathered in `Facts`, a parameter: `classify_argument` (taken from GCC into the ABIHack files),
-- sizes and machine modes, and `ConvertType`.
pub mod Arguments
pub mod Classes
pub mod Registers
pub mod Returns
pub mod Demand
pub mod Extract
use dragonegg.Base.{
  ℕ, ◌+◌, ◌≤◌, ◌≡◌, Bool, true, false, not, ◌&&◌, ◌||◌, List, [], ◌∷◌, ◌++◌, Option, none, some,
  ltb, leb, ◌==◌, if◌then◌else◌,
}
use dragonegg.Base.Int.{ℤ, pos, ◌-ℤ◌, ltb_ℤ, leb_ℤ, eqb_ℤ}
use dragonegg.Base.Results.{Result, ok, unreachable, ◌>>=◌}
use dragonegg.Ir.{
  IrType, IrTypes, void, float, double, x86_fp80, opaque, int, pointer, vector, array, struct, nil,
  cons, is_vector, is_pointer, is_int_of, is_integer, is_float, is_double, is_int_or_int_vector,
  subtypes, to_list,
}

-- `enum x86_64_reg_class`.
pub data RegClass : Type 0 where
  no_class integer integer_si sse sse_sf sse_df sse_up x87 x87_up complex_x87 : RegClass

-- The `TARGET_` flags that the queries test.
pub record Flags : Type 0 where
  pub target_64bit : Bool
  pub target_macho : Bool
  pub target_mmx : Bool
  pub target_sse : Bool

-- What is asked of GCC and LLVM about one type.
pub record Facts : Type 0 where
  -- `ConvertType`
  pub ir : IrType
  -- `classify_argument`: its count is the length
  pub classes : List RegClass
  -- the mode's size, or `int_size_in_bytes` for `BLKmode`
  pub bytes : ℤ
  -- `int_size_in_bytes`
  pub int_size : ℤ
  -- `examine_argument` says memory, and its register counts
  pub in_memory : Bool
  pub int_regs : ℕ
  pub sse_regs : ℕ
  pub is_complex : Bool
  pub is_vector_tree : Bool
  -- `TYPE_SIZE`, if it is a constant; and `TYPE_SIZE_UNIT`
  pub size_bits : Option ℕ
  pub size_unit : ℕ
  -- `TYPE_VECTOR_SUBPARTS`
  pub subparts : ℕ
  -- `getTypeAllocSize` of the converted type
  pub alloc_size : ℕ

-- `llvm_x86_is_all_integer_types`.
all_integers : List IrType → Bool
all_integers [] = true
all_integers (t ∷ ts) = (is_int_or_int_vector t || is_pointer t) && all_integers ts

unfoldable pub is_all_integer_types : IrType → Bool
unfolding all_integers
is_all_integer_types t = all_integers (subtypes t)

-- Looks past a struct of one element.
abbrev pub unwrapped : IrType → IrType
unwrapped (struct packed (cons t nil)) = t
unwrapped t = t

-- The register type of an SSE, SSEUP pair. The bytes that the code takes off after it are read
-- no more, as the pair ends the loop.
unfoldable pub sse_up_type : IrType → Result IrType
unfolding is_all_integer_types
sse_up_type (vector t n) =
    if n == 2
    then ok (if is_integer t then vector (int 64) 2 else vector double 2)
    else if n == 4
    then ok (if is_integer t then vector (int 32) 4 else vector float 4)
    else unreachable
sse_up_type t = ok (if is_all_integer_types t then vector (int 32) 4 else vector float 4)

-- The two classes of a pair that starts with SSE: what is pushed for arguments.
unfoldable pub sse_pair : IrType → ℤ → RegClass → Result (List IrType)
unfolding sse_up_type
sse_pair ty bytes sse_up = sse_up_type (unwrapped ty) >>= λ t. ok (t ∷ [])
sse_pair ty bytes sse_sf = if eqb_ℤ bytes (pos 12) then ok (double ∷ float ∷ []) else unreachable
sse_pair ty bytes sse = ok (double ∷ double ∷ [])
sse_pair ty bytes sse_df =
    if eqb_ℤ bytes (pos 16) then ok (vector float 2 ∷ double ∷ []) else unreachable
sse_pair ty bytes integer = ok (vector float 2 ∷ int 64 ∷ [])
sse_pair ty bytes no_class = ok (double ∷ void ∷ [])
sse_pair ty bytes c = unreachable

-- A single SSE class at the end.
unfoldable pub sse_last : ℤ → Result (List IrType)
sse_last bytes =
    if eqb_ℤ bytes (pos 8)
    then ok (double ∷ [])
    else if eqb_ℤ bytes (pos 4)
    then ok (float ∷ [])
    else unreachable

-- Ends the loop after the classes that `elts` was pushed for.
abbrev pub finish : List IrType → Result (List IrType) → Result (Bool × List IrType)
finish elts (ok ts) = ok (true, elts ++ ts)
finish elts unreachable = unreachable

-- The loop of `llvm_x86_64_should_pass_aggregate_in_mixed_regs` over the classes that are left,
-- with the bytes left, the types pushed so far and `totallyEmpty`. An SSE class needs to be the
-- last or the last but one, so a pair ends the loop.
unfoldable pub mixed_loop :
    IrType → ℤ → List RegClass → List IrType → Bool → Result (Bool × List IrType)
unfolding sse_pair sse_last
mixed_loop ty bytes [] elts empty = ok (not empty, elts)
mixed_loop ty bytes (integer ∷ cs) elts empty =
    mixed_loop ty (bytes -ℤ pos 8) cs (elts ++ int 64 ∷ []) false
mixed_loop ty bytes (integer_si ∷ cs) elts empty =
    mixed_loop ty (bytes -ℤ pos 8) cs (elts ++ int 64 ∷ []) false
mixed_loop ty bytes (sse ∷ []) elts empty = finish elts (sse_last bytes)
mixed_loop ty bytes (sse ∷ c ∷ []) elts empty = finish elts (sse_pair ty bytes c)
mixed_loop ty bytes (sse ∷ c ∷ d ∷ cs) elts empty = unreachable
mixed_loop ty bytes (sse_sf ∷ cs) elts empty =
    mixed_loop ty (bytes -ℤ pos 4) cs (elts ++ float ∷ []) false
mixed_loop ty bytes (sse_df ∷ cs) elts empty =
    mixed_loop ty (bytes -ℤ pos 8) cs (elts ++ double ∷ []) false
mixed_loop ty bytes (x87 ∷ cs) elts empty = ok (false, elts)
mixed_loop ty bytes (x87_up ∷ cs) elts empty = ok (false, elts)
mixed_loop ty bytes (complex_x87 ∷ cs) elts empty = ok (false, elts)
mixed_loop ty bytes (no_class ∷ cs) elts empty =
    mixed_loop ty (bytes -ℤ pos 8) cs (elts ++ void ∷ []) empty
mixed_loop ty bytes (sse_up ∷ cs) elts empty = unreachable
