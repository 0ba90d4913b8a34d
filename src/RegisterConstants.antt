-- ===== src/RegisterConstants.antt =====
-- `ExtractRegisterFromConstant` and `RepresentAsMemory` of src/ConstantConversion.cpp: between the constant
-- in memory and the one of in-register type. `getRegType`, `ConvertType` and the sizes of GCC's
-- modes are parameters, as are the folder's casts of integers.
use dragonegg.Base.{ℕ, zero, suc, ◌*◌, Bool, List, [], ◌∷◌, if◌then◌else◌}
use dragonegg.Base.Int.{ℤ, pos, ◌+ℤ◌, ◌*ℤ◌}
use dragonegg.Base.Results.{Result, ok, unreachable, ◌>>=◌}
use dragonegg.Ir.{IrType, int}
use dragonegg.Views.{Sizes, Constants}
use dragonegg.Interpret.{Makers, interpret_as_type, followed_by, same_type}

-- The GCC types that a register can have, by their tree codes.
pub data RegisterTree : Type 0 where
  -- `BOOLEAN_TYPE`, `ENUMERAL_TYPE` and `INTEGER_TYPE`: whether unsigned, and the precision
  integral_type : Bool → ℕ → RegisterTree
  complex_type : RegisterTree → RegisterTree
  -- `NULLPTR_TYPE`, `OFFSET_TYPE`, `POINTER_TYPE` and `REFERENCE_TYPE`
  pointer_type : RegisterTree
  -- with the number of bits
  real_type : ℕ → RegisterTree
  vector_type : RegisterTree → ℕ → RegisterTree
  other_type : RegisterTree

-- What other parts of the plugin, GCC and the folder answer.
pub record RegisterFacts (K : Type 0) : Type 0 where
  pub mode_bits : RegisterTree → ℕ
  pub reg_type : RegisterTree → IrType
  pub memory_type : RegisterTree → IrType
  pub trunc_or_bit_cast : K → IrType → K
  pub sext_or_bit_cast : K → IrType → K
  pub zext_or_bit_cast : K → IrType → K
  pub anonymous_struct : List K → K
  pub same_constant : K → K → Bool

module _ {K : Type 0} (S : Sizes) (F : Constants K) (G : Makers K) (big_endian : Bool)
    (R : RegisterFacts K) where
  -- The elements of a vector, `count` of them from index `i` on, each from an offset.
  unfoldable pub extract_elements : (ℤ → Result K) → ℕ → ℤ → ℕ → ℕ → Result (List K)
  extract_elements element stride start zero i = ok []
  extract_elements element stride start (suc count) i =
      followed_by (element (start +ℤ pos (i * stride)))
        (extract_elements element stride start count (suc i))

  -- `ExtractRegisterFromConstantImpl`. For the parts of complex numbers and vectors the code passes
  -- on the starting bit, where the starting byte is asked for.
  unfoldable pub extract_register : K → RegisterTree → ℤ → Result K
  extract_register c (integral_type u precision) starting_byte =
      interpret_as_type S F G big_endian c (int (R.mode_bits (integral_type u precision)))
        (starting_byte *ℤ pos 8)
      >>= λ m. ok (R.trunc_or_bit_cast m (R.reg_type (integral_type u precision)))
  extract_register c (complex_type elt) starting_byte =
      let real = extract_register c elt (starting_byte *ℤ pos 8) in
      let imag = extract_register c elt (starting_byte *ℤ pos 8 +ℤ pos (R.mode_bits elt)) in
      real >>= λ a. imag >>= λ b. ok (R.anonymous_struct (a ∷ b ∷ []))
  extract_register c pointer_type starting_byte =
      interpret_as_type S F G big_endian c (R.reg_type pointer_type) (starting_byte *ℤ pos 8)
  extract_register c (real_type n) starting_byte =
      interpret_as_type S F G big_endian c (R.reg_type (real_type n)) (starting_byte *ℤ pos 8)
  extract_register c (vector_type elt n) starting_byte =
      extract_elements (extract_register c elt) (R.mode_bits elt) (starting_byte *ℤ pos 8) n 0
      >>= λ vals. ok (G.vector_of (R.reg_type (vector_type elt n)) vals)
  extract_register c other_type starting_byte = unreachable

  -- The assertions around the conversion: the constant has the type of registers, and is what
  -- is extracted from the result again.
  unfoldable pub asserted : RegisterTree → K → Result K → Result K
  asserted t c result =
      if same_type (F.type_of c) (R.reg_type t)
      then (result >>= λ r. extract_register r t (pos 0) >>= λ again.
          if R.same_constant c again then ok r else unreachable)
      else unreachable

  -- The elements of a vector represented one by one, from index `i` on.
  unfoldable pub represent_elements : (K → Result K) → K → ℕ → ℕ → Result (List K)
  represent_elements represent c zero i = ok []
  represent_elements represent c (suc count) i =
      followed_by (represent (F.extract_element c i)) (represent_elements represent c count (suc i))

  -- `RepresentAsMemory`: the switch, the turn to the type in memory, the assertions around them.
  unfoldable pub represent_as_memory : RegisterTree → K → Result K
  represent_as_memory (integral_type u precision) c =
      let mem = int (R.mode_bits (integral_type u precision)) in
      asserted (integral_type u precision) c (
        interpret_as_type S F G big_endian
          (if u then R.zext_or_bit_cast c mem else R.sext_or_bit_cast c mem)
          (R.memory_type (integral_type u precision)) (pos 0))
  represent_as_memory (complex_type elt) c =
      let real = represent_as_memory elt (F.extract_value c 0) in
      let imag = represent_as_memory elt (F.extract_value c 1) in
      asserted (complex_type elt) c (
        real >>= λ a. imag >>= λ b.
        interpret_as_type S F G big_endian (R.anonymous_struct (a ∷ b ∷ []))
          (R.memory_type (complex_type elt)) (pos 0))
  represent_as_memory pointer_type c =
      asserted pointer_type c
        (interpret_as_type S F G big_endian c (R.memory_type pointer_type) (pos 0))
  represent_as_memory (real_type n) c =
      asserted (real_type n) c
        (interpret_as_type S F G big_endian c (R.memory_type (real_type n)) (pos 0))
  represent_as_memory (vector_type elt n) c = asserted (vector_type elt n) c (
      represent_elements (represent_as_memory elt) c n 0 >>= λ vals.
      interpret_as_type S F G big_endian (R.anonymous_struct vals)
        (R.memory_type (vector_type elt n)) (pos 0))
  represent_as_memory other_type c = unreachable
