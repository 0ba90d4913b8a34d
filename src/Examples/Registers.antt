-- ===== src/Examples/Registers.antt =====
-- The register queries of src/x86/Target.cpp and src/arm/Target.cpp on small inputs.
use dragonegg.Base.{
  arith, ℕ, ◌+◌, ◌*◌, ◌≤◌, ◌≡◌, ◌↔◌, ◌⊎◌, refl, true, false, List, [], ◌∷◌, some, none,
}
use dragonegg.Base.Int.{pos, ◌-ℤ◌}
use dragonegg.Base.Results.{ok}
use dragonegg.Ir.{IrType, int, float, double, struct_of}
use dragonegg.Client.{State}
use dragonegg.X86.{Flags, Facts, RegClass, integer, sse, no_class, mixed_loop, sse_last}
use dragonegg.X86.Arguments.{
  Uses, count_num_registers_uses, short_of_registers, partially_passed_in_regs, mixed_by_classes,
  should_pass_as_fca, should_pass_64_in_mixed_regs,
}
use dragonegg.X86.Returns.{
  suitable_classes, should_not_return_complex_in_memory, suitable_multiple_ret_value_type,
  return_loop, return_by_classes, get_multiple_return_reg_classes, scalar_type_for_struct_return,
}
use dragonegg.X86.Registers.{partially_passed-Fits}
use dragonegg.X86.Demand.{integer_words, mixed_regs-integer_words}
use dragonegg.X86.Classes.{
  is_plain, all_plain, mixed_regs-multiple_return, is_beside_padding, all_beside_padding,
  scalar_type-Returns,
}
use dragonegg.X86.Extract.{Store, store}
use dragonegg.Arm
use dragonegg.Arm.{CallingConv, arm_aapcs_vfp}

abbrev linux64 : Flags
linux64 = record { target_64bit = true; target_macho = false; target_mmx = true; target_sse = true }

-- A struct of 16 bytes by its fields and classes.
abbrev struct_facts : List IrType → List RegClass → Facts
struct_facts ts cs = record {
  ir = struct_of false ts;
  classes = cs;
  bytes = pos 16;
  int_size = pos 16;
  in_memory = false;
  int_regs = 1;
  sse_regs = 1;
  is_complex = false;
  is_vector_tree = false;
  size_bits = some 128;
  size_unit = 16;
  subparts = 0;
  alloc_size = 16;
}

-- `struct { long; double; }`
abbrev long_double_pair : Facts
long_double_pair = struct_facts (int 64 ∷ double ∷ []) (integer ∷ sse ∷ [])

-- A struct whose second word is padding.
abbrev padded_long : Facts
padded_long = struct_facts (int 64 ∷ []) (integer ∷ no_class ∷ [])

pair_registers :
    should_pass_64_in_mixed_regs linux64 long_double_pair ≡ ok (true, int 64 ∷ double ∷ [])
unfolding should_pass_64_in_mixed_regs should_pass_as_fca mixed_by_classes mixed_loop sse_last ◌-ℤ◌
pair_registers = refl

pair_returned : get_multiple_return_reg_classes long_double_pair ≡ ok (int 64 ∷ double ∷ [])
unfolding get_multiple_return_reg_classes return_by_classes return_loop sse_last ◌-ℤ◌
pair_returned = refl

abbrev uses : ℕ → ℕ → Uses
uses g x = record { gprs = g; xmms = x }

five_longs :
    count_num_registers_uses linux64 (int 64 ∷ int 64 ∷ int 64 ∷ int 64 ∷ int 64 ∷ []) (uses 0 0)
    ≡ ok (uses 5 0)
unfolding count_num_registers_uses
five_longs = refl

pair_needs : count_num_registers_uses linux64 (int 64 ∷ double ∷ []) (uses 0 0) ≡ ok (uses 1 1)
unfolding count_num_registers_uses
pair_needs = refl

abbrev five : List IrType
five = int 64 ∷ int 64 ∷ int 64 ∷ int 64 ∷ int 64 ∷ []

pair_fits : partially_passed_in_regs linux64 (int 64 ∷ double ∷ []) five false ≡ ok false
unfolding partially_passed_in_regs count_num_registers_uses short_of_registers
pair_fits = refl

-- With the shadow argument there is no general register left.
pair_is_short : partially_passed_in_regs linux64 (int 64 ∷ double ∷ []) five true ≡ ok true
unfolding partially_passed_in_regs count_num_registers_uses short_of_registers
pair_is_short = refl

partially_passed-Fits_example :
    (partially_passed_in_regs linux64 (int 64 ∷ double ∷ []) five false ≡ ok false)
    ↔ ((5 + 1 ≤ 6) × (0 + 1 ≤ 8))
partially_passed-Fits_example =
    partially_passed-Fits linux64 (int 64 ∷ double ∷ []) five false (uses 5 0) (uses 1 1) five_longs
      pair_needs (omega arith) (omega arith)

mixed_regs-integer_words_example :
    (integer_words long_double_pair.classes ≡ 0) ⊎ (5 + integer_words long_double_pair.classes ≤ 6)
mixed_regs-integer_words_example =
    mixed_regs-integer_words linux64 long_double_pair (int 64 ∷ double ∷ []) five false (uses 5 0)
      pair_registers five_longs pair_fits

mixed_regs-multiple_return_example :
    should_pass_64_in_mixed_regs linux64 long_double_pair ≡ ok (true, int 64 ∷ double ∷ [])
mixed_regs-multiple_return_example =
    mixed_regs-multiple_return linux64 long_double_pair (int 64 ∷ double ∷ [])
      (unfold should_pass_as_fca in refl) (unfold all_plain is_plain in refl) pair_returned

padded_is_unsuitable : suitable_multiple_ret_value_type linux64 padded_long ≡ false
unfolding suitable_multiple_ret_value_type should_not_return_complex_in_memory suitable_classes
padded_is_unsuitable = refl

scalar_type-Returns_example :
    (r : IrType × ℕ) × (scalar_type_for_struct_return linux64 padded_long ≡ ok (some r))
scalar_type-Returns_example =
    scalar_type-Returns linux64 padded_long refl refl padded_is_unsuitable
      (unfold all_beside_padding is_beside_padding in refl)

-- `{ <2 x float>, float }` into `{ float[3] }`.
abbrev array_stores : List Store
array_stores =
    store 0 (some 0) 0 (some 0) ∷ store 0 (some 1) 0 (some 1) ∷ store 1 none 0 (some 2) ∷ []

abbrev hard_float : Arm.Flags
hard_float = record { aapcs_based = true; vfp = true; hard_float_abi = true }

abbrev soft_float : Arm.Flags
soft_float = record { aapcs_based = true; vfp = false; hard_float_abi = false }

abbrev vector_width : IrType → ℕ → ℕ
vector_width float n = 32 * n
vector_width t n = 64 * n

-- One word is passed already.
abbrev one_word : State ℕ
one_word = record { events = []; scalar_elts = int 32 ∷ []; byval_aligns = [] }

-- 12 bytes, aligned to 8: padding to an even word, then three words.
abbrev after_custom : State ℕ
after_custom = Arm.pass_custom 12 true one_word
