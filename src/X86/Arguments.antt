-- ===== src/X86/Arguments.antt =====
-- How src/x86/Target.cpp passes arguments: as first class aggregates, in registers of mixed types,
-- in integer registers or in memory.
use dragonegg.Base.{
  ℕ, suc, ◌+◌, Bool, true, false, not, ◌&&◌, ◌||◌, List, [], ◌∷◌, ◌++◌, Option, none, some, ltb,
  leb, ◌==◌, if◌then◌else◌,
}
use dragonegg.Base.Int.{ℤ, pos, ltb_ℤ, leb_ℤ, eqb_ℤ}
use dragonegg.Base.Results.{Result, ok, unreachable, ◌>>=◌}
use dragonegg.Ir.{
  IrType, void, float, double, x86_fp80, fp128, ppc_fp128, int, pointer, vector, struct, cons,
  is_pointer, is_int_of, is_integer, is_float, is_double, to_list,
}
use dragonegg.X86.{RegClass, no_class, integer, integer_si, Flags, Facts, mixed_loop}

-- `llvm_x86_64_should_pass_aggregate_in_memory`.
unfoldable pub should_pass_64_in_memory : Facts → Bool
should_pass_64_in_memory t =
    if t.in_memory then true else if (t.int_regs == 0) && (t.sse_regs == 0) then true else false

-- An element that the 32 bit convention passes as it would a scalar.
abbrev is_simple_element : IrType → Bool
is_simple_element t = is_int_of 32 t || is_int_of 64 t || is_float t || is_double t || is_pointer t

-- The loop over the elements; a failure clears what was pushed.
unfoldable pub push_simple : List IrType → List IrType → Bool × List IrType
push_simple [] elts = (true, elts)
push_simple (t ∷ ts) elts =
    let rest = push_simple ts (elts ++ t ∷ []) in if is_simple_element t then rest else (false, [])

-- `llvm_x86_32_should_pass_aggregate_in_mixed_regs`, with the types pushed onto an empty vector.
unfoldable pub should_pass_32_in_mixed_regs : Facts → Bool × List IrType
unfolding push_simple
should_pass_32_in_mixed_regs t =
    if leb_ℤ t.int_size (pos 0) || ltb_ℤ (pos 16) t.int_size then (false, []) else elim t.ir [
      | struct packed ts ↦ (if packed then (false, []) else push_simple (to_list ts) [])
      | _ ↦ (false, [])
    ]

-- The test on the element of a complex type that keeps it from being passed whole.
abbrev fca_element : Flags → IrType → Bool
fca_element f t = not (
    (f.target_64bit && (is_integer t || is_float t || is_double t))
    || is_int_of 16 t
    || is_int_of 8 t)

-- `llvm_x86_should_pass_aggregate_as_fca`. A complex type converts to a struct of two elements.
unfoldable pub should_pass_as_fca : Flags → Facts → Bool
should_pass_as_fca f t =
    if not t.is_complex
    then false
    else elim t.ir [ struct false (cons elt ts) ↦ fca_element f elt | _ ↦ false ]

-- `llvm_x86_should_pass_aggregate_in_memory`.
unfoldable pub should_pass_in_memory : Flags → Facts → Bool
unfolding should_pass_as_fca should_pass_32_in_mixed_regs should_pass_64_in_memory
should_pass_in_memory f t =
    if should_pass_as_fca f t
    then false
    else if eqb_ℤ t.bytes (pos 0)
    then false
    else if not f.target_64bit
    then not (should_pass_32_in_mixed_regs t).0
    else should_pass_64_in_memory t

-- The general and the SSE registers that a list of parameters uses.
pub record Uses : Type 0 where
  pub gprs : ℕ
  pub xmms : ℕ

-- `count_num_registers_uses`: the counters go up from what the caller set them to.
unfoldable pub count_num_registers_uses : Flags → List IrType → Uses → Result Uses
count_num_registers_uses f [] u = ok u
count_num_registers_uses f (vector t n ∷ ts) u = count_num_registers_uses f ts (
    if not f.target_macho
    then u
    else if n == 1
    then record u { gprs = suc u.gprs }
    else record u { xmms = suc u.xmms })
count_num_registers_uses f (int w ∷ ts) u =
    count_num_registers_uses f ts (record u { gprs = suc u.gprs })
count_num_registers_uses f (pointer t ∷ ts) u =
    count_num_registers_uses f ts (record u { gprs = suc u.gprs })
count_num_registers_uses f (void ∷ ts) u = count_num_registers_uses f ts u
count_num_registers_uses f (float ∷ ts) u =
    count_num_registers_uses f ts (record u { xmms = suc u.xmms })
count_num_registers_uses f (double ∷ ts) u =
    count_num_registers_uses f ts (record u { xmms = suc u.xmms })
count_num_registers_uses f (x86_fp80 ∷ ts) u = count_num_registers_uses f ts u
count_num_registers_uses f (fp128 ∷ ts) u = count_num_registers_uses f ts u
count_num_registers_uses f (ppc_fp128 ∷ ts) u = count_num_registers_uses f ts u
count_num_registers_uses f (t ∷ ts) u = unreachable

-- The tests of `llvm_x86_64_aggregate_partially_passed_in_regs` on the counts.
unfoldable pub short_of_registers : Uses → Uses → Bool
short_of_registers used needed =
    let xmm_part =
      (if ltb 0 needed.xmms
        then (if ltb used.xmms 8
            then (if ltb 8 (used.xmms + needed.xmms) then none else some true)
            else some false)
        else some true) in
    let gpr_part =
      (if ltb 0 needed.gprs
        then (if ltb used.gprs 6
            then (if ltb 6 (used.gprs + needed.gprs) then none else some true)
            else some false)
        else some true) in
    elim gpr_part [
      | none ↦ true
      | some gprs_satisfied ↦ elim xmm_part [
        | none ↦ true
        | some xmms_satisfied ↦ not gprs_satisfied || not xmms_satisfied
      ]
    ]

-- `llvm_x86_64_aggregate_partially_passed_in_regs`.
unfoldable pub partially_passed_in_regs : Flags → List IrType → List IrType → Bool → Result Bool
unfolding count_num_registers_uses short_of_registers
partially_passed_in_regs f elts scalar_elts shadow_return =
    count_num_registers_uses f scalar_elts
      (record { gprs = if shadow_return then 1 else 0; xmms = 0 })
    >>= λ used. count_num_registers_uses f elts (record { gprs = 0; xmms = 0 }) >>= λ needed.
        ok (short_of_registers used needed)

-- The part of `llvm_x86_64_should_pass_aggregate_in_mixed_regs` that reads the classes.
unfoldable pub mixed_by_classes : IrType → ℤ → List RegClass → Result (Bool × List IrType)
unfolding mixed_loop
mixed_by_classes ty bytes [] = ok (false, [])
mixed_by_classes ty bytes (integer_si ∷ []) = ok (false, [])
mixed_by_classes ty bytes cs = mixed_loop ty bytes cs [] true

-- `llvm_x86_64_should_pass_aggregate_in_mixed_regs`, pushing onto an empty vector.
unfoldable pub should_pass_64_in_mixed_regs : Flags → Facts → Result (Bool × List IrType)
unfolding should_pass_as_fca mixed_by_classes
should_pass_64_in_mixed_regs f t =
    if should_pass_as_fca f t then ok (false, []) else mixed_by_classes t.ir t.bytes t.classes

-- The size in bits of a vector type, if it is constant.
abbrev vector_size : Facts → Option ℕ
vector_size t = if t.is_vector_tree then t.size_bits else none

-- `llvm_x86_should_pass_vector_in_integer_regs`.
unfoldable pub should_pass_vector_in_integer_regs : Flags → Facts → Bool
should_pass_vector_in_integer_regs f t =
    if not f.target_macho then false else elim (vector_size t) [
      | none ↦ true
      | some size ↦
          if (size == 64) && f.target_mmx
          then false
          else if (size == 128) && f.target_sse
          then false
          else if f.target_64bit && ltb 128 size
          then false
          else true
    ]

-- `llvm_x86_should_pass_vector_using_byval_attr`.
unfoldable pub should_pass_vector_using_byval : Flags → Facts → Bool
should_pass_vector_using_byval f t =
    if not f.target_macho
    then false
    else if not f.target_64bit
    then false
    else elim (vector_size t) [ none ↦ true | some size ↦ (if leb size 128 then false else true) ]

-- The bytes to pass in one integer register.
unfoldable pub one_register_size : ℤ → ℤ
one_register_size bytes =
    if ltb_ℤ (pos 4) bytes then pos 8 else if ltb_ℤ (pos 2) bytes then pos 4 else bytes

-- The second class behind an integer register.
unfoldable pub after_integer : RegClass → Bool × ℤ
after_integer integer = (true, pos 16)
after_integer no_class = (true, pos 8)
after_integer c = (false, pos 0)

unfoldable pub integer_registers : ℤ → List RegClass → Bool × ℤ
unfolding one_register_size after_integer
integer_registers bytes (integer ∷ []) = (true, one_register_size bytes)
integer_registers bytes (integer_si ∷ []) = (true, one_register_size bytes)
integer_registers bytes (integer ∷ c ∷ []) = after_integer c
integer_registers bytes (integer_si ∷ c ∷ []) = after_integer c
integer_registers bytes cs = (false, pos 0)

-- What `llvm_x86_should_pass_aggregate_in_integer_regs` returns and writes to `*size`; the 32 bit
-- case asks whether the type is a single element struct or array. `*DontCheckAlignment` is set
-- exactly for 64 bits.
unfoldable pub should_pass_in_integer_regs : Flags → Facts → Bool → Bool × ℤ
unfolding integer_registers
should_pass_in_integer_regs f t single_element =
    if f.target_64bit then integer_registers t.bytes t.classes else (not single_element, pos 0)
