-- ===== src/Arm.antt =====
-- The calling convention queries of src/arm/Target.cpp. Whether a type is a homogeneous aggregate
-- (`vfp_arg_homogeneous_aggregate_p`, a walk over GCC trees) and the bit width of a vector type
-- are parameters.
pub mod Registers
pub mod Words
pub mod Extract
use dragonegg.Client.{State, pad_event, enter, exit, scalar, emit, push_scalar}
use dragonegg.Base.{
  ℕ, zero, suc, ◌+◌, ◌-◌, ◌*◌, ◌/◌, ◌%◌, Bool, true, false, not, ◌&&◌, ◌||◌, List, [], ◌∷◌, ◌++◌,
  Option, none, some, ltb, leb, ◌==◌, if◌then◌else◌, replicate,
}
use dragonegg.Base.Results.{Result, ok, unreachable, ◌>>=◌}
use dragonegg.Ir.{
  IrType, IrTypes, void, float, double, x86_fp80, fp128, ppc_fp128, x86_mmx, opaque, int, pointer,
  vector, array, struct, nil, cons, struct_of, is_pointer,
}

-- The calling conventions that the queries tell apart.
pub data CallingConv : Type 0 where
  cc_c arm_apcs arm_aapcs arm_aapcs_vfp other : CallingConv

-- The `TARGET_` flags that the queries test.
pub record Flags : Type 0 where
  pub aapcs_based : Bool
  pub vfp : Bool
  pub hard_float_abi : Bool

abbrev is_aapcs_vfp : CallingConv → Bool
is_aapcs_vfp arm_aapcs_vfp = true
is_aapcs_vfp conv = false

-- `!(CC != ARM_AAPCS_VFP || !(TARGET_AAPCS_BASED && TARGET_VFP && TARGET_HARD_FLOAT_ABI))`.
abbrev pub uses_vfp : Flags → CallingConv → Bool
uses_vfp f conv = is_aapcs_vfp conv && (f.aapcs_based && f.vfp && f.hard_float_abi)

-- `llvm_arm_should_pass_or_return_aggregate_in_regs`, given whether the type is a homogeneous
-- aggregate and whether it is addressable.
unfoldable pub should_pass_or_return_in_regs : Flags → CallingConv → Bool → Bool → Bool
should_pass_or_return_in_regs f conv homogeneous addressable =
    if not (uses_vfp f conv) then false else homogeneous && not addressable

-- `count_num_words`.
unfoldable pub count_num_words : List IrType → Result ℕ
count_num_words [] = ok 0
count_num_words (pointer t ∷ ts) = count_num_words ts >>= λ n. ok (suc n)
count_num_words (int w ∷ ts) = count_num_words ts >>= λ n. ok ((w + 31) / 32 + n)
count_num_words (t ∷ ts) = unreachable

-- The type of the bytes that do not fill a word.
unfoldable pub rest_type : ℕ → Option IrType
rest_type rest =
    if ltb 2 rest
    then some (int 32)
    else if ltb 1 rest
    then some (int 16)
    else if ltb 0 rest
    then some (int 8)
    else none

unfoldable pub rest_fields : ℕ → List IrType
unfolding rest_type
rest_fields rest = elim (rest_type rest) [ none ↦ [] | some t ↦ t ∷ [] ]

-- The first loop of `llvm_arm_try_pass_aggregate_custom`, and the rest behind it: the fields.
unfoldable pub custom_fields : ℕ → List IrType
unfolding rest_fields
custom_fields size = replicate (size / 4) (int 32) ++ rest_fields (size % 4)

abbrev is_aapcs : CallingConv → Bool
is_aapcs arm_aapcs = true
is_aapcs conv = false

abbrev is_c : CallingConv → Bool
is_c cc_c = true
is_c conv = false

module _ {Tree : Type 0} where
  -- The second loop, from field `i` on.
  unfoldable pub pass_words : IrType → ℕ → ℕ → State Tree → State Tree
  pass_words sty zero i s = s
  pass_words sty (suc left) i s =
      pass_words sty left (suc i)
        (emit (push_scalar (emit (emit s (enter i sty)) (scalar (int 32) none 0)) (int 32)) exit)

  -- The padding word, if one is added.
  unfoldable pub pass_padding : Bool → State Tree → State Tree
  pass_padding add_pad s = if add_pad then emit (push_scalar s (int 32)) (pad_event (int 32)) else s

  -- The rest, as the last field.
  unfoldable pub pass_rest : IrType → ℕ → ℕ → State Tree → State Tree
  unfolding rest_type
  pass_rest sty field rest s = elim (rest_type rest) [
    | none ↦ s
    | some t ↦ emit (push_scalar (emit (emit s (enter field sty)) (scalar t none rest)) t) exit
  ]

  -- The padding word, the words and the rest.
  unfoldable pub pass_custom : ℕ → Bool → State Tree → State Tree
  unfolding custom_fields pass_words pass_padding pass_rest
  pass_custom size add_pad s =
      let sty = struct_of false (custom_fields size) in
      pass_rest sty (size / 4) (size % 4) (pass_words sty (size / 4) 0 (pass_padding add_pad s))

  -- `llvm_arm_try_pass_aggregate_custom`, given the converted type, `TYPE_SIZE` and `TYPE_ALIGN`.
  unfoldable pub try_pass_aggregate_custom :
      Flags → CallingConv → IrType → ℕ → ℕ → State Tree → Result (Bool × State Tree)
  unfolding count_num_words pass_custom
  try_pass_aggregate_custom f conv ty size_bits align_bits s =
      if not (is_aapcs conv) && not (is_c conv)
      then ok (false, s)
      else if is_c conv && not f.aapcs_based
      then ok (false, s)
      else if f.hard_float_abi
      then ok (false, s)
      else if is_pointer ty
      then ok (false, s)
      else (count_num_words s.scalar_elts >>= λ num_words. ok (
        true,
        pass_custom (size_bits / 8) (leb 8 (align_bits / 8) && not (num_words % 2 == 0)) s,
      ))

-- `alloc_next_spr`, `alloc_next_dpr`, `alloc_next_qpr`: the first register, pair or group of four
-- whose first S register is free is taken; `none` if there is none.
unfoldable pub alloc_next_spr : List Bool → Option (List Bool)
alloc_next_spr [] = none
alloc_next_spr (a ∷ rs) =
    let rest = alloc_next_spr rs in
    if a then elim rest [ none ↦ none | some qs ↦ some (a ∷ qs) ] else some (true ∷ rs)

unfoldable pub alloc_next_dpr : List Bool → Option (List Bool)
alloc_next_dpr (a ∷ b ∷ rs) =
    let rest = alloc_next_dpr rs in
    if a then elim rest [ none ↦ none | some qs ↦ some (a ∷ b ∷ qs) ] else some (true ∷ true ∷ rs)
alloc_next_dpr rs = none

unfoldable pub alloc_next_qpr : List Bool → Option (List Bool)
alloc_next_qpr (a ∷ b ∷ c ∷ d ∷ rs) =
    let rest = alloc_next_qpr rs in
    if a
    then elim rest [ none ↦ none | some qs ↦ some (a ∷ b ∷ c ∷ d ∷ qs) ]
    else some (true ∷ true ∷ true ∷ true ∷ rs)
alloc_next_qpr rs = none

-- `bool SPRs[16] = { 0 }`.
abbrev pub all_free : List Bool
all_free = replicate 16 false

module _ (bit_width : IrType → ℕ → ℕ) where
  -- The register type for a vector member, by `getBitWidth`.
  unfoldable pub vector_register : IrType → ℕ → Result IrType
  vector_register t n =
      if bit_width t n == 64
      then ok (vector float 2)
      else if bit_width t n == 128
      then ok (vector double 2)
      else unreachable

  -- `push_elts`, on one member and on the contained types of an aggregate, after the types that
  -- are there already.
  unfoldable mutual
    unfolding vector_register

    pub push_member : IrType → List IrType → Result (List IrType)
    push_member (vector t n) elts = vector_register t n >>= λ r. ok (elts ++ r ∷ [])
    push_member (array t n) elts = ok (elts ++ replicate n t)
    push_member (struct packed nil) elts = ok (elts ++ struct packed nil ∷ [])
    push_member (struct packed (cons t ts)) elts = push_members (cons t ts) elts
    push_member (pointer t) elts = push_member t elts
    push_member void elts = ok (elts ++ void ∷ [])
    push_member float elts = ok (elts ++ float ∷ [])
    push_member double elts = ok (elts ++ double ∷ [])
    push_member x86_fp80 elts = ok (elts ++ x86_fp80 ∷ [])
    push_member fp128 elts = ok (elts ++ fp128 ∷ [])
    push_member ppc_fp128 elts = ok (elts ++ ppc_fp128 ∷ [])
    push_member x86_mmx elts = ok (elts ++ x86_mmx ∷ [])
    push_member opaque elts = ok (elts ++ opaque ∷ [])
    push_member (int w) elts = ok (elts ++ int w ∷ [])

    pub push_members : IrTypes → List IrType → Result (List IrType)
    push_members nil elts = ok elts
    push_members (cons t ts) elts = push_member t elts >>= λ es. push_members ts es

  -- The registers that one argument takes.
  unfoldable pub alloc_for : IrType → List Bool → Result (Option (List Bool))
  unfolding alloc_next_spr alloc_next_dpr alloc_next_qpr
  alloc_for (vector t n) rs =
      if bit_width t n == 64
      then ok (alloc_next_dpr rs)
      else if bit_width t n == 128
      then ok (alloc_next_qpr rs)
      else unreachable
  alloc_for (int w) rs = ok (some rs)
  alloc_for (pointer t) rs = ok (some rs)
  alloc_for void rs = ok (some rs)
  alloc_for float rs = ok (alloc_next_spr rs)
  alloc_for double rs = ok (alloc_next_spr rs)
  alloc_for t rs = unreachable

  -- `count_num_registers_uses`: the registers after all arguments, or `none` if they do not fit.
  unfoldable pub count_num_registers_uses : List IrType → List Bool → Result (Option (List Bool))
  unfolding alloc_for
  count_num_registers_uses [] rs = ok (some rs)
  count_num_registers_uses (t ∷ ts) rs =
      alloc_for t rs >>= λ o. elim o [ none ↦ ok none | some qs ↦ count_num_registers_uses ts qs ]

  -- `llvm_arm_aggregate_partially_passed_in_regs`.
  unfoldable pub partially_passed_in_regs :
      Flags → CallingConv → List IrType → List IrType → Result Bool
  unfolding count_num_registers_uses
  partially_passed_in_regs f conv elts scalar_elts =
      if not (uses_vfp f conv)
      then ok true
      else (count_num_registers_uses scalar_elts all_free >>= λ o. elim o [
        | none ↦ ok true
        | some rs ↦
            count_num_registers_uses elts rs >>= λ p. elim p [ none ↦ ok true | some qs ↦ ok false ]
      ])

  -- `llvm_arm_should_pass_aggregate_in_mixed_regs`, pushing onto an empty vector, given whether
  -- the type is a homogeneous aggregate and whether it is addressable.
  unfoldable pub should_pass_in_mixed_regs :
      Flags → CallingConv → Bool → Bool → IrTypes → Result (Bool × List IrType)
  unfolding should_pass_or_return_in_regs push_members
  should_pass_in_mixed_regs f conv homogeneous addressable members =
      if should_pass_or_return_in_regs f conv homogeneous addressable
      then (push_members members [] >>= λ elts. ok (true, elts))
      else ok (false, [])

  -- `llvm_arm_aggr_type_for_struct_return`.
  unfoldable pub aggr_type_for_struct_return :
      Flags → CallingConv → Bool → Bool → IrTypes → Result (Option IrType)
  unfolding should_pass_or_return_in_regs push_members
  aggr_type_for_struct_return f conv homogeneous addressable members =
      if should_pass_or_return_in_regs f conv homogeneous addressable
      then (push_members members [] >>= λ elts. ok (some (struct_of false elts)))
      else ok none
