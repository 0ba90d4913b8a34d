-- ===== src/X86/Returns.antt =====
-- How src/x86/Target.cpp returns aggregates: as one scalar, as a struct of register values, or
-- through a shadow argument.
use dragonegg.Base.{
  ℕ, Bool, true, false, not, ◌&&◌, ◌||◌, List, [], ◌∷◌, ◌++◌, Option, none, some, ltb, leb, ◌==◌,
  if◌then◌else◌,
}
use dragonegg.Base.Int.{ℤ, pos, ◌-ℤ◌, ltb_ℤ, eqb_ℤ}
use dragonegg.Base.Results.{Result, ok, unreachable, ◌>>=◌}
use dragonegg.Ir.{IrType, void, float, double, x86_fp80, int, vector, struct, struct_of, is_struct}
use dragonegg.X86.{
  RegClass, no_class, integer, integer_si, sse, sse_sf, sse_df, sse_up, x87, x87_up, complex_x87,
  Flags, Facts, sse_up_type, sse_last, unwrapped,
}

-- The scalar types that stand for a vector or a struct of one element.
pub data ScalarTree : Type 0 where
  uint64_node uint32_node double_node : ScalarTree

abbrev vector_bits : Facts → Option ℕ
vector_bits t = if t.is_vector_tree then t.size_bits else none

-- `llvm_x86_should_return_vector_as_scalar`; `none` is the null tree.
unfoldable pub should_return_vector_as_scalar : Flags → Facts → Bool → Option ScalarTree
should_return_vector_as_scalar f t is_builtin =
    if f.target_macho && not is_builtin
    then elim (vector_bits t) [
      | none ↦ none
      | some size ↦
          if (size == 64) && (t.subparts == 1)
          then some uint64_node
          else if f.target_64bit && (size == 64)
          then some double_node
          else if size == 32
          then some uint32_node
          else none
    ]
    else none

-- The answers of `llvm_x86_should_return_selt_struct_as_scalar`: null, the single element that
-- `isSingleElementStructOrArray` found, or `double_type_node`.
pub data SingleElement : Type 0 where
  no_element keep_element as_double : SingleElement

unfoldable pub should_return_selt_struct_as_scalar : Flags → Option Facts → SingleElement
should_return_selt_struct_as_scalar f none = no_element
should_return_selt_struct_as_scalar f (some elt) =
    if not f.target_64bit || not f.target_macho then keep_element else elim (vector_bits elt) [
      | none ↦ keep_element
      | some size ↦ (if size == 64 then as_double else keep_element)
    ]

-- The 32 bit Darwin test for MMX vectors.
unfoldable pub returns_mmx_by_shadow : Flags → Facts → Bool → Bool
returns_mmx_by_shadow f t is_builtin =
    if f.target_macho && not is_builtin && not f.target_64bit
    then elim (vector_bits t) [ none ↦ false | some bits ↦ (bits == 64) && ltb 1 t.subparts ]
    else false

-- `llvm_x86_should_return_vector_as_shadow`. The last test reads the size of any vector type, so
-- its size in bits is given.
unfoldable pub should_return_vector_as_shadow : Flags → Facts → Bool → ℕ → Bool
unfolding returns_mmx_by_shadow
should_return_vector_as_shadow f t is_builtin size =
    if returns_mmx_by_shadow f t is_builtin then true else if ltb 128 size then true else false

-- `llvm_x86_should_not_return_complex_in_memory`.
unfoldable pub should_not_return_complex_in_memory : Flags → Facts → Bool
should_not_return_complex_in_memory f t =
    if not f.target_64bit
    then false
    else if t.is_complex && (t.size_unit == 32)
    then true
    else false

-- The answer by classes in `llvm_suitable_multiple_ret_value_type`.
unfoldable pub suitable_classes : List RegClass → Bool
suitable_classes [] = false
suitable_classes (integer ∷ []) = false
suitable_classes (integer_si ∷ []) = false
suitable_classes (no_class ∷ c ∷ []) = false
suitable_classes (c ∷ no_class ∷ []) = false
suitable_classes cs = true

-- `llvm_suitable_multiple_ret_value_type`.
unfoldable pub suitable_multiple_ret_value_type : Flags → Facts → Bool
unfolding should_not_return_complex_in_memory suitable_classes
suitable_multiple_ret_value_type f t =
    if not f.target_64bit
    then false
    else if not (is_struct t.ir)
    then false
    else if should_not_return_complex_in_memory f t
    then true
    else suitable_classes t.classes

-- The scalar for one register class next to a word of padding.
unfoldable pub beside_padding : RegClass → Result IrType
beside_padding integer = ok (int 64)
beside_padding integer_si = ok (int 64)
beside_padding sse = ok double
beside_padding sse_df = ok double
beside_padding sse_sf = ok float
beside_padding c = unreachable

-- With padding second, no class at all is passed as an integer too.
unfoldable pub before_padding : RegClass → Result IrType
unfolding beside_padding
before_padding no_class = ok (int 64)
before_padding c = beside_padding c

unfoldable pub one_int_register : ℤ → IrType
one_int_register bytes =
    if ltb_ℤ (pos 4) bytes
    then int 64
    else if ltb_ℤ (pos 2) bytes
    then int 32
    else if ltb_ℤ (pos 1) bytes
    then int 16
    else int 8

-- The 64 bit case of `llvm_x86_scalar_type_for_struct_return`: the type and `*Offset`.
unfoldable pub scalar_by_classes : ℤ → List RegClass → Result (IrType × ℕ)
unfolding one_int_register before_padding beside_padding
scalar_by_classes bytes [] = ok (int 64, 0)
scalar_by_classes bytes (integer ∷ []) = ok (one_int_register bytes, 0)
scalar_by_classes bytes (integer_si ∷ []) = ok (one_int_register bytes, 0)
scalar_by_classes bytes (c ∷ no_class ∷ []) = before_padding c >>= λ t. ok (t, 0)
scalar_by_classes bytes (no_class ∷ c ∷ []) = beside_padding c >>= λ t. ok (t, 8)
scalar_by_classes bytes cs = unreachable

-- `llvm_x86_scalar_type_for_struct_return`: a null type is `none`.
unfoldable pub scalar_type_for_struct_return : Flags → Facts → Result (Option (IrType × ℕ))
unfolding suitable_multiple_ret_value_type scalar_by_classes
scalar_type_for_struct_return f t =
    if t.alloc_size == 0
    then ok (some (void, 0))
    else if t.alloc_size == 1
    then ok (some (int 8, 0))
    else if t.alloc_size == 2
    then ok (some (int 16, 0))
    else if leb t.alloc_size 4
    then ok (some (int 32, 0))
    else if suitable_multiple_ret_value_type f t
    then ok none
    else if f.target_64bit
    then (scalar_by_classes t.bytes t.classes >>= λ r. ok (some r))
    else if leb t.alloc_size 8
    then ok (some (int 64, 0))
    else if leb t.alloc_size 16
    then ok (some (int 128, 0))
    else if leb t.alloc_size 32
    then ok (some (int 256, 0))
    else ok none

-- The two classes of a pair that starts with SSE: what is pushed for return values.
unfoldable pub return_pair : IrType → ℤ → RegClass → Result (List IrType)
unfolding sse_up_type
return_pair ty bytes sse_up = sse_up_type (unwrapped ty) >>= λ t. ok (t ∷ [])
return_pair ty bytes sse_sf = if eqb_ℤ bytes (pos 12) then ok (double ∷ float ∷ []) else unreachable
return_pair ty bytes sse = ok (double ∷ double ∷ [])
return_pair ty bytes sse_df =
    if eqb_ℤ bytes (pos 16) then ok (vector float 2 ∷ double ∷ []) else unreachable
return_pair ty bytes integer = ok (vector float 2 ∷ int 64 ∷ [])
return_pair ty bytes no_class = ok (double ∷ [])
return_pair ty bytes c = unreachable

abbrev pub push_all : List IrType → Result (List IrType) → Result (List IrType)
push_all elts (ok ts) = ok (elts ++ ts)
push_all elts unreachable = unreachable

-- The loop of `llvm_x86_64_get_multiple_return_reg_classes`.
unfoldable pub return_loop : IrType → ℤ → List RegClass → List IrType → Result (List IrType)
unfolding return_pair sse_last
return_loop ty bytes [] elts = ok elts
return_loop ty bytes (integer ∷ cs) elts = return_loop ty (bytes -ℤ pos 8) cs (elts ++ int 64 ∷ [])
return_loop ty bytes (integer_si ∷ cs) elts =
    return_loop ty (bytes -ℤ pos 8) cs (elts ++ int 64 ∷ [])
return_loop ty bytes (sse ∷ []) elts = push_all elts (sse_last bytes)
return_loop ty bytes (sse ∷ c ∷ []) elts = push_all elts (return_pair ty bytes c)
return_loop ty bytes (sse ∷ c ∷ d ∷ cs) elts = unreachable
return_loop ty bytes (sse_sf ∷ cs) elts = return_loop ty (bytes -ℤ pos 4) cs (elts ++ float ∷ [])
return_loop ty bytes (sse_df ∷ cs) elts = return_loop ty (bytes -ℤ pos 8) cs (elts ++ double ∷ [])
return_loop ty bytes (x87 ∷ cs) elts = return_loop ty bytes cs (elts ++ x86_fp80 ∷ [])
return_loop ty bytes (x87_up ∷ cs) elts = return_loop ty bytes cs (elts ++ x86_fp80 ∷ [])
return_loop ty bytes (complex_x87 ∷ cs) elts = return_loop ty bytes cs (elts ++ x86_fp80 ∷ [])
return_loop ty bytes (no_class ∷ cs) elts = return_loop ty bytes cs (elts ++ int 64 ∷ [])
return_loop ty bytes (sse_up ∷ cs) elts = unreachable

-- The assertions on the classes, the single class of an empty struct, and the loop.
unfoldable pub return_by_classes : IrType → ℤ → List RegClass → Result (List IrType)
unfolding return_loop
return_by_classes ty bytes [] = unreachable
return_by_classes ty bytes (integer ∷ []) = unreachable
return_by_classes ty bytes (integer_si ∷ []) = unreachable
return_by_classes ty bytes (no_class ∷ []) = ok []
return_by_classes ty bytes cs = return_loop ty bytes cs []

-- `llvm_x86_64_get_multiple_return_reg_classes`, pushing onto an empty vector.
unfoldable pub get_multiple_return_reg_classes : Facts → Result (List IrType)
unfolding return_by_classes
get_multiple_return_reg_classes t = return_by_classes t.ir t.bytes t.classes

-- `isPacked` of the struct that the type converts to.
abbrev packed_flag : IrType → Bool
packed_flag (struct packed ts) = packed
packed_flag t = false

-- `llvm_x86_aggr_type_for_struct_return`.
unfoldable pub aggr_type_for_struct_return : Flags → Facts → Result (Option IrType)
unfolding suitable_multiple_ret_value_type should_not_return_complex_in_memory
    get_multiple_return_reg_classes
aggr_type_for_struct_return f t =
    if not (suitable_multiple_ret_value_type f t)
    then ok none
    else if should_not_return_complex_in_memory f t
    then ok (some (struct_of (packed_flag t.ir) (x86_fp80 ∷ x86_fp80 ∷ [])))
    else (get_multiple_return_reg_classes t >>= λ elts. ok (some (struct_of false elts)))
