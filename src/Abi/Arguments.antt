-- ===== src/Abi/Arguments.antt =====
-- `HandleArgument` and `HandleUnion` of src/DefaultABI.cpp. The recursion is on the tree; the test
-- chain in front of it gets the decomposition that its last branches make.
use dragonegg.Base.{
  ◌-◌, ℕ, zero, suc, ◌+◌, ◌/◌, ◌%◌, ◌^◌, Bool, true, false, not, List, [], ◌∷◌, ◌++◌, Option, none,
  some, ltb, if◌then◌else◌,
}
use dragonegg.Base.Int.{pos, eqb_ℤ}
use dragonegg.Base.Results.{Result, ok, unreachable, ◌>>=◌}
use dragonegg.Ir.{
  IrType, pointer, array, struct, cons, is_void, is_vector, is_single_value, struct_of,
}
use dragonegg.Client.{
  State, enter, exit, scalar, invisible_reference, by_val, first_class, emit, push_scalar,
}
use dragonegg.Abi.{
  Tree, scalar_type, complex_type, record_type, union_type, array_type, Fields, no_fields, field,
  other_decl, info, Hooks, is_passed_by_invisible_reference, pass_in_integer_registers,
  pass_in_mixed_registers,
}

abbrev is_record_or_union : Tree → Bool
is_record_or_union (record_type i fs) = true
is_record_or_union (union_type i fs) = true
is_record_or_union t = false

-- `isZeroSizedStructOrUnion`.
unfoldable pub is_zero_sized_struct_or_union : Tree → Bool
is_zero_sized_struct_or_union t =
    if not (is_record_or_union t) then false else eqb_ℤ (info t).int_size (pos 0)

-- `HandleByValArgument`, with the attributes if the caller collects them.
unfoldable pub pass_by_val : Hooks → Tree → Bool → State Tree → State Tree
pass_by_val h t attributes s =
    let passed = emit s (by_val (info t).ir t) in
    if attributes
    then record passed { byval_aligns = s.byval_aligns ++ h.byval_alignment t ∷ [] }
    else passed

-- A vector argument.
unfoldable pub pass_vector : Hooks → Tree → Bool → State Tree → Result (State Tree)
pass_vector h t attributes s =
    if h.vector_in_integer_regs t
    then pass_in_integer_registers h t 0 false s
    else if h.vector_by_val t
    then ok (pass_by_val h t attributes s)
    else ok (push_scalar (emit s (scalar (info t).ir (some t) 0)) (info t).ir)

-- An aggregate that the target passes in registers of mixed types, if they are not too few.
unfoldable pub pass_mixed_or_by_val :
    Hooks → Tree → Bool → List IrType → State Tree → Result (State Tree)
pass_mixed_or_by_val h t attributes elts s = h.partially_in_regs elts s.scalar_elts >>= λ partially.
    if not partially
    then ok (pass_in_mixed_registers h (info t).ir elts s)
    else ok (pass_by_val h t attributes s)

-- The branches of `HandleArgument` for aggregates, up to the decomposition.
unfoldable pub pass_aggregate :
    Hooks → Tree → Bool → State Tree → (State Tree → Result (State Tree)) → Result (State Tree)
pass_aggregate h t attributes s decompose =
    if h.as_fca t
    then ok (emit s (first_class (info t).ir t))
    else (h.in_mixed_regs t >>= λ (mixed, elts).
        if mixed
        then pass_mixed_or_by_val h t attributes elts s
        else if h.by_val t
        then ok (pass_by_val h t attributes s)
        else (let (in_regs, size, dont_check) = h.in_integer_regs t in
            if in_regs
            then pass_in_integer_registers h t size dont_check s
            else if is_zero_sized_struct_or_union t
            then ok s
            else decompose s))

-- `HandleArgument` up to the decomposition of the aggregate.
unfoldable pub pass_or :
    Hooks → Tree → Bool → State Tree → (State Tree → Result (State Tree)) → Result (State Tree)
pass_or h t attributes s decompose =
    let ty = (info t).ir in
    if is_void ty
    then ok (push_scalar (emit s (scalar (struct_of false []) (some t) 0)) (struct_of false []))
    else if is_passed_by_invisible_reference t
    then ok (push_scalar (emit s (invisible_reference (pointer ty) t)) (pointer ty))
    else if is_vector ty
    then pass_vector h t attributes s
    else (h.try_custom t s >>= λ (taken, s').
        if taken
        then ok s'
        else if is_single_value ty
        then ok (push_scalar (emit s' (scalar ty (some t) 0)) ty)
        else pass_aggregate h t attributes s' decompose)

-- What is done for a field between `EnterField` and `ExitField`.
abbrev pub inside :
    ℕ → IrType → (State Tree → Result (State Tree)) → State Tree → Result (State Tree)
inside i ty body s = body (emit s (enter i ty)) >>= λ s'. ok (emit s' exit)

-- The loop over the elements of an array, from element `i` on.
unfoldable pub each_element :
    IrType → (State Tree → Result (State Tree)) → ℕ → ℕ → State Tree → Result (State Tree)
each_element ty body zero i s = ok s
each_element ty body (suc left) i s =
    inside i ty body s >>= λ s'. each_element ty body left (suc i) s'

-- `Ty` past the padding, where it is an array type.
abbrev pub array_of : IrType → Option (IrType × ℕ)
array_of (array t n) = some (array t n, n)
array_of (struct packed (cons (array t n) ts)) = some (array t n, n)
array_of t = none

-- The bytes of a field's type, by which a union's fields are compared, computed in 32 bits.
abbrev pub byte_size : Tree → Option ℕ
byte_size t = elim (info t).size_bits [ none ↦ none | some bits ↦ some ((bits + 7) % 2 ^ 32 / 8) ]

module _ (h : Hooks) where
  unfoldable mutual
    -- `HandleArgument`; the flag says whether an `AttrBuilder` is given.
    pub handle_argument : Tree → Bool → State Tree → Result (State Tree)
    handle_argument (scalar_type i) a s = pass_or h (scalar_type i) a s (λ s'. unreachable)
    handle_argument (complex_type i t) a s = pass_or h (complex_type i t) a s (λ s'.
        inside 0 i.ir (handle_argument t false) s' >>= λ u.
        inside 1 i.ir (handle_argument t false) u)
    handle_argument (record_type i fs) a s =
        pass_or h (record_type i fs) a s (handle_fields fs i.ir)
    handle_argument (union_type i fs) a s =
        pass_or h (union_type i fs) a s
          (λ s'. if i.transparent then handle_first fs s' else handle_largest fs 0 (ok s') s')
    handle_argument (array_type i t) a s = pass_or h (array_type i t) a s (λ s'.
        elim (array_of i.ir) [
          | none ↦ unreachable
          | some (ty, n) ↦ each_element ty (handle_argument t false) n 0 s'
        ])

    -- The fields of a record, but those that are passed by value on their own. `GetFieldIndex`
    -- answers `INT_MAX` for a field without an element, which is asserted not to happen.
    pub handle_fields : Fields → IrType → State Tree → Result (State Tree)
    handle_fields no_fields ty s = ok s
    handle_fields (other_decl fs) ty s = handle_fields fs ty s
    handle_fields (field d size t fs) ty s =
        (if not (ltb (h.field_index d ty) (2 ^ 31 - 1))
          then unreachable
          else if h.by_val t
          then ok s
          else inside (h.field_index d ty) ty (handle_argument t false) s)
        >>= λ s'. handle_fields fs ty s'

    -- `HandleUnion` for a transparent union: its first field.
    pub handle_first : Fields → State Tree → Result (State Tree)
    handle_first no_fields s = unreachable
    handle_first (other_decl fs) s = handle_first fs s
    handle_first (field d size t fs) s = handle_argument t false s

    -- `HandleUnion` for any other union: `best` is the result for the largest field so far, of
    -- `max` bytes. A field with no constant size is outside the code's reach (`unreachable`).
    pub handle_largest : Fields → ℕ → Result (State Tree) → State Tree → Result (State Tree)
    handle_largest no_fields max best s = best
    handle_largest (other_decl fs) max best s = handle_largest fs max best s
    handle_largest (field d size t fs) max best s = elim (byte_size t) [
      | none ↦ unreachable
      | some n ↦
          handle_largest fs (if ltb max n then n else max)
            (if ltb max n then handle_argument t false s else best) s
    ]
