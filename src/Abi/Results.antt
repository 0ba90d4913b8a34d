-- ===== src/Abi/Results.antt =====
-- `HandleReturnType` and `doNotUseShadowReturn` of src/DefaultABI.cpp.
use dragonegg.Base.{
  ℕ, ◌≡◌, ◌↔◌, inl, inr, refl, arith, Bool, true, false, ◌||◌, [], ◌∷◌, ◌++◌, Option, none, some,
  ◌==◌, if◌then◌else◌, Bool-cases,
}
use dragonegg.Base.Results.{Result, ok, unreachable, ◌>>=◌, Result-ok}
use dragonegg.Ir.{IrType, pointer, is_vector, is_void, is_single_value}
use dragonegg.Client.{
  State, Event, scalar_result, result_as_scalar, result_as_aggregate, aggregate_shadow_result,
  scalar_shadow_result, emit,
}
use dragonegg.Abi.{Tree, record_type, union_type, array_type, info}

-- The target's macros for results, at one function: its convention and declaration are fixed.
pub record ReturnHooks : Type 0 where
  pub vector_as_scalar : Tree → Option Tree
  pub vector_as_shadow : Tree → Bool
  pub complex_not_in_memory : Tree → Bool
  pub not_use_shadow : Tree → Bool
  -- GCC's `aggregate_value_p`
  pub aggregate_value : Tree → Bool
  pub selt_struct_as_scalar : Tree → Option Tree
  pub aggr_type : Tree → Result (Option IrType)
  pub scalar_type_for : Tree → Result (Option (IrType × ℕ))

unfoldable pub do_not_use_shadow_return : ReturnHooks → Tree → Bool
do_not_use_shadow_return h t = elim (info t).size_bits [
  | none ↦ false
  | some n ↦
      if h.complex_not_in_memory t || h.not_use_shadow t
      then true
      else if h.aggregate_value t
      then false
      else true
]

abbrev pub is_aggregate : Tree → Bool
is_aggregate (record_type i fs) = true
is_aggregate (union_type i fs) = true
is_aggregate (array_type i t) = true
is_aggregate t = false

-- The single element, if it has a constant size and is as big as the whole type.
unfoldable pub whole_element : ReturnHooks → Tree → Option Tree
whole_element h t = elim (h.selt_struct_as_scalar t) [
  | none ↦ none
  | some e ↦ elim (info e).size_bits [
    | none ↦ none
    | some n ↦ (if (info t).size_unit == (info e).size_unit then some e else none)
  ]
]

-- How an aggregate is returned without a shadow argument.
unfoldable pub direct_event : ReturnHooks → Tree → Result (Event Tree)
direct_event h t = elim (whole_element h t) [
  | some e ↦ ok (result_as_scalar (info e).ir 0)
  | none ↦ h.aggr_type t >>= λ aggr. elim aggr [
    | some ty ↦ ok (result_as_aggregate ty)
    | none ↦ h.scalar_type_for t >>= λ o. elim o [
      | some (ty, offset) ↦ ok (result_as_scalar ty offset)
      | none ↦ unreachable
    ]
  ]
]

-- The one call that `HandleReturnType` makes on the client.
unfoldable pub return_event : ReturnHooks → Tree → Result (Event Tree)
return_event h t =
    let ty = (info t).ir in
    if is_vector ty
    then elim (h.vector_as_scalar t) [
      | some u ↦ ok (result_as_scalar (info u).ir 0)
      | none ↦
          (if h.vector_as_shadow t
            then ok (scalar_shadow_result (pointer ty) false)
            else ok (scalar_result ty))
    ]
    else if is_single_value ty || is_void ty
    then ok (scalar_result ty)
    else if do_not_use_shadow_return h t
    then direct_event h t
    else if is_aggregate t
    then ok (aggregate_shadow_result (pointer ty) false)
    else ok (scalar_shadow_result (pointer ty) false)

unfoldable pub handle_return_type : ReturnHooks → Tree → State Tree → Result (State Tree)
handle_return_type h t s = return_event h t >>= λ e. ok (emit s e)

-- A pointer to the result is passed as a hidden argument.
unfoldable pub is_shadow : Event Tree → Bool
is_shadow (aggregate_shadow_result t r) = true
is_shadow (scalar_shadow_result t r) = true
is_shadow e = false

-- When a result needs a shadow argument: the rule, apart from the code's order of tests.
abbrev pub NeedsShadow : ReturnHooks → Tree → Type 0
NeedsShadow h t =
    if is_vector (info t).ir
    then (h.vector_as_scalar t ≡ none) × (h.vector_as_shadow t ≡ true)
    else (is_single_value (info t).ir ≡ false)
      × (is_void (info t).ir ≡ false)
      × (do_not_use_shadow_return h t ≡ false)

direct_event-is_shadow :
    (h : ReturnHooks) (t : Tree) (e : Event Tree) → direct_event h t ≡ ok e → is_shadow e ≡ false
unfolding direct_event is_shadow
direct_event-is_shadow h t e k = ground arith

return_event-shadow :
    (h : ReturnHooks) (t : Tree) (e : Event Tree)
    → return_event h t ≡ ok e
    → (is_shadow e ≡ true) ↔ NeedsShadow h t
unfolding return_event is_shadow
return_event-shadow h t e k = elim (Bool-cases (is_vector (info t).ir)) [
  | inl v ↦ ground arith
  | inr v ↦ ground (arith, direct_event-is_shadow h t e)
]

return_event-ok :
    (h : ReturnHooks) (t : Tree)
    → (do_not_use_shadow_return h t ≡ true → (d : Event Tree) × (direct_event h t ≡ ok d))
    → (e : Event Tree) × (return_event h t ≡ ok e)
return_event-ok h t direct = elim (Bool-cases (do_not_use_shadow_return h t)) [
  | inl d ↦
      let (e, p) = direct d in
      Result-ok (return_event h t) (unfold return_event in ground (arith, p))
  | inr d ↦ Result-ok (return_event h t) (unfold return_event in ground arith)
]

-- If an aggregate that is not to be returned by shadow has a direct form, `HandleReturnType` returns,
-- and it reports the result by exactly one call on the client, at the end of its log, pushing no
-- type. The call hands over a shadow pointer exactly when the result needs one.
pub handle_return_type-one_event :
    (h : ReturnHooks) (t : Tree) (s : State Tree)
    → (do_not_use_shadow_return h t ≡ true → (d : Event Tree) × (direct_event h t ≡ ok d))
    → (e : Event Tree) × (s' : State Tree) × (handle_return_type h t s ≡ ok s')
      × (s'.events ≡ s.events ++ e ∷ [])
      × (s'.scalar_elts ≡ s.scalar_elts)
      × ((is_shadow e ≡ true) ↔ NeedsShadow h t)
unfolding handle_return_type
handle_return_type-one_event h t s direct =
    let (e, p) = return_event-ok h t direct in
    (e, emit s e, rw p, refl, refl, return_event-shadow h t e p)
