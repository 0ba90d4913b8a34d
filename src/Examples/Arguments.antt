-- ===== src/Examples/Arguments.antt =====
-- Arguments and results of src/DefaultABI.cpp on a struct of an integer and a double.
use dragonegg.Base.{
  ◌^◌, ◌%◌, ℕ, ◌+◌, ◌*◌, ◌/◌, ◌≡◌, refl, subst, true, false, Bool, List, [], ◌∷◌, some, none, ltb,
  if◌then◌else◌,
}
use dragonegg.Base.Int.{pos}
use dragonegg.Base.Results.{ok, ok_inj}
use dragonegg.Ir.{IrType, int, double, struct_of}
use dragonegg.Client.{State, Event, enter, exit, scalar}
use dragonegg.Client.Log.{Extends, Extends-refl}
use dragonegg.Abi.{
  Info, Tree, scalar_type, record_type, no_fields, field, Hooks, is_passed_by_invisible_reference,
  pass_in_integer_registers,
}
use dragonegg.Abi.Arguments.{
  is_zero_sized_struct_or_union, pass_or, pass_aggregate, handle_argument, handle_fields,
}
use dragonegg.Abi.Nesting.{CustomExtends}
use dragonegg.Abi.Balanced.{handle_argument-Extends}
use dragonegg.Abi.Returns.{
  HooksReturn, is_converted, are_converted, are_indexed, handle_argument-returns,
}
use dragonegg.Abi.Bytes.{bytes, pass_in_integer_registers-bytes}
use dragonegg.Abi.Single.{single_element, single_field}
use dragonegg.Abi.Results.{ReturnHooks, do_not_use_shadow_return, direct_event}

abbrev info_of : IrType → ℕ → Info
info_of t bytes = record {
  ir = t;
  size_bits = some (8 * bytes);
  size_unit = bytes;
  int_size = pos bytes;
  align_bits = 64;
  transparent = false;
  addressable = false;
}

abbrev int_tree : Tree
int_tree = scalar_type (info_of (int 32) 4)

abbrev double_tree : Tree
double_tree = scalar_type (info_of double 8)

abbrev pair_ir : IrType
pair_ir = struct_of false (int 32 ∷ double ∷ [])

-- `struct { int; double; }`
abbrev pair_tree : Tree
pair_tree =
    record_type (info_of pair_ir 16)
      (field 0 (some 32) int_tree (field 1 (some 64) double_tree no_fields))

-- `struct { double; }`
abbrev wrapper_tree : Tree
wrapper_tree =
    record_type (info_of (struct_of false (double ∷ [])) 8)
      (field 0 (some 64) double_tree no_fields)

abbrev sizes : IrType → ℕ
sizes (int w) = w / 8
sizes t = 8

-- A target without rules of its own.
abbrev plain_hooks : Hooks
plain_hooks = record {
  vector_in_integer_regs = λ (t : Tree). false;
  vector_by_val = λ (t : Tree). false;
  try_custom = λ (t : Tree) (s : State Tree). ok (false, s);
  as_fca = λ (t : Tree). false;
  in_mixed_regs = λ (t : Tree). ok (false, []);
  partially_in_regs = λ (ts us : List IrType). ok false;
  by_val = λ (t : Tree). false;
  in_integer_regs = λ (t : Tree). (false, 0, false);
  byval_alignment = λ (t : Tree). 8;
  field_index = λ (d : ℕ) (t : IrType). d;
  alloc_size = sizes;
  int64_align = 8;
  pointer_size = 8;
}

abbrev no_calls : State Tree
no_calls = record { events = []; scalar_elts = []; byval_aligns = [] }

abbrev pair_passed : State Tree
pair_passed = record {
  events =
      enter 0 pair_ir
      ∷ scalar (int 32) (some int_tree) 0
      ∷ exit
      ∷ enter 1 pair_ir
      ∷ scalar double (some double_tree) 0
      ∷ exit
      ∷ [];
  scalar_elts = int 32 ∷ double ∷ [];
  byval_aligns = [];
}

pair_is_decomposed : handle_argument plain_hooks pair_tree false no_calls ≡ ok pair_passed
unfolding handle_argument handle_fields pass_or pass_aggregate is_passed_by_invisible_reference
    is_zero_sized_struct_or_union
pair_is_decomposed = refl

plain_hooks-CustomExtends : CustomExtends plain_hooks
plain_hooks-CustomExtends t s s' taken e =
    subst (λ (r : Bool × State Tree). Extends s r.1) (ok_inj e) (Extends-refl s)

plain_hooks-HooksReturn : HooksReturn plain_hooks
plain_hooks-HooksReturn = record {
  custom = λ t s. ((false, s), refl);
  mixed = λ t. ((false, []), refl);
  partially = λ ts us. (false, refl);
}

handle_argument-Extends_example : Extends no_calls pair_passed
handle_argument-Extends_example =
    handle_argument-Extends plain_hooks plain_hooks-CustomExtends pair_tree false no_calls
      pair_passed pair_is_decomposed

handle_argument-returns_example :
    (s : State Tree) × (handle_argument plain_hooks pair_tree false no_calls ≡ ok s)
handle_argument-returns_example =
    handle_argument-returns plain_hooks plain_hooks-HooksReturn pair_tree false no_calls
      (unfold is_converted are_converted are_indexed in refl)

pass_in_integer_registers-bytes_example :
    (u : State Tree) × (pass_in_integer_registers plain_hooks pair_tree 13 true no_calls ≡ ok u)
    × (bytes sizes u.events ≡ bytes sizes [] + (if ltb 0 13 then 13 else 128 / 8 % 2 ^ 32))
pass_in_integer_registers-bytes_example =
    pass_in_integer_registers-bytes plain_hooks pair_tree 13 128 true no_calls refl refl refl

wrapper_element : single_element wrapper_tree true true ≡ ok (some double_tree)
unfolding single_element single_field
wrapper_element = refl

-- Aggregates are returned in memory.
abbrev memory_returns : ReturnHooks
memory_returns = record {
  vector_as_scalar = λ (t : Tree). none;
  vector_as_shadow = λ (t : Tree). false;
  complex_not_in_memory = λ (t : Tree). false;
  not_use_shadow = λ (t : Tree). false;
  aggregate_value = λ (t : Tree). true;
  selt_struct_as_scalar = λ (t : Tree). none;
  aggr_type = λ (t : Tree). ok none;
  scalar_type_for = λ (t : Tree). ok none;
}

pair_uses_shadow : do_not_use_shadow_return memory_returns pair_tree ≡ false
unfolding do_not_use_shadow_return
pair_uses_shadow = refl

pair_has_no_direct :
    do_not_use_shadow_return memory_returns pair_tree ≡ true
    → (d : Event Tree) × (direct_event memory_returns pair_tree ≡ ok d)
unfolding do_not_use_shadow_return
pair_has_no_direct e = cc
