-- ===== src/Abi/Balanced.antt =====
-- `HandleArgument` of src/DefaultABI.cpp, for every type: the recursion over the tree.
use dragonegg.Base.{◌^◌, ◌-◌, not, ℕ, ◌≡◌, Option, none, some, Bool, false, ltb}
use dragonegg.Base.Results.{Result, ok, unreachable}
use dragonegg.Ir.{IrType}
use dragonegg.Client.{State}
use dragonegg.Client.Log.{Extends, Extends-refl, AllExtend, AllExtend-bind, AllExtend-ok}
use dragonegg.Abi.{
  Tree, scalar_type, complex_type, record_type, union_type, array_type, Fields, no_fields, field,
  other_decl, Hooks,
}
use dragonegg.Abi.Arguments.{
  inside, each_element, array_of, byte_size, handle_argument, handle_fields, handle_first,
  handle_largest,
}
use dragonegg.Abi.Nesting.{
  CustomExtends, inside-AllExtend, elements-AllExtend, pass_or-AllExtend, if-AllExtend,
}

module _ (h : Hooks) (c : CustomExtends h) where
  array-AllExtend :
      (o : Option (IrType × ℕ)) (body : State Tree → Result (State Tree)) (s : State Tree)
      → ((u : State Tree) → AllExtend u (body u))
      → AllExtend s (elim o [ none ↦ unreachable | some (ty, n) ↦ each_element ty body n 0 s ])
  array-AllExtend none body s p t e = cc
  array-AllExtend (some (ty, n)) body s p t e = elements-AllExtend ty body n 0 s p t e

  sized-AllExtend :
      (o : Option ℕ) (next : ℕ → Result (State Tree)) (s : State Tree)
      → ((n : ℕ) → AllExtend s (next n))
      → AllExtend s (elim o [ none ↦ unreachable | some n ↦ next n ])
  sized-AllExtend none next s p t e = cc
  sized-AllExtend (some n) next s p t e = p n t e

  mutual
    unfolding handle_argument handle_fields handle_first handle_largest

    argument-AllExtend :
        (t : Tree) (a : Bool) (s : State Tree) → AllExtend s (handle_argument h t a s)
    argument-AllExtend (scalar_type i) a s =
        pass_or-AllExtend h (scalar_type i) a s _ c (λ u v e. cc)
    argument-AllExtend (complex_type i t) a s = pass_or-AllExtend h (complex_type i t) a s _ c λ u.
        AllExtend-bind u (inside 0 i.ir (handle_argument h t false) u) _
          (inside-AllExtend 0 i.ir _ u (argument-AllExtend t false))
          (λ v. inside-AllExtend 1 i.ir _ v (argument-AllExtend t false))
    argument-AllExtend (record_type i fs) a s =
        pass_or-AllExtend h (record_type i fs) a s _ c (fields-AllExtend fs i.ir)
    argument-AllExtend (union_type i fs) a s = pass_or-AllExtend h (union_type i fs) a s _ c λ u.
        if-AllExtend u i.transparent _ _ (first-AllExtend fs u)
          (largest-AllExtend fs 0 (ok u) u (AllExtend-ok (Extends-refl u)))
    argument-AllExtend (array_type i t) a s = pass_or-AllExtend h (array_type i t) a s _ c λ u.
        array-AllExtend (array_of i.ir) (handle_argument h t false) u (argument-AllExtend t false)

    fields-AllExtend :
        (fs : Fields) (ty : IrType) (s : State Tree) → AllExtend s (handle_fields h fs ty s)
    fields-AllExtend no_fields ty s = AllExtend-ok (Extends-refl s)
    fields-AllExtend (other_decl fs) ty s = fields-AllExtend fs ty s
    fields-AllExtend (field d size t fs) ty s =
        AllExtend-bind s _ _
          (if-AllExtend s (not (ltb (h.field_index d ty) (2 ^ 31 - 1))) _ _ (λ u e. cc)
            (if-AllExtend s (h.by_val t) _ _ (AllExtend-ok (Extends-refl s))
              (inside-AllExtend (h.field_index d ty) ty _ s (argument-AllExtend t false))))
          (λ u. fields-AllExtend fs ty u)

    first-AllExtend : (fs : Fields) (s : State Tree) → AllExtend s (handle_first h fs s)
    first-AllExtend no_fields s = λ t e. cc
    first-AllExtend (other_decl fs) s = first-AllExtend fs s
    first-AllExtend (field d size t fs) s = argument-AllExtend t false s

    largest-AllExtend :
        (fs : Fields) (max : ℕ) (best : Result (State Tree)) (s : State Tree)
        → AllExtend s best
        → AllExtend s (handle_largest h fs max best s)
    largest-AllExtend no_fields max best s p = p
    largest-AllExtend (other_decl fs) max best s p = largest-AllExtend fs max best s p
    largest-AllExtend (field d size t fs) max best s p = sized-AllExtend (byte_size t) _ s λ n.
        largest-AllExtend fs _ _ s (if-AllExtend s (ltb max n) _ _ (argument-AllExtend t false s) p)

  -- However an argument is passed, the client's calls for it enter and leave fields in matching
  -- pairs, and the vector of scalar types grows by exactly the types of the scalars, pads and
  -- references that the client is handed, in their order. The target's custom hook has to do so.
  pub handle_argument-Extends :
      (t : Tree) (a : Bool) (s s' : State Tree) → handle_argument h t a s ≡ ok s' → Extends s s'
  handle_argument-Extends t a s s' e = argument-AllExtend t a s s' e
