-- ===== src/Abi/Returns.antt =====
-- `HandleArgument` of src/DefaultABI.cpp returns: the types and targets that never bring it to an
-- `llvm_unreachable` or a failed assertion.
use dragonegg.Base.{
  ℕ, zero, suc, ◌≡◌, refl, arith, List, Option, none, some, Bool, true, false, not, ◌&&◌, ◌||◌,
  Option-cases, ltb, leb, ◌/◌, ◌%◌, ◌-◌, ◌^◌, if◌then◌else◌, inl, inr,
}
use dragonegg.Base.Results.{Result, ok, unreachable, ◌>>=◌}
use dragonegg.Ir.{IrType, is_void, is_vector, is_single_value}
use dragonegg.Client.{State, enter, emit}
use dragonegg.Abi.{
  Tree, scalar_type, complex_type, record_type, union_type, array_type, Fields, no_fields, field,
  other_decl, info, Hooks, is_passed_by_invisible_reference, pass_integers,
  pass_in_integer_registers,
}
use dragonegg.Abi.Arguments.{
  is_zero_sized_struct_or_union, pass_vector, pass_mixed_or_by_val, pass_aggregate, pass_or, inside,
  each_element, array_of, byte_size, handle_argument, handle_fields, handle_first, handle_largest,
}

-- The first declaration of a list that is a field is there.
unfoldable pub has_field : Fields → Bool
has_field no_fields = false
has_field (other_decl fs) = has_field fs
has_field (field d size t fs) = true

abbrev is_some : {A : Type 0} → Option A → Bool
is_some none = false
is_some (some a) = true

-- The fields of a record have elements.
unfoldable pub are_indexed : Hooks → IrType → Fields → Bool
are_indexed h ty no_fields = true
are_indexed h ty (other_decl fs) = are_indexed h ty fs
are_indexed h ty (field d size t fs) = ltb (h.field_index d ty) (2 ^ 31 - 1) && are_indexed h ty fs

-- A type whose parts have the LLVM types that the conversion of types gives them: a type that is
-- no aggregate is void, a vector or a single value, an array is an array type, a transparent union
-- has a field, the fields of any other union have constant sizes, and every field of a record has an
-- element of the record's LLVM type (an index below `INT_MAX`).
unfoldable mutual
  pub is_converted : Hooks → Tree → Bool
  is_converted h (scalar_type i) = is_void i.ir || is_vector i.ir || is_single_value i.ir
  is_converted h (complex_type i t) = is_converted h t
  is_converted h (record_type i fs) = are_converted h fs && are_indexed h i.ir fs
  is_converted h (union_type i fs) =
      are_converted h fs && (if i.transparent then has_field fs else are_sized fs)
  is_converted h (array_type i t) = is_some (array_of i.ir) && is_converted h t

  pub are_converted : Hooks → Fields → Bool
  are_converted h no_fields = true
  are_converted h (other_decl fs) = are_converted h fs
  are_converted h (field d size t fs) = is_converted h t && are_converted h fs

  pub are_sized : Fields → Bool
  are_sized no_fields = true
  are_sized (other_decl fs) = are_sized fs
  are_sized (field d size t fs) = is_some (info t).size_bits && are_sized fs

abbrev Returns : {A : Type 0} → Result A → Type 0
Returns {A} r = (a : A) × (r ≡ ok a)

-- The target's hooks answer every question.
pub record HooksReturn (h : Hooks) : Type 0 where
  pub custom : (t : Tree) (s : State Tree) → (a : Bool × State Tree) × (h.try_custom t s ≡ ok a)
  pub mixed : (t : Tree) → (a : Bool × List IrType) × (h.in_mixed_regs t ≡ ok a)
  pub partially : (ts us : List IrType) → (b : Bool) × (h.partially_in_regs ts us ≡ ok b)

if-Returns :
    {A : Type 0} (b : Bool) (l r : Result A)
    → (b ≡ true → Returns l)
    → (b ≡ false → Returns r)
    → Returns (if b then l else r)
if-Returns true l r p q = p refl
if-Returns false l r p q = q refl

bind-Returns :
    {A B : Type 0} (m : Result A) (f : A → Result B)
    → Returns m
    → ((a : A) → Returns (f a))
    → Returns (m >>= f)
bind-Returns m f (a, e) p = let (b, k) = p a in (b, rw e k)

integer_registers-Returns :
    (h : Hooks) (t : Tree) (size : ℕ) (dont : Bool) (s : State Tree)
    → is_passed_by_invisible_reference t ≡ false
    → Returns (pass_in_integer_registers h t size dont s)
unfolding pass_in_integer_registers is_passed_by_invisible_reference
integer_registers-Returns h t size dont s e =
    let element_size : ℕ = (if dont || leb h.int64_align ((info t).align_bits / 8) then 8 else 4) in
    elim (Option-cases (info t).size_bits) [
      | inl f ↦ ground arith
      | inr (bits, f) ↦ (
        pass_integers h.alloc_size element_size (if ltb 0 size then size else bits / 8 % 2 ^ 32) s,
        ground arith,
      )
    ]

vector-Returns :
    (h : Hooks) (t : Tree) (a : Bool) (s : State Tree)
    → is_passed_by_invisible_reference t ≡ false
    → Returns (pass_vector h t a s)
unfolding pass_vector
vector-Returns h t a s e =
    if-Returns (h.vector_in_integer_regs t) _ _ (λ g. integer_registers-Returns h t 0 false s e)
      (λ g. if-Returns (h.vector_by_val t) _ _ (λ k. (_, refl)) (λ k. (_, refl)))

aggregate-Returns :
    (h : Hooks) (t : Tree) (a : Bool) (s : State Tree)
    (decompose : State Tree → Result (State Tree))
    → HooksReturn h
    → is_passed_by_invisible_reference t ≡ false
    → Returns (decompose s)
    → Returns (pass_aggregate h t a s decompose)
unfolding pass_aggregate pass_mixed_or_by_val
aggregate-Returns h t a s decompose r e d =
    if-Returns (h.as_fca t) _ _ (λ g. (_, refl))
      λ g. bind-Returns (h.in_mixed_regs t) _ (r.mixed t) λ x.
        if-Returns x.0 _ _
          (λ k.
            bind-Returns (h.partially_in_regs x.1 s.scalar_elts) _ (r.partially x.1 s.scalar_elts)
              λ p. if-Returns (not p) _ _ (λ l. (_, refl)) (λ l. (_, refl)))
          (λ k.
            if-Returns (h.by_val t) _ _ (λ l. (_, refl))
              λ l.
                if-Returns (h.in_integer_regs t).0 _ _
                  (λ m.
                    integer_registers-Returns h t (h.in_integer_regs t).1 (h.in_integer_regs t).2 s
                      e)
                  (λ m. if-Returns (is_zero_sized_struct_or_union t) _ _ (λ n. (_, refl)) (λ n. d)))

pass_or-Returns :
    (h : Hooks) (t : Tree) (a : Bool) (s : State Tree)
    (decompose : State Tree → Result (State Tree))
    → HooksReturn h
    → ((is_void (info t).ir || is_vector (info t).ir || is_single_value (info t).ir) ≡ false
        → (u : State Tree) → Returns (decompose u))
    → Returns (pass_or h t a s decompose)
unfolding pass_or
pass_or-Returns h t a s decompose r d =
    if-Returns (is_void (info t).ir) _ _ (λ g. (_, refl))
      λ g.
        if-Returns (is_passed_by_invisible_reference t) _ _ (λ k. (_, refl))
          λ k.
            if-Returns (is_vector (info t).ir) _ _ (λ l. vector-Returns h t a s k)
              λ l. bind-Returns (h.try_custom t s) _ (r.custom t s) λ x.
                if-Returns x.0 _ _ (λ m. (_, refl))
                  λ m.
                    if-Returns (is_single_value (info t).ir) _ _ (λ n. (_, refl))
                      λ n. aggregate-Returns h t a x.1 decompose r k (d (ground arith) x.1)

inside-Returns :
    (i : ℕ) (ty : IrType) (body : State Tree → Result (State Tree)) (s : State Tree)
    → ((u : State Tree) → Returns (body u))
    → Returns (inside i ty body s)
inside-Returns i ty body s p = bind-Returns _ _ (p (emit s (enter i ty))) (λ u. (_, refl))

elements-Returns :
    (ty : IrType) (body : State Tree → Result (State Tree)) (left i : ℕ) (s : State Tree)
    → ((u : State Tree) → Returns (body u))
    → Returns (each_element ty body left i s)
unfolding each_element
elements-Returns ty body zero i s p = (_, refl)
elements-Returns ty body (suc left) i s p =
    bind-Returns (inside i ty body s) _ (inside-Returns i ty body s p)
      (λ u. elements-Returns ty body left (suc i) u p)

array-Returns :
    (o : Option (IrType × ℕ)) (body : State Tree → Result (State Tree)) (s : State Tree)
    → is_some o ≡ true
    → ((u : State Tree) → Returns (body u))
    → Returns (elim o [ none ↦ unreachable | some (ty, n) ↦ each_element ty body n 0 s ])
array-Returns none body s e p = cc
array-Returns (some (ty, n)) body s e p = elements-Returns ty body n 0 s p

sized-Returns :
    (t : Tree) (next : ℕ → Result (State Tree))
    → is_some (info t).size_bits ≡ true
    → ((n : ℕ) → Returns (next n))
    → Returns (elim (byte_size t) [ none ↦ unreachable | some n ↦ next n ])
sized-Returns t next e p = elim (Option-cases (info t).size_bits) [
  | inl f ↦ ground arith
  | inr (bits, f) ↦ rw f (p _)
]

module _ (h : Hooks) (r : HooksReturn h) where
  mutual
    unfolding handle_argument handle_fields handle_first handle_largest is_converted are_converted
        are_sized has_field are_indexed

    argument-Returns :
        (t : Tree) (a : Bool) (s : State Tree)
        → is_converted h t ≡ true
        → Returns (handle_argument h t a s)
    argument-Returns (scalar_type i) a s e = pass_or-Returns h (scalar_type i) a s _ r (λ k u. cc)
    argument-Returns (complex_type i t) a s e = pass_or-Returns h (complex_type i t) a s _ r λ k u.
        bind-Returns (inside 0 i.ir (handle_argument h t false) u) _
          (inside-Returns 0 i.ir _ u (λ v. argument-Returns t false v e))
          (λ w. inside-Returns 1 i.ir _ w (λ v. argument-Returns t false v e))
    argument-Returns (record_type i fs) a s e =
        pass_or-Returns h (record_type i fs) a s _ r
          (λ k u. fields-Returns fs i.ir u (ground arith) (ground arith))
    argument-Returns (union_type i fs) a s e = pass_or-Returns h (union_type i fs) a s _ r λ k u.
        if-Returns i.transparent _ _ (λ l. first-Returns fs u (ground arith) (ground arith))
          (λ l. largest-Returns fs 0 (ok u) u (ground arith) (ground arith) (u, refl))
    argument-Returns (array_type i t) a s e = pass_or-Returns h (array_type i t) a s _ r λ k u.
        array-Returns (array_of i.ir) (handle_argument h t false) u (ground arith)
          (λ v. argument-Returns t false v (ground arith))

    fields-Returns :
        (fs : Fields) (ty : IrType) (s : State Tree)
        → are_converted h fs ≡ true
        → are_indexed h ty fs ≡ true
        → Returns (handle_fields h fs ty s)
    fields-Returns no_fields ty s e x = (s, refl)
    fields-Returns (other_decl fs) ty s e x = fields-Returns fs ty s e x
    fields-Returns (field d size t fs) ty s e x =
        bind-Returns _ _
          (if-Returns (not (ltb (h.field_index d ty) (2 ^ 31 - 1))) _ _ (λ k. ground (arith, k, x))
            (λ l.
              if-Returns (h.by_val t) _ _ (λ k. (s, refl))
                (λ k.
                  inside-Returns (h.field_index d ty) ty _ s
                    (λ v. argument-Returns t false v (ground arith)))))
          (λ u. fields-Returns fs ty u (ground arith) (ground arith))

    first-Returns :
        (fs : Fields) (s : State Tree)
        → are_converted h fs ≡ true
        → has_field fs ≡ true
        → Returns (handle_first h fs s)
    first-Returns no_fields s e f = cc
    first-Returns (other_decl fs) s e f = first-Returns fs s e f
    first-Returns (field d size t fs) s e f = argument-Returns t false s (ground arith)

    largest-Returns :
        (fs : Fields) (max : ℕ) (best : Result (State Tree)) (s : State Tree)
        → are_converted h fs ≡ true
        → are_sized fs ≡ true
        → Returns best
        → Returns (handle_largest h fs max best s)
    largest-Returns no_fields max best s e f p = p
    largest-Returns (other_decl fs) max best s e f p = largest-Returns fs max best s e f p
    largest-Returns (field d size t fs) max best s e f p = sized-Returns t _ (ground arith) λ n.
        largest-Returns fs _ _ s (ground arith) (ground arith)
          (if-Returns (ltb max n) _ _ (λ k. argument-Returns t false s (ground arith)) (λ k. p))

  -- If the target's hooks answer, an argument whose type and parts have the LLVM types that the
  -- conversion gives them, with elements for the fields of records, is passed: no unreachable code and no failed assertion is met.
  pub handle_argument-returns :
      (t : Tree) (a : Bool) (s : State Tree)
      → is_converted h t ≡ true
      → (s' : State Tree) × (handle_argument h t a s ≡ ok s')
  handle_argument-returns t a s e = argument-Returns t a s e
