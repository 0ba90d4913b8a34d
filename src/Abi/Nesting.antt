-- ===== src/Abi/Nesting.antt =====
-- `HandleArgument` of src/DefaultABI.cpp keeps its client's log well formed.
use mathlib.Core.List.{append-nil}
use dragonegg.Base.{
  ◌^◌, sym, not, ℕ, zero, suc, ◌≡◌, refl, subst, inl, inr, arith, List, [], ◌∷◌, ◌++◌, none, some,
  Bool, true, false, Bool-cases, Option-cases, ltb, leb, ◌/◌, ◌%◌, ◌==◌, ◌||◌, if◌then◌else◌,
}
use dragonegg.Base.Results.{Result, ok, ◌>>=◌, ok_inj, >>=-eq-ok}
use dragonegg.Ir.{IrType, int, is_void, pointer, is_vector, is_single_value, array, struct_of}
use dragonegg.Client.{
  State, scalar, invisible_reference, by_val, first_class, enter, exit, emit, push_scalar,
}
use dragonegg.Client.Log.{
  depth, elts_of, Extends, Extends-refl, Extends-trans, Extends-inside, Extends-quiet,
  Extends-scalar, AllExtend, AllExtend-bind, AllExtend-ok,
}
use dragonegg.Abi.{
  Tree, info, Hooks, is_passed_by_invisible_reference, pass_field, leftover_type, pass_elements,
  pass_array, pass_leftover, pass_integers, pass_in_integer_registers, pass_mixed,
  pass_in_mixed_registers, array_field, leftover_field,
}
use dragonegg.Abi.Arguments.{
  is_zero_sized_struct_or_union, pass_by_val, pass_vector, pass_mixed_or_by_val, pass_aggregate,
  pass_or, inside, each_element,
}

pass_field-Extends :
    (sty : IrType) (i : ℕ) (t : IrType) (r : ℕ) (s : State Tree)
    → Extends s (pass_field sty i t r s)
unfolding depth elts_of
pass_field-Extends sty i t r s =
    Extends-inside i sty
      (Extends-scalar (emit s (enter i sty)) (scalar t none r) t (λ n. refl) refl)

pass_elements-Extends :
    (aty elt : IrType) (left j : ℕ) (s : State Tree) → Extends s (pass_elements aty elt left j s)
unfolding pass_elements
pass_elements-Extends aty elt zero j s = Extends-refl s
pass_elements-Extends aty elt (suc left) j s =
    Extends-trans (pass_field-Extends aty j elt 0 s)
      (pass_elements-Extends aty elt left (suc j) (pass_field aty j elt 0 s))

pass_array-Extends :
    (sty aty elt : IrType) (n : ℕ) (s : State Tree) → Extends s (pass_array sty aty elt n s)
unfolding pass_array
pass_array-Extends sty aty elt n s = elim (Bool-cases (ltb 0 n)) [
  | inl e ↦ rw e (Extends-inside 0 sty (pass_elements-Extends aty elt n 0 (emit s (enter 0 sty))))
  | inr e ↦ rw e (Extends-refl s)
]

pass_leftover-Extends :
    (alloc_size : IrType → ℕ) (sty : IrType) (i size : ℕ) (s : State Tree)
    → Extends s (pass_leftover alloc_size sty i size s)
unfolding pass_leftover
pass_leftover-Extends alloc_size sty i size s = elim (Option-cases (leftover_type size)) [
  | inl e ↦ rw (e, pass_leftover) (Extends-refl s)
  | inr (t, e) ↦ rw (e, pass_leftover) (pass_field-Extends sty i t _ s)
]

pass_integers-Extends :
    (alloc_size : IrType → ℕ) (element_size size : ℕ) (s : State Tree)
    → Extends s (pass_integers alloc_size element_size size s)
unfolding pass_integers
pass_integers-Extends alloc_size element_size size s =
    let elt = int (if element_size == 8 then 64 else 32) in
    let n = size / element_size in
    let left = (if ltb 0 n then size % element_size else size) in
    let aty = array elt n in
    let sty = struct_of false (array_field aty n ++ leftover_field left) in
    Extends-trans (pass_array-Extends sty aty elt n s) (
      pass_leftover-Extends alloc_size sty (if ltb 0 n then 1 else 0) left
        (pass_array sty aty elt n s))

integer_registers-AllExtend :
    (h : Hooks) (t : Tree) (size : ℕ) (dont : Bool) (s : State Tree)
    → AllExtend s (pass_in_integer_registers h t size dont s)
unfolding pass_in_integer_registers
integer_registers-AllExtend h t size dont s =
    let element_size : ℕ = (if dont || leb h.int64_align ((info t).align_bits / 8) then 8 else 4) in
    elim (Bool-cases (ltb 0 size)) [
      | inl e ↦ λ u k.
          subst (Extends s) (ok_inj (rw e at k))
            (pass_integers-Extends h.alloc_size element_size size s)
      | inr e ↦ elim (Option-cases (info t).size_bits) [
        | inl f ↦ λ u k. ground (arith, e, f)
        | inr (bits, f) ↦ λ u k.
            subst (Extends s) (ground arith)
              (pass_integers-Extends h.alloc_size element_size (bits / 8 % 2 ^ 32) s)
      ]
    ]

maybe_field-Extends :
    (sty t : IrType) (i r : ℕ) (s : State Tree)
    → Extends s (if is_void t then s else pass_field sty i t r s)
maybe_field-Extends sty t i r s = elim (Bool-cases (is_void t)) [
  | inl e ↦ rw e (Extends-refl s)
  | inr e ↦ rw e (pass_field-Extends sty i t r s)
]

pass_mixed-Extends :
    (sty word : IrType) (diff i : ℕ) (ts : List IrType) (s : State Tree)
    → Extends s (pass_mixed sty word diff i ts s)
unfolding pass_mixed
pass_mixed-Extends sty word diff i [] s = Extends-refl s
pass_mixed-Extends sty word diff i (t ∷ []) s = maybe_field-Extends sty t i diff s
pass_mixed-Extends sty word diff i (t ∷ u ∷ ts) s =
    Extends-trans (maybe_field-Extends sty t i 0 s) (
      pass_mixed-Extends sty word diff (suc i) (u ∷ ts)
        (if is_void t then s else pass_field sty i t 0 s))

by_val-Extends :
    (h : Hooks) (t : Tree) (a : Bool) (s : State Tree) → Extends s (pass_by_val h t a s)
unfolding pass_by_val depth elts_of
by_val-Extends h t true s = record {
  added = by_val (info t).ir t ∷ [];
  events_are = refl;
  elts_are = sym (append-nil s.scalar_elts);
  balanced = λ n. refl;
}
by_val-Extends h t false s = Extends-quiet s (by_val (info t).ir t) (λ n. refl) refl

scalar-Extends :
    (ty : IrType) (t : Tree) (s : State Tree)
    → Extends s (push_scalar (emit s (scalar ty (some t) 0)) ty)
unfolding depth elts_of
scalar-Extends ty t s = Extends-scalar s (scalar ty (some t) 0) ty (λ n. refl) refl

reference-Extends :
    (ty : IrType) (t : Tree) (s : State Tree)
    → Extends s (push_scalar (emit s (invisible_reference ty t)) ty)
unfolding depth elts_of
reference-Extends ty t s = Extends-scalar s (invisible_reference ty t) ty (λ n. refl) refl

fca-Extends : (ty : IrType) (t : Tree) (s : State Tree) → Extends s (emit s (first_class ty t))
unfolding depth elts_of
fca-Extends ty t s = Extends-quiet s (first_class ty t) (λ n. refl) refl

pub if-AllExtend :
    (s : State Tree) (b : Bool) (l r : Result (State Tree))
    → AllExtend s l
    → AllExtend s r
    → AllExtend s (if b then l else r)
if-AllExtend s true l r p q = p
if-AllExtend s false l r p q = q

vector-AllExtend :
    (h : Hooks) (t : Tree) (a : Bool) (s : State Tree) → AllExtend s (pass_vector h t a s)
unfolding pass_vector
vector-AllExtend h t a s =
    if-AllExtend s (h.vector_in_integer_regs t) _ _ (integer_registers-AllExtend h t 0 false s) (
      if-AllExtend s (h.vector_by_val t) _ _ (AllExtend-ok (by_val-Extends h t a s))
        (AllExtend-ok (scalar-Extends (info t).ir t s)))

-- A bind on something other than a state, which leaves the state as it was.
pub query-AllExtend :
    {A : Type 0} (s : State Tree) (m : Result A) (f : A → Result (State Tree))
    → ((x : A) → AllExtend s (f x))
    → AllExtend s (m >>= f)
query-AllExtend s m f p t e = let (x, h, k) = >>=-eq-ok m f e in p x t k

mixed-AllExtend :
    (h : Hooks) (t : Tree) (a : Bool) (elts : List IrType) (s : State Tree)
    → AllExtend s (pass_mixed_or_by_val h t a elts s)
unfolding pass_mixed_or_by_val pass_in_mixed_registers
mixed-AllExtend h t a elts s = query-AllExtend s (h.partially_in_regs elts s.scalar_elts) _ λ p.
    if-AllExtend s (not p) _ _ (AllExtend-ok (pass_mixed-Extends _ _ _ 0 elts s))
      (AllExtend-ok (by_val-Extends h t a s))

aggregate-AllExtend :
    (h : Hooks) (t : Tree) (a : Bool) (s : State Tree)
    (decompose : State Tree → Result (State Tree))
    → AllExtend s (decompose s)
    → AllExtend s (pass_aggregate h t a s decompose)
unfolding pass_aggregate
aggregate-AllExtend h t a s decompose d =
    if-AllExtend s (h.as_fca t) _ _ (AllExtend-ok (fca-Extends (info t).ir t s)) (
      query-AllExtend s (h.in_mixed_regs t) _ λ m.
        if-AllExtend s m.0 _ _ (mixed-AllExtend h t a m.1 s) (
          if-AllExtend s (h.by_val t) _ _ (AllExtend-ok (by_val-Extends h t a s)) (
            if-AllExtend s (h.in_integer_regs t).0 _ _
              (integer_registers-AllExtend h t (h.in_integer_regs t).1 (h.in_integer_regs t).2 s)
              (if-AllExtend s (is_zero_sized_struct_or_union t) _ _ (AllExtend-ok (Extends-refl s))
                d))))

pub inside-AllExtend :
    (i : ℕ) (ty : IrType) (body : State Tree → Result (State Tree)) (s : State Tree)
    → ((u : State Tree) → AllExtend u (body u))
    → AllExtend s (inside i ty body s)
inside-AllExtend i ty body s p t e =
    let (u, h, k) = >>=-eq-ok (body (emit s (enter i ty))) (λ v. ok (emit v exit)) e in
    subst (Extends s) (ok_inj k) (Extends-inside i ty (p (emit s (enter i ty)) u h))

pub elements-AllExtend :
    (ty : IrType) (body : State Tree → Result (State Tree)) (left i : ℕ) (s : State Tree)
    → ((u : State Tree) → AllExtend u (body u))
    → AllExtend s (each_element ty body left i s)
unfolding each_element
elements-AllExtend ty body zero i s p = AllExtend-ok (Extends-refl s)
elements-AllExtend ty body (suc left) i s p =
    AllExtend-bind s (inside i ty body s) _ (inside-AllExtend i ty body s p)
      (λ u. elements-AllExtend ty body left (suc i) u p)

-- The target's own way to pass an aggregate keeps the log well formed too.
abbrev pub CustomExtends : Hooks → Type 0
CustomExtends h =
    (t : Tree) (s s' : State Tree) (taken : Bool) → h.try_custom t s ≡ ok (taken, s') → Extends s s'

pub pass_or-AllExtend :
    (h : Hooks) (t : Tree) (a : Bool) (s : State Tree)
    (decompose : State Tree → Result (State Tree))
    → CustomExtends h
    → ((u : State Tree) → AllExtend u (decompose u))
    → AllExtend s (pass_or h t a s decompose)
unfolding pass_or
pass_or-AllExtend h t a s decompose c d =
    if-AllExtend s (is_void (info t).ir) _ _
      (AllExtend-ok (scalar-Extends (struct_of false []) t s))
      (if-AllExtend s (is_passed_by_invisible_reference t) _ _
        (AllExtend-ok (reference-Extends (pointer (info t).ir) t s))
        (if-AllExtend s (is_vector (info t).ir) _ _ (vector-AllExtend h t a s) (custom s)))
  where
    custom :
        (s : State Tree)
        → AllExtend s (
            h.try_custom t s >>= λ (taken, s').
            if taken
            then ok s'
            else if is_single_value (info t).ir
            then ok (push_scalar (emit s' (scalar (info t).ir (some t) 0)) (info t).ir)
            else pass_aggregate h t a s' decompose)
    custom s u e =
        let ((taken, s'), p, q) = >>=-eq-ok (h.try_custom t s) _ e in
        Extends-trans (c t s s' taken p) (
          if-AllExtend s' taken _ _ (AllExtend-ok (Extends-refl s'))
            (if-AllExtend s' (is_single_value (info t).ir) _ _
              (AllExtend-ok (scalar-Extends (info t).ir t s'))
              (aggregate-AllExtend h t a s' decompose (d s')))
            u q)
