-- ===== src/X86/Demand.antt =====
-- The registers that src/x86/Target.cpp counts for an aggregate passed in registers of mixed types
-- are those of its classes.
use dragonegg.Base.{
  ℕ, suc, ◌+◌, ◌≤◌, ◌≡◌, ◌⊎◌, inl, inr, arith, Bool, true, false, List, [], ◌∷◌, ◌++◌,
  if◌then◌else◌,
}
use dragonegg.Base.Int.{ℤ}
use dragonegg.Base.Results.{ok, Result-cases}
use dragonegg.Ir.{IrType, void, float, double, int, vector}
use dragonegg.X86.{
  RegClass, no_class, integer, integer_si, sse, sse_sf, sse_df, sse_up, x87, x87_up, complex_x87,
  Flags, Facts, mixed_loop, sse_up_type, unwrapped, sse_pair, sse_last,
}
use dragonegg.X86.Arguments.{
  Uses, count_num_registers_uses, partially_passed_in_regs, mixed_by_classes,
  should_pass_64_in_mixed_regs,
}
use dragonegg.X86.Registers.{count-append, partially_passed_lem}

-- The words of the aggregate that the ABI puts in general registers.
unfoldable pub integer_words : List RegClass → ℕ
integer_words [] = 0
integer_words (integer ∷ cs) = suc (integer_words cs)
integer_words (integer_si ∷ cs) = suc (integer_words cs)
integer_words (c ∷ cs) = integer_words cs

-- What counting a list more adds to the general registers.
abbrev Adds : Flags → List IrType → ℕ → Type 0
Adds f ts n = (u w : Uses) → count_num_registers_uses f ts u ≡ ok w → w.gprs ≡ u.gprs + n

sse_up-Adds : (f : Flags) (t x : IrType) → sse_up_type t ≡ ok x → Adds f (x ∷ []) 0
unfolding sse_up_type count_num_registers_uses
sse_up-Adds f (vector t n) x e u w h = ground arith
sse_up-Adds f t x e u w h = ground arith

sse_pair-Adds :
    (f : Flags) (ty : IrType) (b : ℤ) (c : RegClass) (ts : List IrType)
    → sse_pair ty b c ≡ ok ts
    → Adds f ts (integer_words (sse ∷ c ∷ []))
unfolding sse_pair count_num_registers_uses integer_words
sse_pair-Adds f ty b sse_up ts e u w h = ground (
  arith,
  λ (x : IrType) (p : sse_up_type (unwrapped ty) ≡ ok x). sse_up-Adds f (unwrapped ty) x p u w,
)
sse_pair-Adds f ty b c ts e u w h = ground arith

sse_last-Adds : (f : Flags) (b : ℤ) (ts : List IrType) → sse_last b ≡ ok ts → Adds f ts 0
unfolding sse_last count_num_registers_uses
sse_last-Adds f b ts e u w h = ground arith

Adds-append :
    (f : Flags) (xs ys : List IrType) (n m : ℕ)
    → Adds f xs n
    → Adds f ys m
    → Adds f (xs ++ ys) (n + m)
Adds-append f xs ys n m h k u w e = elim (Result-cases (count_num_registers_uses f xs u)) [
  | inl (v, p) ↦ ground (arith, h u v p, k v w, count-append f xs ys u)
  | inr p ↦ ground (arith, count-append f xs ys u)
]

int-Adds : (f : Flags) → Adds f (int 64 ∷ []) 1
unfolding count_num_registers_uses
int-Adds f u w h = ground arith

others-Adds : (f : Flags) → Adds f (float ∷ []) 0 × Adds f (double ∷ []) 0 × Adds f (void ∷ []) 0
unfolding count_num_registers_uses
others-Adds f = (λ u w h. ground arith, λ u w h. ground arith, λ u w h. ground arith)

nil-Adds : (f : Flags) → Adds f [] 0
unfolding count_num_registers_uses
nil-Adds f u w h = ground arith

-- The loop adds a general register for each integer class, after what was pushed before.
mixed_loop-Adds :
    (f : Flags) (ty : IrType) (cs : List RegClass) (b : ℤ) (acc : List IrType) (e : Bool)
    (elts : List IrType) (n : ℕ)
    → mixed_loop ty b cs acc e ≡ ok (true, elts)
    → Adds f acc n
    → Adds f elts (n + integer_words cs)
unfolding mixed_loop integer_words
mixed_loop-Adds f ty [] b acc e elts n h a u w k = ground (arith, a u w)
mixed_loop-Adds f ty (integer ∷ cs) b acc e elts n h a u w k = omega (
  arith,
  mixed_loop-Adds f ty cs _ _ _ elts (n + 1) h (Adds-append f acc _ n 1 a (int-Adds f)) u w k,
)
mixed_loop-Adds f ty (integer_si ∷ cs) b acc e elts n h a u w k = omega (
  arith,
  mixed_loop-Adds f ty cs _ _ _ elts (n + 1) h (Adds-append f acc _ n 1 a (int-Adds f)) u w k,
)
mixed_loop-Adds f ty (sse ∷ []) b acc e elts n h a u w k = elim (Result-cases (sse_last b)) [
  | inl (ts, p) ↦ ground (arith, Adds-append f acc ts n 0 a (sse_last-Adds f b ts p) u w)
  | inr p ↦ ground arith
]
mixed_loop-Adds f ty (sse ∷ c ∷ []) b acc e elts n h a u w k =
    elim (Result-cases (sse_pair ty b c)) [
      | inl (ts, p) ↦ ground (
        arith,
        Adds-append f acc ts n (integer_words (sse ∷ c ∷ [])) a (sse_pair-Adds f ty b c ts p) u w,
      )
      | inr p ↦ ground arith
    ]
mixed_loop-Adds f ty (sse ∷ c ∷ d ∷ cs) b acc e elts n h a u w k = cc
mixed_loop-Adds f ty (sse_sf ∷ cs) b acc e elts n h a u w k = omega (
  arith,
  mixed_loop-Adds f ty cs _ _ _ elts (n + 0) h (Adds-append f acc _ n 0 a (others-Adds f).0) u w k,
)
mixed_loop-Adds f ty (sse_df ∷ cs) b acc e elts n h a u w k = omega (
  arith,
  mixed_loop-Adds f ty cs _ _ _ elts (n + 0) h (Adds-append f acc _ n 0 a (others-Adds f).1) u w k,
)
mixed_loop-Adds f ty (no_class ∷ cs) b acc e elts n h a u w k = omega (
  arith,
  mixed_loop-Adds f ty cs _ _ _ elts (n + 0) h (Adds-append f acc _ n 0 a (others-Adds f).2) u w k,
)
mixed_loop-Adds f ty (sse_up ∷ cs) b acc e elts n h a u w k = cc
mixed_loop-Adds f ty (x87 ∷ cs) b acc e elts n h a u w k = cc
mixed_loop-Adds f ty (x87_up ∷ cs) b acc e elts n h a u w k = cc
mixed_loop-Adds f ty (complex_x87 ∷ cs) b acc e elts n h a u w k = cc

by_classes-Adds :
    (f : Flags) (ty : IrType) (b : ℤ) (cs : List RegClass) (elts : List IrType)
    → mixed_by_classes ty b cs ≡ ok (true, elts)
    → Adds f elts (integer_words cs)
unfolding mixed_by_classes
by_classes-Adds f ty b [] elts h u w k = cc
by_classes-Adds f ty b (integer_si ∷ []) elts h u w k = cc
by_classes-Adds f ty b cs elts h u w k =
    omega (arith, mixed_loop-Adds f ty cs b [] true elts 0 h (nil-Adds f) u w k)

-- When an aggregate is passed in registers of mixed types and is not turned away for want of them,
-- every integer class of its classification has one of the 6 general registers, beside those that
-- the earlier parameters use.
pub mixed_regs-integer_words :
    (f : Flags) (t : Facts) (elts scalar_elts : List IrType) (shadow_return : Bool) (used : Uses)
    → should_pass_64_in_mixed_regs f t ≡ ok (true, elts)
    → count_num_registers_uses f scalar_elts
        (record { gprs = if shadow_return then 1 else 0; xmms = 0 })
      ≡ ok used
    → partially_passed_in_regs f elts scalar_elts shadow_return ≡ ok false
    → (integer_words t.classes ≡ 0) ⊎ (used.gprs + integer_words t.classes ≤ 6)
unfolding should_pass_64_in_mixed_regs
mixed_regs-integer_words f t elts scalar_elts shadow_return used m c p =
    elim (Result-cases (count_num_registers_uses f elts (record { gprs = 0; xmms = 0 }))) [
      | inl (needed, e) ↦ ground (
        arith,
        (partially_passed_lem f elts scalar_elts shadow_return used needed c e).0 p,
        λ (q : mixed_by_classes t.ir t.bytes t.classes ≡ ok (true, elts)).
            by_classes-Adds f t.ir t.bytes t.classes elts q (record { gprs = 0; xmms = 0 }) needed
              e,
      )
      | inr e ↦ unfold partially_passed_in_regs in ground arith
    ]
