-- ===== src/Arm/Registers.antt =====
-- The simulated register allocation of src/arm/Target.cpp.
use dragonegg.Base.{
  ℕ, suc, ◌+◌, ◌≤◌, ◌<◌, ◌≡◌, ◌↔◌, ◌⊎◌, inl, inr, refl, arith, Bool, true, false, ◌&&◌, List, [],
  ◌∷◌, none, some, if◌then◌else◌,
}
use dragonegg.Base.Results.{ok}
use dragonegg.Ir.{
  IrType, void, float, double, x86_fp80, fp128, ppc_fp128, x86_mmx, opaque, int, pointer, vector,
  array, struct,
}
use dragonegg.Arm.{
  Flags, CallingConv, uses_vfp, alloc_next_spr, alloc_for, count_num_registers_uses, all_free,
  partially_passed_in_regs,
}

-- The registers that are still free.
unfoldable pub free : List Bool → ℕ
free [] = 0
free (r ∷ rs) = (if r then 0 else 1) + free rs

-- A single register is found exactly when one is free, and takes one.
alloc_next_spr-free :
    (rs : List Bool)
    → ((alloc_next_spr rs ≡ none) × (free rs ≡ 0))
      ⊎ ((qs : List Bool) × (alloc_next_spr rs ≡ some qs) × (free rs ≡ suc (free qs)))
unfolding alloc_next_spr free
alloc_next_spr-free [] = inl (refl, refl)
alloc_next_spr-free (false ∷ rs) = inr (true ∷ rs, refl, omega arith)
alloc_next_spr-free (true ∷ rs) = elim (alloc_next_spr-free rs) [
  | inl (e, z) ↦ inl (rw e, omega arith)
  | inr (qs, e, n) ↦ inr (true ∷ qs, rw e, omega arith)
]

-- A scalar: no vector, and nothing that the count refuses.
unfoldable pub is_scalar : IrType → Bool
is_scalar float = true
is_scalar double = true
is_scalar (int w) = true
is_scalar (pointer t) = true
is_scalar void = true
is_scalar t = false

unfoldable pub all_scalars : List IrType → Bool
unfolding is_scalar
all_scalars [] = true
all_scalars (t ∷ ts) = is_scalar t && all_scalars ts

-- The floating point scalars.
unfoldable pub float_count : List IrType → ℕ
float_count [] = 0
float_count (float ∷ ts) = suc (float_count ts)
float_count (double ∷ ts) = suc (float_count ts)
float_count (t ∷ ts) = float_count ts

all_free-count : free all_free ≡ 16
unfolding free
all_free-count = refl

module _ (bit_width : IrType → ℕ → ℕ) where
  -- Counting from given registers: enough are free, and that many fewer are left; or too few are.
  abbrev Allocates : List IrType → List Bool → ℕ → Type 0
  Allocates ts rs n =
      ((qs : List Bool) × (count_num_registers_uses bit_width ts rs ≡ ok (some qs))
        × (free rs ≡ n + free qs))
      ⊎ ((count_num_registers_uses bit_width ts rs ≡ ok none) × (free rs < n))

  spr-Allocates :
      (t : IrType) (ts : List IrType) (rs : List Bool) (n : ℕ)
      → alloc_for bit_width t rs ≡ ok (alloc_next_spr rs)
      → ((qs : List Bool) → Allocates ts qs n)
      → Allocates (t ∷ ts) rs (suc n)
  unfolding count_num_registers_uses
  spr-Allocates t ts rs n a r = elim (alloc_next_spr-free rs) [
    | inl (e, z) ↦ inr (rw (a, e), omega arith)
    | inr (qs, e, k) ↦ elim (r qs) [
      | inl (ps, c, l) ↦ inl (ps, rw (a, e) c, omega arith)
      | inr (c, l) ↦ inr (rw (a, e) c, omega arith)
    ]
  ]

  scalars-Allocates :
      (ts : List IrType) (rs : List Bool) → all_scalars ts ≡ true → Allocates ts rs (float_count ts)
  unfolding all_scalars float_count count_num_registers_uses alloc_for
  scalars-Allocates [] rs h = inl (rs, refl, omega arith)
  scalars-Allocates (float ∷ ts) rs h =
      spr-Allocates float ts rs (float_count ts) refl (λ qs. scalars-Allocates ts qs h)
  scalars-Allocates (double ∷ ts) rs h =
      spr-Allocates double ts rs (float_count ts) refl (λ qs. scalars-Allocates ts qs h)
  scalars-Allocates (int w ∷ ts) rs h = scalars-Allocates ts rs h
  scalars-Allocates (pointer t ∷ ts) rs h = scalars-Allocates ts rs h
  scalars-Allocates (void ∷ ts) rs h = scalars-Allocates ts rs h
  scalars-Allocates (vector t n ∷ ts) rs h = cc
  scalars-Allocates (array t n ∷ ts) rs h = cc
  scalars-Allocates (struct packed es ∷ ts) rs h = cc
  scalars-Allocates (opaque ∷ ts) rs h = cc
  scalars-Allocates (x86_fp80 ∷ ts) rs h = cc
  scalars-Allocates (fp128 ∷ ts) rs h = cc
  scalars-Allocates (ppc_fp128 ∷ ts) rs h = cc
  scalars-Allocates (x86_mmx ∷ ts) rs h = cc

  -- For scalar arguments and members under the VFP convention, the aggregate is passed in registers
  -- exactly when the floating point scalars number at most 16: a double counts as one of the 16
  -- single registers, as a float does.
  pub partially_passed-scalars :
      (f : Flags) (conv : CallingConv) (elts scalar_elts : List IrType)
      → uses_vfp f conv ≡ true
      → all_scalars elts ≡ true
      → all_scalars scalar_elts ≡ true
      → (partially_passed_in_regs bit_width f conv elts scalar_elts ≡ ok false)
        ↔ (float_count scalar_elts + float_count elts ≤ 16)
  unfolding partially_passed_in_regs
  partially_passed-scalars f conv elts scalar_elts v h k =
      elim (scalars-Allocates scalar_elts all_free k) [
        | inl (rs, e, n) ↦ elim (scalars-Allocates elts rs h) [
          | inl (qs, c, m) ↦ ground (arith, all_free-count)
          | inr (c, m) ↦ ground (arith, all_free-count)
        ]
        | inr (e, n) ↦ ground (arith, all_free-count)
      ]
