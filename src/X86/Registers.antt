-- ===== src/X86/Registers.antt =====
-- The register accounting of src/x86/Target.cpp.
use dragonegg.Base.{
  ◌<◌, ◌+◌, ◌≤◌, ◌≡◌, ◌⊎◌, ◌↔◌, refl, arith, inr, Bool, false, List, [], ◌∷◌, ◌++◌, if◌then◌else◌,
}
use dragonegg.Base.Results.{ok, ◌>>=◌}
use dragonegg.Ir.{IrType, void, float, double, x86_fp80, fp128, ppc_fp128, int, pointer, vector}
use dragonegg.X86.{Flags}
use dragonegg.X86.Arguments.{
  Uses, count_num_registers_uses, short_of_registers, partially_passed_in_regs,
}

-- Enough registers of each kind that the aggregate needs.
abbrev pub Fits : Uses → Uses → Type 0
Fits used needed =
    ((needed.gprs ≡ 0) ⊎ (used.gprs + needed.gprs ≤ 6))
    × ((needed.xmms ≡ 0) ⊎ (used.xmms + needed.xmms ≤ 8))

short_of_registers-Fits :
    (used needed : Uses) → (short_of_registers used needed ≡ false) ↔ Fits used needed
unfolding short_of_registers
short_of_registers-Fits used needed = ground arith

pub partially_passed_lem :
    (f : Flags) (elts scalar_elts : List IrType) (shadow_return : Bool) (used needed : Uses)
    → count_num_registers_uses f scalar_elts
        (record { gprs = if shadow_return then 1 else 0; xmms = 0 })
      ≡ ok used
    → count_num_registers_uses f elts (record { gprs = 0; xmms = 0 }) ≡ ok needed
    → (partially_passed_in_regs f elts scalar_elts shadow_return ≡ ok false) ↔ Fits used needed
unfolding partially_passed_in_regs
partially_passed_lem f elts scalar_elts shadow_return used needed h k =
    ground (arith, short_of_registers-Fits used needed)

-- While a general and an SSE register are left, an aggregate goes into registers exactly when the
-- parameter registers that are left, of 6 general and 8 SSE ones, hold all of it: with both lists
-- counted, the code answers "not partially passed" just if the counts fit.
pub partially_passed-Fits :
    (f : Flags) (elts scalar_elts : List IrType) (shadow_return : Bool) (used needed : Uses)
    → count_num_registers_uses f scalar_elts
        (record { gprs = if shadow_return then 1 else 0; xmms = 0 })
      ≡ ok used
    → count_num_registers_uses f elts (record { gprs = 0; xmms = 0 }) ≡ ok needed
    → used.gprs < 6
    → used.xmms < 8
    → (partially_passed_in_regs f elts scalar_elts shadow_return ≡ ok false)
      ↔ ((used.gprs + needed.gprs ≤ 6) × (used.xmms + needed.xmms ≤ 8))
partially_passed-Fits f elts scalar_elts shadow_return used needed h k general sse =
    let (to, from) = partially_passed_lem f elts scalar_elts shadow_return used needed h k in
    (
      λ p. let (a, b) = to p in (omega (arith, a, general), omega (arith, b, sse)),
      λ q. from (inr q.0, inr q.1),
    )

pub count-append :
    (f : Flags) (xs ys : List IrType) (u : Uses)
    → count_num_registers_uses f (xs ++ ys) u
      ≡ (count_num_registers_uses f xs u >>= λ v. count_num_registers_uses f ys v)
unfolding count_num_registers_uses
count-append f [] ys u = refl
count-append f (vector t n ∷ xs) ys u = count-append f xs ys _
count-append f (int w ∷ xs) ys u = count-append f xs ys _
count-append f (pointer t ∷ xs) ys u = count-append f xs ys _
count-append f (void ∷ xs) ys u = count-append f xs ys _
count-append f (float ∷ xs) ys u = count-append f xs ys _
count-append f (double ∷ xs) ys u = count-append f xs ys _
count-append f (x86_fp80 ∷ xs) ys u = count-append f xs ys _
count-append f (fp128 ∷ xs) ys u = count-append f xs ys _
count-append f (ppc_fp128 ∷ xs) ys u = count-append f xs ys _
count-append f (t ∷ xs) ys u = refl
