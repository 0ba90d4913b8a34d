-- ===== src/Asm/Registers.antt =====
-- `CanonicalizeConstraint` of src/Convert.cpp. GCC's register classes are a parameter.
pub mod Only
pub mod Right
use dragonegg.Base.{
  ℕ, zero, suc, ◌+◌, ◌-◌, ◌≤◌, ◌<◌, ◌≡◌, ◌⊎◌, ◌↔◌, refl, sym, ap, subst, ◌∙◌, arith, inl, inr, Bool,
  true, false, not, ◌&&◌, ◌||◌, Bool-cases, Option-cases, List, [], ◌∷◌, ◌++◌, Option, none, some,
  ltb, leb, ◌==◌, if◌then◌else◌, length,
}
use dragonegg.Base.Results.{Result, ok, Result-cases, unreachable, ◌>>=◌}

-- `NO_REGS`, `GENERAL_REGS`, the class of a constraint at a place in a string, `FIRST_PSEUDO_REGISTER`,
-- the bits of `reg_class_contents`, `CONSTRAINT_LEN`, `LLVM_GET_REG_NAME` and
-- `LLVM_CANONICAL_ADDRESS_CONSTRAINTS`.
pub record RegisterRules : Type 0 where
  pub no_regs : ℕ
  pub general_regs : ℕ
  pub class_of : List ℕ → ℕ
  pub first_pseudo_register : ℕ
  pub in_class : ℕ → ℕ → Bool
  pub constraint_len : List ℕ → ℕ
  pub reg_name : ℕ → List ℕ
  pub address_constraints : List ℕ

-- The classes that were analyzed: each with its only register, if it has only one.
abbrev pub Analyzed : Type 0
Analyzed = ℕ → Option (Option ℕ)

module _ (r : RegisterRules) where
  -- The scan of a class from a register on, with what was found before it.
  unfoldable pub scan_class : ℕ → ℕ → ℕ → Option ℕ → Option ℕ
  scan_class c zero j found = found
  scan_class c (suc left) j found =
      let one = scan_class c left (suc j) (some j) in
      let same = scan_class c left (suc j) found in
      if r.in_class c j then elim found [ none ↦ one | some i ↦ none ] else same

  abbrev pub only_register : ℕ → Option ℕ
  only_register c = scan_class c r.first_pseudo_register 0 none

  -- The answer for a class, remembered for the next time.
  unfoldable pub analyze : ℕ → Analyzed → Option ℕ × Analyzed
  analyze c known = elim (known c) [
    | some answer ↦ (answer, known)
    | none ↦ (only_register c, λ d. if c == d then some (only_register c) else known d)
  ]

  abbrev pub register_or_letter : ℕ → Option ℕ → List ℕ
  register_or_letter c none = c ∷ []
  register_or_letter c (some j) = b'{' ∷ r.reg_name j ++ b'}' ∷ []

  abbrev pub class_at : ℕ → List ℕ → ℕ
  class_at c s = if c == b'r' then r.general_regs else r.class_of (c ∷ s)

  -- What one letter becomes.
  unfoldable pub canonical_letter : ℕ → List ℕ → Analyzed → List ℕ × Analyzed
  canonical_letter c s known =
      if c == b'g'
      then (b'i' ∷ b'm' ∷ b'r' ∷ [], known)
      else if c == b'p'
      then (r.address_constraints, known)
      else if class_at c s == r.no_regs
      then (c ∷ [], known)
      else (register_or_letter c (analyze (class_at c s) known).0, (analyze (class_at c s) known).1)

  unfoldable pub canonical_letters : List ℕ → Analyzed → List ℕ × Analyzed
  canonical_letters [] known = ([], known)
  canonical_letters (c ∷ s) known =
      let (text, after) = canonical_letter c s known in
      let (more, last) = canonical_letters s after in (text ++ more, last)

  -- The modifiers: what is kept of them, and what is left unless no letter is.
  unfoldable pub skip_modifiers : List ℕ → Result (List ℕ × Option (List ℕ))
  skip_modifiers [] = ok ([], some [])
  skip_modifiers (c ∷ s) =
      let rest = skip_modifiers s in
      if c == b'=' || c == b'+'
      then unreachable
      else if c == b'*' || c == b'?' || c == b'!'
      then rest
      else if c == b'&' || c == b'%'
      then (rest >>= λ (kept, left). ok (c ∷ kept, left))
      else if c == b'#'
      then ok ([], none)
      else ok ([], some (c ∷ s))

  unfoldable pub canonicalize_constraint : List ℕ → Analyzed → Result (List ℕ × Analyzed)
  canonicalize_constraint s known = skip_modifiers s >>= λ (kept, left). elim left [
    | none ↦ ok (kept, known)
    | some t ↦
        let (text, after) = canonical_letters t known in
        ok (kept ++ (if ltb 1 (r.constraint_len t) then b'^' ∷ [] else []) ++ text, after)
  ]
