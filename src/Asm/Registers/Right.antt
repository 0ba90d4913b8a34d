-- ===== src/Asm/Registers/Right.antt =====
-- What `CanonicalizeConstraint` of src/Convert.cpp remembers of register classes.
use dragonegg.Base.{
  ℕ, ◌≡◌, ◌⊎◌, refl, sym, ap, ◌∙◌, arith, inl, inr, Bool-cases, Option-cases, List, [], ◌∷◌, ◌++◌,
  Option, none, some, ltb, ◌==◌, if◌then◌else◌,
}
use dragonegg.Base.Results.{ok, Result-cases, unreachable}
use dragonegg.Asm.Registers.{
  RegisterRules, Analyzed, only_register, analyze, register_or_letter, class_at, canonical_letter,
  canonical_letters, skip_modifiers, canonicalize_constraint,
}

module _ (r : RegisterRules) where
  -- Every remembered answer is what the scan gives.
  abbrev pub Right : Analyzed → Type 0
  Right known = (c : ℕ) (o : Option ℕ) → known c ≡ some o → o ≡ only_register r c

  -- What the letters become without a memory.
  unfoldable pub expand_letter : ℕ → List ℕ → List ℕ
  expand_letter c s =
      if c == b'g'
      then b'i' ∷ b'm' ∷ b'r' ∷ []
      else if c == b'p'
      then r.address_constraints
      else if class_at r c s == r.no_regs
      then c ∷ []
      else register_or_letter r c (only_register r (class_at r c s))

  unfoldable pub expand_letters : List ℕ → List ℕ
  expand_letters [] = []
  expand_letters (c ∷ s) = expand_letter c s ++ expand_letters s

  analyze-Right :
      (c : ℕ) (known : Analyzed)
      → Right known
      → ((analyze r c known).0 ≡ only_register r c) × Right (analyze r c known).1
  unfolding analyze
  analyze-Right c known w = elim (Option-cases (known c)) [
    | inl e ↦
        rw (e, analyze)
          (
            refl,
            λ d o h. elim (Bool-cases (c == d)) [
              | inl f ↦
                  let same : c ≡ d = ground (arith, f) in
                  let there : some (only_register r c) ≡ some o = ground (arith, f, h) in
                  rw (sym same) (sym cc)
              | inr f ↦ w d o (ground (arith, f, h))
            ],
          )
    | inr (o, e) ↦ rw (e, analyze) (w c o e, w)
  ]

  canonical_letter-Right :
      (c : ℕ) (s : List ℕ) (known : Analyzed)
      → Right known
      → ((canonical_letter r c s known).0 ≡ expand_letter c s)
        × Right (canonical_letter r c s known).1
  unfolding canonical_letter expand_letter
  canonical_letter-Right c s known w = elim (Bool-cases (c == b'g')) [
    | inl e ↦ rw e (refl, w)
    | inr e ↦ elim (Bool-cases (c == b'p')) [
      | inl f ↦ rw (e, f) (refl, w)
      | inr f ↦ elim (Bool-cases (class_at r c s == r.no_regs)) [
        | inl g ↦ rw (e, f, g) (refl, w)
        | inr g ↦
            let (same, after) = analyze-Right (class_at r c s) known w in
            rw (e, f, g) (ap (register_or_letter r c) same, after)
      ]
    ]
  ]

  canonical_letters-Right :
      (s : List ℕ) (known : Analyzed)
      → Right known
      → ((canonical_letters r s known).0 ≡ expand_letters s) × Right (canonical_letters r s known).1
  unfolding canonical_letters expand_letters
  canonical_letters-Right [] known w = (refl, w)
  canonical_letters-Right (c ∷ s) known w =
      let (same, after) = canonical_letter-Right c s known w in
      let (more, last) = canonical_letters-Right s (canonical_letter r c s known).1 after in
      (cc (same, more), last)

  -- What classes are remembered changes no result, and every remembered answer stays right.
  pub canonicalize_constraint-Right :
      (s : List ℕ) (known : Analyzed)
      → Right known
      → (skip_modifiers r s ≡ unreachable)
        ⊎ ((text : List ℕ) × (after fresh : Analyzed) × (canonicalize_constraint r s known
              ≡ ok (text, after))
            × Right after
            × (canonicalize_constraint r s (λ c. none) ≡ ok (text, fresh)))
  unfolding canonicalize_constraint
  canonicalize_constraint-Right s known w = elim (Result-cases (skip_modifiers r s)) [
    | inr e ↦ inl e
    | inl ((kept, none), e) ↦ inr (kept, known, (λ c. none), rw e refl, w, rw e refl)
    | inl ((kept, some t), e) ↦
        let (a, k) = canonical_letters-Right t known w in
        let (b, n) = canonical_letters-Right t (λ c. none) (λ c o h. absurd cc) in
        inr (
          kept
              ++ (if ltb 1 (r.constraint_len t) then b'^' ∷ [] else [])
              ++ (canonical_letters r t known).0,
          (canonical_letters r t known).1,
          (canonical_letters r t (λ c. none)).1,
          rw e refl,
          k,
          rw e (
              ap
                (λ (u : List ℕ). ok (
                  kept ++ (if ltb 1 (r.constraint_len t) then b'^' ∷ [] else []) ++ u,
                  (canonical_letters r t (λ c. none)).1,
                ))
                (b ∙ sym a)),
        )
  ]
