-- ===== src/Asm/Weights/Left.antt =====
-- The pointers of `ChooseConstraintTuple` in src/Convert.cpp: what stands behind them choice by choice,
-- and that `MatchWeight` stays in an alternative that is not empty.
use dragonegg.Base.{
  ℕ, zero, suc, ◌≡◌, refl, subst, arith, inl, inr, false, ◌||◌, Bool-cases, List, [], ◌∷◌, ◌==◌,
  if◌then◌else◌, length,
}
use dragonegg.Base.Int.{ℤ, pos, negsuc, ltb_ℤ, eqb_ℤ, ◌+ℤ◌}
use dragonegg.Base.Results.{ok}
use dragonegg.Intervals.Sane.{All}
use dragonegg.Asm.Registers.{RegisterRules}
use dragonegg.Asm.Weights.{
  holds, Operand, hard_register, bad_register, integer_constant, other_operand, at_end,
  integer_weight, register_weight, match_weight, add_weight, past_modifiers, to_comma,
  to_comma_text, past_one, next_output, next_input,
}
use dragonegg.Asm.Weights.Best.{pieces, behind_comma, pieces_split}

-- An integer constant matches an alternative that is not empty, freely if it has an `i` or an `n`, and
-- otherwise as its last letter says.
integer_weight-ok : (p : List ℕ) → at_end p ≡ false → (w : ℤ) × (integer_weight p ≡ ok w)
unfolding integer_weight
integer_weight-ok [] h = absurd cc
integer_weight-ok (c ∷ s) h = elim (Bool-cases (c == b'i' || c == b'n')) [
  | inl e ↦ (pos 1, rw e refl)
  | inr e ↦ elim (Bool-cases (at_end s)) [
    | inl f ↦ ((if c == b'm' || c == b'o' || c == b'V' then negsuc 0 else pos 0), rw (e, f) refl)
    | inr f ↦ let (w, g) = integer_weight-ok s f in (w, rw (e, f) g)
  ]
]

module _ (r : RegisterRules) where
  register_weight-ok :
      (n : ℕ) (p : List ℕ) → at_end p ≡ false → (w : ℤ) × (register_weight r n p ≡ ok w)
  unfolding register_weight
  register_weight-ok n [] h = absurd cc
  register_weight-ok n (c ∷ s) h = elim (Bool-cases (holds r (c ∷ s) n)) [
    | inl e ↦ (pos 1, rw e refl)
    | inr e ↦ elim (Bool-cases (at_end s)) [
      | inl f ↦ (negsuc 0, rw (e, f) refl)
      | inr f ↦ let (w, g) = register_weight-ok n s f in (w, rw (e, f) g)
    ]
  ]

  pub add_weight-ok :
      (o : Operand) (p : List ℕ) (weight : ℤ)
      → at_end p ≡ false
      → (w : ℤ) × (add_weight r o p weight ≡ ok w)
  unfolding add_weight match_weight
  add_weight-ok o p weight h = elim (Bool-cases (eqb_ℤ weight (negsuc 0))) [
    | inl e ↦ (weight, rw e refl)
    | inr e ↦
        let (w, f) = matched o in
        ((if ltb_ℤ w (pos 0) then negsuc 0 else weight +ℤ w), rw e (rw f refl))
  ]
    where
      matched : (o : Operand) → (w : ℤ) × (match_weight r o p ≡ ok w)
      matched (hard_register n) = register_weight-ok n p h
      matched bad_register = (negsuc 0, refl)
      matched integer_constant = integer_weight-ok p h
      matched other_operand = (pos 0, refl)

-- What is left of a string before some choices: a piece for each, in which more than modifiers stands;
-- after the last choice, nothing.
abbrev pub LeftOutput : ℕ → Operand × List ℕ → Type 0
LeftOutput zero (o, p) = p ≡ []
LeftOutput (suc n) (o, p) =
    (length (pieces p) ≡ suc n) × All (λ q. at_end (past_modifiers q) ≡ false) (pieces p)

abbrev pub LeftInput : ℕ → Operand × List ℕ → Type 0
LeftInput zero (o, p) = p ≡ []
LeftInput (suc n) (o, p) = (length (pieces p) ≡ suc n) × All (λ q. at_end q ≡ false) (pieces p)

at_end-to_comma_text : (p : List ℕ) → at_end (to_comma_text p) ≡ false → at_end p ≡ false
unfolding to_comma_text
at_end-to_comma_text [] h = h
at_end-to_comma_text (c ∷ s) h = ground (arith, h)

at_end-past_modifiers :
    (p : List ℕ)
    → at_end (past_modifiers (to_comma_text p)) ≡ false
    → at_end (past_modifiers p) ≡ false
unfolding to_comma_text past_modifiers
at_end-past_modifiers [] h = h
at_end-past_modifiers (c ∷ s) h = ground (arith, h, at_end-past_modifiers s)

length-pieces : (s : List ℕ) → length (pieces s) ≡ 0 → ⊥
length-pieces s h = absurd (ground (arith, h, pieces_split s))

LeftInput-behind :
    (n : ℕ) (o : Operand) (t : List ℕ)
    → length (behind_comma t) ≡ n
    → All (λ q. at_end q ≡ false) (behind_comma t)
    → LeftInput n (o, past_one t)
LeftInput-behind zero o [] h a = refl
LeftInput-behind zero o (c ∷ t) h a = absurd (length-pieces t h)
LeftInput-behind (suc n) o [] h a = absurd (omega arith)
LeftInput-behind (suc n) o (c ∷ t) h a = (h, a)

pub LeftInput-next :
    (n : ℕ) (o : Operand) (p : List ℕ)
    → LeftInput (suc n) (o, p)
    → (at_end p ≡ false) × LeftInput n (o, next_input p)
unfolding next_input
LeftInput-next n o p h =
    let (size, good) =
      subst (λ (ps : List (List ℕ)). (length ps ≡ suc n) × All (λ q. at_end q ≡ false) ps)
        (pieces_split p) h in
    (at_end-to_comma_text p good.0, LeftInput-behind n o (to_comma p) (omega arith) good.1)

abbrev on_first : List (List ℕ) → List (List ℕ)
on_first [] = []
on_first (p ∷ ps) = past_modifiers p ∷ ps

pieces-past_modifiers : (p : List ℕ) → pieces (past_modifiers p) ≡ on_first (pieces p)
unfolding pieces past_modifiers
pieces-past_modifiers [] = refl
pieces-past_modifiers (c ∷ s) = ground (arith, pieces-past_modifiers s, pieces_split s)

past_modifiers_idem : (p : List ℕ) → past_modifiers (past_modifiers p) ≡ past_modifiers p
unfolding past_modifiers
past_modifiers_idem [] = refl
past_modifiers_idem (c ∷ s) = ground (arith, past_modifiers_idem s)

-- Modifiers before a piece do not matter.
LeftOutput-past_modifiers :
    (n : ℕ) (o : Operand) (p : List ℕ) → LeftOutput n (o, p) → LeftOutput n (o, past_modifiers p)
unfolding past_modifiers
LeftOutput-past_modifiers zero o p h = rw h refl
LeftOutput-past_modifiers (suc n) o p h =
    let (size, good) =
      subst
        (λ (ps : List (List ℕ)).
          (length ps ≡ suc n) × All (λ q. at_end (past_modifiers q) ≡ false) ps)
        (pieces_split p) h in
    rw (pieces-past_modifiers p)
      (rw (pieces_split p) (size, (rw (past_modifiers_idem (to_comma_text p)) good.0, good.1)))

LeftOutput-behind :
    (n : ℕ) (o : Operand) (t : List ℕ)
    → length (behind_comma t) ≡ n
    → All (λ q. at_end (past_modifiers q) ≡ false) (behind_comma t)
    → LeftOutput n (o, past_one t)
LeftOutput-behind zero o [] h a = refl
LeftOutput-behind zero o (c ∷ t) h a = absurd (length-pieces t h)
LeftOutput-behind (suc n) o [] h a = absurd (omega arith)
LeftOutput-behind (suc n) o (c ∷ t) h a = (h, a)

pub LeftOutput-next :
    (n : ℕ) (o : Operand) (p : List ℕ)
    → LeftOutput (suc n) (o, p)
    → (at_end (past_modifiers p) ≡ false) × LeftOutput n (o, next_output p)
unfolding next_output
LeftOutput-next n o p h =
    let q = past_modifiers p in
    let (size, good) =
      subst
        (λ (ps : List (List ℕ)).
          (length ps ≡ suc n) × All (λ t. at_end (past_modifiers t) ≡ false) ps)
        (pieces_split q) (LeftOutput-past_modifiers (suc n) o p h) in
    (
      at_end-past_modifiers p
          (subst (λ (ps : List (List ℕ)). All (λ t. at_end (past_modifiers t) ≡ false) ps)
            (pieces_split p) h.1).0,
      LeftOutput-past_modifiers n o (past_one (to_comma q))
          (LeftOutput-behind n o (to_comma q) (omega arith) good.1),
    )
