-- ===== src/Asm/Weights/Tuple.antt =====
-- That `ChooseConstraintTuple` of src/Convert.cpp comes to a choice, and to the alternatives of it.
use dragonegg.Base.{
  ℕ, zero, suc, ◌<◌, ◌≡◌, refl, arith, inl, inr, true, false, List, [], ◌∷◌, map, none, some, ◌==◌,
  get_elem?, length,
}
use dragonegg.Base.Int.{ℤ, pos}
use dragonegg.Base.Results.{ok}
use dragonegg.Intervals.Sane.{All}
use dragonegg.Asm.Registers.{RegisterRules}
use dragonegg.Asm.Weights.{
  Operand, past_modifiers, next_output, next_input, visit_outputs, visit_inputs, weigh,
  commas_to_skip, alternative, shorten_outputs, shorten_inputs, past_leading, all_at_end,
  choose_constraint_tuple,
}
use dragonegg.Asm.Weights.Best.{commas_to_skip-FirstGreatest, pieces, alternative-pieces}
use dragonegg.Asm.Weights.Left.{
  add_weight-ok, LeftOutput, LeftInput, LeftOutput-next, LeftInput-next,
}

module _ (r : RegisterRules) where
  visit_outputs-LeftOutput :
      (n : ℕ) (os : List (Operand × List ℕ)) (weight : ℤ)
      → All (LeftOutput (suc n)) os
      → (w : ℤ) × (moved : List (Operand × List ℕ)) × (visit_outputs r os weight ≡ ok (w, moved))
        × All (LeftOutput n) moved
  unfolding visit_outputs
  visit_outputs-LeftOutput n [] weight h = (weight, [], refl, tt)
  visit_outputs-LeftOutput n ((o, p) ∷ os) weight h =
      let (start, next) = LeftOutput-next n o p h.0 in
      let (w, e) = add_weight-ok r o (past_modifiers p) weight start in
      let (total, moved, f, l) = visit_outputs-LeftOutput n os w h.1 in
      (total, (o, next_output p) ∷ moved, rw e (rw f refl), (next, l))

  visit_inputs-LeftInput :
      (n : ℕ) (os : List (Operand × List ℕ)) (weight : ℤ)
      → All (LeftInput (suc n)) os
      → (w : ℤ) × (moved : List (Operand × List ℕ)) × (visit_inputs r os weight ≡ ok (w, moved))
        × All (LeftInput n) moved
  unfolding visit_inputs
  visit_inputs-LeftInput n [] weight h = (weight, [], refl, tt)
  visit_inputs-LeftInput n ((o, p) ∷ os) weight h =
      let (start, next) = LeftInput-next n o p h.0 in
      let (w, e) = add_weight-ok r o p weight start in
      let (total, moved, f, l) = visit_inputs-LeftInput n os w h.1 in
      (total, (o, next_input p) ∷ moved, rw e (rw f refl), (next, l))

  all_at_end-zero : (os : List (Operand × List ℕ)) → All (λ x. x.1 ≡ []) os → all_at_end os ≡ true
  unfolding all_at_end
  all_at_end-zero [] h = refl
  all_at_end-zero ((o, []) ∷ os) h = all_at_end-zero os h.1
  all_at_end-zero ((o, c ∷ p) ∷ os) h = absurd cc

  weigh-length :
      (n : ℕ) (outs ins : List (Operand × List ℕ))
      → All (LeftOutput n) outs
      → All (LeftInput n) ins
      → (ws : List ℤ) × (o i : List (Operand × List ℕ)) × (weigh r n outs ins ≡ ok (ws, o, i))
        × (length ws ≡ n)
        × (all_at_end o ≡ true)
        × (all_at_end i ≡ true)
  unfolding weigh
  weigh-length zero outs ins h k =
      ([], outs, ins, refl, refl, all_at_end-zero outs h, all_at_end-zero ins k)
  weigh-length (suc n) outs ins h k =
      let (w, outs', e, h') = visit_outputs-LeftOutput n outs (pos 0) h in
      let (v, ins', f, k') = visit_inputs-LeftInput n ins w k in
      let (ws, o, i, g, size, a, b) = weigh-length n outs' ins' h' k' in
      (v ∷ ws, o, i, rw e (rw f (rw g refl)), omega arith, a, b)

-- An output's string: a character such as `=`, and a piece for each choice.
abbrev pub OutputConstraint : ℕ → Operand × List ℕ → Type 0
OutputConstraint n (o, []) = ⊥
OutputConstraint n (o, c ∷ s) = LeftOutput n (o, s)

-- The piece of a number, or nothing.
abbrev pub piece : ℕ → List ℕ → List ℕ
piece k s = elim (get_elem? (pieces s) k) [ none ↦ [] | some p ↦ p ]

-- The first character and a piece of the rest.
abbrev pub output_piece : ℕ → Operand × List ℕ → List ℕ
output_piece k (o, []) = []
output_piece k (o, c ∷ s) = c ∷ piece k s

get_elem?-lt {ℓ} :
    {A : Type ℓ} (k : ℕ) (xs : List A) → k < length xs → (x : A) × (get_elem? xs k ≡ some x)
get_elem?-lt k [] h = absurd (omega arith)
get_elem?-lt zero (x ∷ xs) h = (x, refl)
get_elem?-lt (suc k) (x ∷ xs) h = get_elem?-lt k xs (omega arith)

lt_of_get_elem? {ℓ} :
    {A : Type ℓ} (k : ℕ) (xs : List A) (x : A) → get_elem? xs k ≡ some x → k < length xs
lt_of_get_elem? k [] x h = absurd cc
lt_of_get_elem? zero (y ∷ xs) x h = omega arith
lt_of_get_elem? (suc k) (y ∷ xs) x h = omega (arith, lt_of_get_elem? k xs x h)

alternative-piece : (k : ℕ) (s : List ℕ) → k < length (pieces s) → alternative k s ≡ ok (piece k s)
alternative-piece k s h =
    let (p, e) = get_elem?-lt k (pieces s) h in ground (arith, alternative-pieces k s, e)

shorten_outputs-piece :
    (m k : ℕ) (os : List (Operand × List ℕ))
    → k < suc m
    → All (OutputConstraint (suc m)) os
    → shorten_outputs k os ≡ ok (map (output_piece k) os)
unfolding shorten_outputs
shorten_outputs-piece m k [] h a = refl
shorten_outputs-piece m k ((o, []) ∷ os) h a = absurd a.0
shorten_outputs-piece m k ((o, c ∷ s) ∷ os) h a =
    rw (alternative-piece k s (omega (arith, a.0.0))) (rw (shorten_outputs-piece m k os h a.1) refl)

shorten_inputs-piece :
    (m k : ℕ) (os : List (Operand × List ℕ))
    → k < suc m
    → All (LeftInput (suc m)) os
    → shorten_inputs k os ≡ ok (map (λ (x : Operand × List ℕ). piece k x.1) os)
unfolding shorten_inputs
shorten_inputs-piece m k [] h a = refl
shorten_inputs-piece m k ((o, s) ∷ os) h a =
    rw (alternative-piece k s (omega (arith, a.0.0))) (rw (shorten_inputs-piece m k os h a.1) refl)

past_leading-LeftOutput :
    (n : ℕ) (os : List (Operand × List ℕ))
    → All (OutputConstraint n) os
    → (running : List (Operand × List ℕ)) × (past_leading os ≡ ok running)
      × All (LeftOutput n) running
unfolding past_leading
past_leading-LeftOutput n [] a = ([], refl, tt)
past_leading-LeftOutput n ((o, []) ∷ os) a = absurd a.0
past_leading-LeftOutput n ((o, c ∷ s) ∷ os) a =
    let (running, e, l) = past_leading-LeftOutput n os a.1 in
    ((o, s) ∷ running, rw e refl, (a.0, l))

commas_to_skip-lt : (m : ℕ) (ws : List ℤ) → length ws ≡ suc m → commas_to_skip ws < suc m
commas_to_skip-lt m ws h = elim (commas_to_skip-FirstGreatest ws) [
  | inl (e, a) ↦ omega (arith, e)
  | inr (w, e, b, c, d) ↦ omega (arith, lt_of_get_elem? (commas_to_skip ws) ws w e)
]

-- If every string has a piece for each of the choices, with more than modifiers in it, then a weight is
-- found for each choice without reading past a string, the sanity check r, and every string becomes
-- its piece for the choice that the weights give, behind its first character for an output.
pub choose_constraint_tuple-piece :
    (r : RegisterRules) (m : ℕ) (outs ins : List (Operand × List ℕ))
    → All (OutputConstraint (suc m)) outs
    → All (LeftInput (suc m)) ins
    → (ws : List ℤ) × (running o i : List (Operand × List ℕ)) × (past_leading outs ≡ ok running)
      × (weigh r (suc m) running ins ≡ ok (ws, o, i))
      × (commas_to_skip ws < suc m)
      × (choose_constraint_tuple r (suc m) outs ins
          ≡ ok (
            map (output_piece (commas_to_skip ws)) outs,
            map (λ (x : Operand × List ℕ). piece (commas_to_skip ws) x.1) ins,
          ))
unfolding choose_constraint_tuple
choose_constraint_tuple-piece r m outs ins a b =
    let (running, e, l) = past_leading-LeftOutput (suc m) outs a in
    let (ws, o, i, f, size, x, y) = weigh-length r (suc m) running ins l b in
    let k = commas_to_skip-lt m ws size in
    let nonzero : (suc m == 0) ≡ false = ground arith in
    (
      ws,
      running,
      o,
      i,
      e,
      f,
      k,
      rw (nonzero, e)
          (rw f (
            rw (x, y)
              (rw (shorten_outputs-piece m (commas_to_skip ws) outs k a)
                (rw (shorten_inputs-piece m (commas_to_skip ws) ins k b) refl)))),
    )
