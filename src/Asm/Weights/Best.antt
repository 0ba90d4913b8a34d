-- ===== src/Asm/Weights/Best.antt =====
-- The choice that `ChooseConstraintTuple` of src/Convert.cpp makes among the weights, and the
-- alternative that it cuts out of a string.
use dragonegg.Base.{
  ℕ, zero, suc, ◌+◌, ◌≡◌, ◌⊎◌, refl, sym, subst, ◌∙◌, arith, inl, inr, Bool-cases, List, [], ◌∷◌,
  none, some, ◌==◌, if◌then◌else◌, get_elem?, take,
}
use dragonegg.Base.Int.{ℤ, negsuc, ltb_ℤ, ◌≤ℤ◌, ◌<ℤ◌}
use dragonegg.Base.Results.{ok, unreachable}
use dragonegg.Intervals.Sane.{All}
use dragonegg.Asm.Weights.{
  best_from, commas_to_skip, to_comma, to_comma_text, after_comma, alternative,
}

-- The position of the first of the greatest weights, which exceeds a bound.
abbrev pub FirstGreatest : ℤ → List ℤ → ℕ → Type 0
FirstGreatest bound ws n =
    (w : ℤ) × (get_elem? ws n ≡ some w)
    × (bound <ℤ w)
    × All (λ v. v ≤ℤ w) ws
    × All (λ v. v <ℤ w) (take n ws)

best_from-FirstGreatest :
    (i : ℕ) (greatest : ℤ) (at : ℕ) (ws : List ℤ)
    → ((best_from i greatest at ws ≡ at) × All (λ v. v ≤ℤ greatest) ws)
      ⊎ ((n : ℕ) × (best_from i greatest at ws ≡ i + n) × FirstGreatest greatest ws n)
unfolding best_from
best_from-FirstGreatest i greatest at [] = inl (refl, tt)
best_from-FirstGreatest i greatest at (w ∷ ws) = elim (Bool-cases (ltb_ℤ greatest w)) [
  | inl e ↦ elim (best_from-FirstGreatest (suc i) w i ws) [
    | inl (same, below) ↦
        inr (0, rw e (same ∙ omega arith), (w, refl, ground (arith, e), (omega arith, below), tt))
    | inr (n, same, (v, at_n, more, below, before)) ↦ inr (
      suc n,
      rw e (same ∙ omega arith),
      (v, at_n, ground (arith, e), (omega arith, below), (more, before)),
    )
  ]
  | inr e ↦ elim (best_from-FirstGreatest (suc i) greatest at ws) [
    | inl (same, below) ↦ inl (rw e same, (ground (arith, e), below))
    | inr (n, same, (v, at_n, more, below, before)) ↦ inr (
      suc n,
      rw e (same ∙ omega arith),
      (v, at_n, more, (ground (arith, e), below), (ground (arith, e), before)),
    )
  ]
]

-- The choice is the first of the greatest weights, or the first of all if no weight is above -1, which is
-- that of a tuple that does not match.
pub commas_to_skip-FirstGreatest :
    (ws : List ℤ)
    → ((commas_to_skip ws ≡ 0) × All (λ v. v ≤ℤ negsuc 0) ws)
      ⊎ FirstGreatest (negsuc 0) ws (commas_to_skip ws)
commas_to_skip-FirstGreatest ws = elim (best_from-FirstGreatest 0 (negsuc 0) 0 ws) [
  | inl h ↦ inl h
  | inr (n, same, f) ↦
      let plain : commas_to_skip ws ≡ n = omega arith in
      inr (subst (FirstGreatest (negsuc 0) ws) (sym plain) f)
]

abbrev pub add_to_first : ℕ → List (List ℕ) → List (List ℕ)
add_to_first c [] = []
add_to_first c (p ∷ ps) = if c == b',' then [] ∷ p ∷ ps else (c ∷ p) ∷ ps

-- The alternatives of a string: the texts between its commas.
unfoldable pub pieces : List ℕ → List (List ℕ)
pieces [] = [] ∷ []
pieces (c ∷ s) = add_to_first c (pieces s)

abbrev pub behind_comma : List ℕ → List (List ℕ)
behind_comma [] = []
behind_comma (c ∷ s) = pieces s

pub pieces_split : (s : List ℕ) → pieces s ≡ to_comma_text s ∷ behind_comma (to_comma s)
unfolding pieces to_comma to_comma_text
pieces_split [] = refl
pieces_split (c ∷ s) = ground (arith, pieces_split s)

alternative_behind :
    (k : ℕ)
    → ((u : List ℕ)
        → alternative k u ≡ elim (get_elem? (pieces u) k) [ none ↦ unreachable | some p ↦ ok p ])
    → (t : List ℕ)
    → after_comma (alternative k) t
      ≡ elim (get_elem? (behind_comma t) k) [ none ↦ unreachable | some p ↦ ok p ]
alternative_behind k h [] = refl
alternative_behind k h (c ∷ t) = h t

-- The alternative behind a number of commas is the piece of that number, where there is one.
pub alternative-pieces :
    (k : ℕ) (s : List ℕ)
    → alternative k s ≡ elim (get_elem? (pieces s) k) [ none ↦ unreachable | some p ↦ ok p ]
unfolding alternative
alternative-pieces zero s = ground (arith, pieces_split s)
alternative-pieces (suc k) s =
    rw (pieces_split s) (alternative_behind k (λ u. alternative-pieces k u) (to_comma s))
