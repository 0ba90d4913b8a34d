-- ===== src/Phis/Fill.antt =====
-- The loop over the predecessors in `PopulatePhiNodes` of src/Convert.cpp: it sets every operand.
use dragonegg.Base.{
  ℕ, zero, suc, ◌≤◌, ◌<◌, ◌≡◌, ◌⊎◌, refl, sym, ap, subst, ◌∙◌, arith, inl, inr, true, Bool-cases,
  ◌≢◌, List, [], ◌∷◌, Option, none, some, ◌==◌, set, length, get_elem?, length-set,
  get_elem?-set_self, get_elem?-set_ne,
}
use dragonegg.Base.Results.{ok}
use dragonegg.Intervals.Sane.{All}
use dragonegg.Phis.{PhiContext, Sorted, any_of, value_at, is_current, current_value, fill}
use dragonegg.Phis.Seek.{has_block, seek-Found}

lt_of_get_elem? :
    {A : Type 0} (xs : List A) (i : ℕ) (x : A) → get_elem? xs i ≡ some x → i < length xs
lt_of_get_elem? [] i x h = absurd cc
lt_of_get_elem? (y ∷ xs) zero x h = omega arith
lt_of_get_elem? (y ∷ xs) (suc i) x h = omega (arith, lt_of_get_elem? xs i x h)

All-both :
    {A : Type 0} (P Q R : A → Type 0)
    → ((x : A) → P x → Q x → R x)
    → (xs : List A) → All P xs
    → All Q xs
    → All R xs
All-both P Q R f [] p q = tt
All-both P Q R f (x ∷ xs) p q = (f x p.0 q.0, All-both P Q R f xs p.1 q.1)

module _ (c : PhiContext) (ty : ℕ) (tree_for : ℕ → ℕ) (preds : List ℕ) where
  -- The operand for a predecessor, by the tree that comes in from it.
  abbrev pub operand : ℕ → ℕ × ℕ
  operand b = (b, value_at c ty b (tree_for b))

  -- Every position is set that was set before or that is still to come.
  abbrev pub Complete : List (ℕ × ℕ) → List (Option (ℕ × ℕ)) → List (Option (ℕ × ℕ)) → Type 0
  Complete ps args out =
      (i b : ℕ)
      → get_elem? preds i ≡ some b
      → (any_of (λ p. p.1 == i) ps ≡ true) ⊎ (get_elem? args i ≡ some (some (operand b)))
      → get_elem? out i ≡ some (some (operand b))

  Complete-set :
      (b at : ℕ) (ps : List (ℕ × ℕ)) (args out : List (Option (ℕ × ℕ)))
      → get_elem? preds at ≡ some b
      → length args ≡ length preds
      → Complete ps (set args at (some (operand b))) out
      → Complete ((b, at) ∷ ps) args out
  Complete-set b at ps args out e size h i x f k = elim (Bool-cases (at == i)) [
    | inl g ↦
        let same : at ≡ i = ground (arith, g) in
        let agree : b ≡ x = ground (arith, e, f, same) in
        let bound : at < length args = omega (arith, lt_of_get_elem? preds at b e) in
        h i x f
          (inr (rw (sym same, sym agree) (get_elem?-set_self args at (some (operand b)) bound)))
    | inr g ↦
        let differ : at ≢ i = ground (arith, g) in
        h i x f (elim k [
          | inl m ↦ inl (ground (arith, m, g))
          | inr m ↦ inr (get_elem?-set_ne args (some (operand b)) differ ∙ m)
        ])
  ]

  current_operand :
      (b : ℕ) (current : Option (ℕ × ℕ))
      → is_current c b current ≡ true
      → ((x val : ℕ) → current ≡ some (x, val) → val ≡ value_at c ty x (tree_for x))
      → current_value c current ≡ value_at c ty b (tree_for b)
  current_operand b none h cur = absurd cc
  current_operand b (some (x, val)) h cur =
      let same : x ≡ b = ground (arith, h) in
      cur x val refl ∙ ap (λ y. value_at c ty y (tree_for y)) same

  found_operand :
      (b tree x val : ℕ)
      → tree ≡ tree_for b
      → ◌≡◌ {A = Option (ℕ × ℕ)} (some (b, value_at c ty b tree)) (some (x, val))
      → val ≡ value_at c ty x (tree_for x)
  found_operand b tree x val good h =
      let both : ◌≡◌ {A = ℕ × ℕ} (b, value_at c ty b tree) (x, val) = cc in
      sym (ap (λ p. p.1) both)
      ∙ ap (value_at c ty b) good
      ∙ ap (λ y. value_at c ty y (tree_for y)) (ap (λ p. p.0) both)

  -- The loop finds a value for every predecessor that has one.
  pub fill-Complete :
      (ps vs : List (ℕ × ℕ)) (current : Option (ℕ × ℕ)) (args : List (Option (ℕ × ℕ)))
      → All (λ p. get_elem? preds p.1 ≡ some p.0) ps
      → Sorted ps
      → Sorted vs
      → All (λ v. v.1 ≡ tree_for v.0) vs
      → All (λ p. has_block p.0 vs ≡ true) ps
      → ((x val : ℕ) → current ≡ some (x, val) → val ≡ value_at c ty x (tree_for x))
      → length args ≡ length preds
      → (out : List (Option (ℕ × ℕ))) × (fill c ty current ps vs args ≡ ok out)
        × (length out ≡ length preds)
        × Complete ps args out
  unfolding fill
  fill-Complete [] vs current args at sp sv gv has cur size =
      (args, refl, size, λ i b e k. elim k [ inl m ↦ absurd cc | inr m ↦ m ])
  fill-Complete ((b, i) ∷ ps) vs current args at sp sv gv has cur size =
      elim (Bool-cases (is_current c b current)) [
        | inl e ↦
            let same = current_operand b current e cur in
            let (out, f, l, k) =
              fill-Complete ps vs current (set args i (some (operand b))) at.1 sp.1 sv gv has.1 cur
                (length-set args i (some (operand b)) ∙ size) in
            (out, rw (e, same) f, l, Complete-set b i ps args out at.0 size k)
        | inr e ↦
            let (tree, rest, f, found) = seek-Found c b (λ v. v.1 ≡ tree_for v.0) vs sv gv has.0 in
            let good : tree ≡ tree_for b = found.is_good.0 in
            let value = value_at c ty b tree in
            let (out, g, l, k) =
              fill-Complete ps ((b, tree) ∷ rest) (some (b, value)) (set args i (some (b, value)))
                at.1 sp.1 found.is_sorted found.is_good
                (All-both (λ p. has_block p.0 vs ≡ true) (λ p. b ≤ p.0)
                  (λ p. has_block p.0 ((b, tree) ∷ rest) ≡ true) (λ p m n. found.has_later p.0 n m)
                  ps has.1 sp.0)
                (λ x val h. found_operand b tree x val good h)
                (length-set args i (some (b, value)) ∙ size) in
            (
              out,
              rw (e, f) g,
              l,
              Complete-set b i ps args out at.0 size
                  (subst (λ t. Complete ps (set args i (some (b, value_at c ty b t))) out) good k),
            )
      ]
