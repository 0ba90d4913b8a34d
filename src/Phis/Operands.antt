-- ===== src/Phis/Operands.antt =====
-- The operands that `PopulatePhiNodes` of src/Convert.cpp gives to a phi node.
use dragonegg.Base.{
  ℕ, zero, suc, ◌+◌, ◌≡◌, refl, ap, subst, ◌∙◌, arith, inl, Bool, true, List, [], ◌∷◌, map, none,
  some, ◌==◌, length, get_elem?,
}
use dragonegg.Base.Results.{ok}
use dragonegg.Intervals.Sane.{All, All-map}
use dragonegg.Phis.{
  PhiContext, operands, Sorted, any_of, number, unset, incoming_values, populate_phi,
}
use dragonegg.Phis.Seek.{has_block}
use dragonegg.Phis.Fill.{operand, fill-Complete}

-- What the standard library says of `std::sort`: the result is in order and has the same elements.
pub record SortRules (c : PhiContext) : Type 1 where
  pub in_order : (xs : List (ℕ × ℕ)) → Sorted (c.sort xs)
  pub all_of : (P : ℕ × ℕ → Type 0) (xs : List (ℕ × ℕ)) → All P xs → All P (c.sort xs)
  pub same_any : (p : ℕ × ℕ → Bool) (xs : List (ℕ × ℕ)) → any_of p (c.sort xs) ≡ any_of p xs

module _ (c : PhiContext) where
  get_elem?-number :
      (i : ℕ) (preds bs : List ℕ)
      → ((n b : ℕ) → get_elem? bs n ≡ some b → get_elem? preds (i + n) ≡ some b)
      → All (λ p. get_elem? preds p.1 ≡ some p.0) (number c i bs)
  unfolding number
  get_elem?-number i preds [] h = tt
  get_elem?-number i preds (b ∷ bs) h = (
    subst (λ n. get_elem? preds n ≡ some b) (omega arith) (h 0 b refl),
    get_elem?-number (suc i) preds bs
        (λ n x e. subst (λ m. get_elem? preds m ≡ some x) (omega arith) (h (suc n) x e)),
  )

  any_of-number :
      (i n : ℕ) (bs : List ℕ) (b : ℕ)
      → get_elem? bs n ≡ some b
      → any_of (λ p. p.1 == (i + n)) (number c i bs) ≡ true
  unfolding number
  any_of-number i n [] b e = absurd cc
  any_of-number i zero (x ∷ bs) b e = ground arith
  any_of-number i (suc n) (x ∷ bs) b e = ground (arith, any_of-number (suc i) n bs b e)

  All-number : (P : ℕ → Type 0) (i : ℕ) (bs : List ℕ) → All P bs → All (λ p. P p.0) (number c i bs)
  unfolding number
  All-number P i [] h = tt
  All-number P i (b ∷ bs) h = (h.0, All-number P (suc i) bs h.1)

  length-unset : (bs : List ℕ) → length (unset c bs) ≡ length bs
  length-unset [] = refl
  length-unset (b ∷ bs) = ap suc (length-unset bs)

eq_map_of_get_elem? :
    {A B : Type 0} (f : A → B) (xs : List A) (ys : List B)
    → length ys ≡ length xs
    → ((i : ℕ) (x : A) → get_elem? xs i ≡ some x → get_elem? ys i ≡ some (f x))
    → ys ≡ map f xs
eq_map_of_get_elem? f [] [] h e = refl
eq_map_of_get_elem? f [] (y ∷ ys) h e = absurd (omega arith)
eq_map_of_get_elem? f (x ∷ xs) [] h e = absurd (omega arith)
eq_map_of_get_elem? f (x ∷ xs) (y ∷ ys) h e =
    let first : some y ≡ some (f x) = e 0 x refl in
    let same : y ≡ f x = cc in
    let rest = eq_map_of_get_elem? f xs ys (omega arith) (λ i z k. e (suc i) z k) in cc (same, rest)

-- If the values that come in agree on a tree for each block and there is one for every predecessor, then
-- the phi node's operands are, in the order of the predecessors and for each of their occurrences, the
-- predecessor with the value of its tree.
pub populate_phi-operand :
    (c : PhiContext) (rules : SortRules c) (ty b : ℕ) (bs : List ℕ)
    (gcc_args incoming : List (ℕ × ℕ)) (tree_for : ℕ → ℕ)
    → incoming_values c gcc_args ≡ ok incoming
    → All (λ v. v.1 ≡ tree_for v.0) incoming
    → All (λ p. has_block p incoming ≡ true) (b ∷ bs)
    → populate_phi c ty (b ∷ bs) gcc_args
      ≡ ok (operands (map (λ p. some (operand c ty tree_for (b ∷ bs) p)) (b ∷ bs)))
unfolding populate_phi
populate_phi-operand c rules ty b bs gcc_args incoming tree_for e good has =
    let preds = b ∷ bs in
    let numbered = number c 0 preds in
    let (out, f, l, k) =
      fill-Complete c ty tree_for preds (c.sort numbered) (c.sort incoming) none (unset c preds)
        (rules.all_of _ numbered (
          get_elem?-number c 0 preds preds
            (λ n x h. subst (λ m. get_elem? preds m ≡ some x) (omega arith) h)))
        (rules.in_order numbered) (rules.in_order incoming) (rules.all_of _ incoming good)
        (rules.all_of (λ p. has_block p.0 (c.sort incoming) ≡ true) numbered
          (All-number c (λ p. has_block p (c.sort incoming) ≡ true) 0 preds
            (All-map (λ p. has_block p incoming ≡ true) (λ p. has_block p (c.sort incoming) ≡ true)
              (λ p h. rules.same_any _ incoming ∙ h) preds has)))
        (λ x val h. absurd cc) (length-unset c preds) in
    let any_of-zero : (i x : ℕ)
        → get_elem? preds i ≡ some x
        → any_of (λ p. p.1 == i) numbered ≡ true =
      λ i x h.
        subst (λ m. any_of (λ p. p.1 == m) numbered ≡ true) (omega arith)
          (any_of-number c 0 i preds x h) in
    let complete : out ≡ map (λ p. some (operand c ty tree_for preds p)) preds =
      eq_map_of_get_elem? (λ p. some (operand c ty tree_for preds p)) preds out l
        (λ i x h. k i x h (inl (rules.same_any _ numbered ∙ (any_of-zero i x h)))) in
    rw e (rw (f, complete) refl)
