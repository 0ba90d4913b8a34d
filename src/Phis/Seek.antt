-- ===== src/Phis/Seek.antt =====
-- The search for the incoming value of a predecessor in `PopulatePhiNodes` of src/Convert.cpp.
use dragonegg.Base.{
  ℕ, ◌≤◌, ◌≡◌, sym, ap, arith, inl, inr, Bool, true, Bool-cases, List, [], ◌∷◌, ◌==◌,
}
use dragonegg.Intervals.Sane.{All}
use dragonegg.Phis.{PhiContext, Sorted, any_of, seek}

-- A block has a value.
abbrev pub has_block : ℕ → List (ℕ × ℕ) → Bool
has_block b = any_of (λ (x : ℕ × ℕ). x.0 == b)

-- What the search finds: the block's value first, and the values of all later blocks.
pub record Found (b : ℕ) (good : ℕ × ℕ → Type 0) (vs : List (ℕ × ℕ)) (tree : ℕ)
    (rest : List (ℕ × ℕ)) : Type 0 where
  pub is_good : All good ((b, tree) ∷ rest)
  pub is_sorted : Sorted ((b, tree) ∷ rest)
  pub has_later : (k : ℕ) → b ≤ k → has_block k vs ≡ true → has_block k ((b, tree) ∷ rest) ≡ true

has_block-le : (x b : ℕ) (vs : List (ℕ × ℕ)) → All (λ y. x ≤ y.0) vs → has_block b vs ≡ true → x ≤ b
has_block-le x b [] a h = absurd cc
has_block-le x b (v ∷ vs) a h = ground (arith, a, h, has_block-le x b vs a.1)

module _ (c : PhiContext) where
  pub seek-Found :
      (b : ℕ) (good : ℕ × ℕ → Type 0) (vs : List (ℕ × ℕ))
      → Sorted vs
      → All good vs
      → has_block b vs ≡ true
      → (tree : ℕ) × (rest : List (ℕ × ℕ)) × (seek c b vs ≡ (b, tree) ∷ rest)
        × Found b good vs tree rest
  unfolding seek
  seek-Found b good [] s g h = absurd cc
  seek-Found b good ((x, tree) ∷ vs) s g h = elim (Bool-cases (x == b)) [
    | inl e ↦
        let same : x ≡ b = ground (arith, e) in
        (
          tree,
          vs,
          rw e (ap (λ (y : ℕ). (y, tree) ∷ vs) same),
          record {
            is_good = rw (sym same) g;
            is_sorted = rw (sym same) s;
            has_later = λ k l m. rw (sym same) m;
          },
        )
    | inr e ↦
        let (t, rest, f, found) = seek-Found b good vs s.1 g.1 (ground (arith, h, e)) in
        (
          t,
          rest,
          rw e f,
          record {
            is_good = found.is_good;
            is_sorted = found.is_sorted;
            has_later = λ k l m. found.has_later k l (
                let before : x ≤ b = has_block-le x b vs s.0 (ground (arith, h, e)) in
                ground (arith, m, l, e, before));
          },
        )
  ]
