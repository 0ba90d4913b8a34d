-- ===== src/Examples/Phis.antt =====
-- `PopulatePhiNodes` of src/Convert.cpp on a small function, with an insertion sort.
use dragonegg.Base.{
  ℕ, ◌+◌, ◌≤◌, ◌≡◌, refl, arith, inl, inr, Bool, true, false, Bool-cases, List, [], ◌∷◌, none, some,
  leb, ◌==◌, if◌then◌else◌,
}
use dragonegg.Base.Results.{ok}
use dragonegg.Intervals.Sane.{All, All-map}
use dragonegg.Phis.{
  PhiContext, operands, Sorted, any_of, after_block, add_anonymous, incoming_values, populate_phi,
}
use dragonegg.Phis.Operands.{SortRules, populate_phi-operand}

abbrev insert : ℕ × ℕ → List (ℕ × ℕ) → List (ℕ × ℕ)
insert x [] = x ∷ []
insert x (y ∷ ys) = if leb x.0 y.0 then x ∷ y ∷ ys else y ∷ insert x ys

abbrev insertion_sort : List (ℕ × ℕ) → List (ℕ × ℕ)
insertion_sort [] = []
insertion_sort (x ∷ xs) = insert x (insertion_sort xs)

insert-All :
    (P : ℕ × ℕ → Type 0) (x : ℕ × ℕ) (xs : List (ℕ × ℕ)) → P x → All P xs → All P (insert x xs)
insert-All P x [] p a = (p, tt)
insert-All P x (y ∷ ys) p a = elim (Bool-cases (leb x.0 y.0)) [
  | inl e ↦ rw e (p, a)
  | inr e ↦ rw e (a.0, insert-All P x ys p a.1)
]

insertion_sort-All : (P : ℕ × ℕ → Type 0) (xs : List (ℕ × ℕ)) → All P xs → All P (insertion_sort xs)
insertion_sort-All P [] a = tt
insertion_sort-All P (x ∷ xs) a =
    insert-All P x (insertion_sort xs) a.0 (insertion_sort-All P xs a.1)

insert-Sorted : (x : ℕ × ℕ) (xs : List (ℕ × ℕ)) → Sorted xs → Sorted (insert x xs)
insert-Sorted x [] s = (tt, tt)
insert-Sorted x (y ∷ ys) s = elim (Bool-cases (leb x.0 y.0)) [
  | inl e ↦
      let below : x.0 ≤ y.0 = ground (arith, e) in
      rw e ((below, All-map (λ z. y.0 ≤ z.0) (λ z. x.0 ≤ z.0) (λ z h. omega arith) ys s.0), s)
  | inr e ↦
      let above : y.0 ≤ x.0 = ground (arith, e) in
      rw e (insert-All (λ z. y.0 ≤ z.0) x ys above s.0, insert-Sorted x ys s.1)
]

insertion_sort-Sorted : (xs : List (ℕ × ℕ)) → Sorted (insertion_sort xs)
insertion_sort-Sorted [] = tt
insertion_sort-Sorted (x ∷ xs) = insert-Sorted x (insertion_sort xs) (insertion_sort-Sorted xs)

insert-any_of :
    (p : ℕ × ℕ → Bool) (x : ℕ × ℕ) (xs : List (ℕ × ℕ)) → any_of p (insert x xs) ≡ any_of p (x ∷ xs)
insert-any_of p x [] = refl
insert-any_of p x (y ∷ ys) = ground (arith, insert-any_of p x ys)

insertion_sort-any_of :
    (p : ℕ × ℕ → Bool) (xs : List (ℕ × ℕ)) → any_of p (insertion_sort xs) ≡ any_of p xs
insertion_sort-any_of p [] = refl
insertion_sort-any_of p (x ∷ xs) =
    ground (arith, insert-any_of p x (insertion_sort xs), insertion_sort-any_of p xs)

-- Blocks 1, 2 and 3, of which 3 has no name and continues 2; they stand for the blocks 10 and 20 of GCC.
abbrev small_function : PhiContext
small_function = record {
  basic_blocks = λ (bb : ℕ). if bb == 10 then some 1 else if bb == 20 then some 2 else none;
  block_order = (1, true) ∷ (2, true) ∷ (3, false) ∷ [];
  single_predecessor = λ (b : ℕ). if b == 3 then some 2 else none;
  emit_register = λ (t : ℕ). t + 100;
  type_of = λ (v : ℕ). if v == 104 then 0 else 1;
  bit_cast = λ (b : ℕ) (v : ℕ) (ty : ℕ). b + 1000;
  sort = insertion_sort;
}

small_function-SortRules : SortRules small_function
small_function-SortRules = record {
  in_order = insertion_sort-Sorted;
  all_of = insertion_sort-All;
  same_any = insertion_sort-any_of;
}

-- Tree 4 comes in from block 10, and tree 5, of another type, from block 20.
abbrev tree_from : ℕ → ℕ
tree_from b = if b == 1 then 4 else 5

small_incoming :
    incoming_values small_function ((20, 5) ∷ (10, 4) ∷ []) ≡ ok ((2, 5) ∷ (3, 5) ∷ (1, 4) ∷ [])
unfolding incoming_values add_anonymous after_block
small_incoming = refl

populate_phi-operand_example :
    populate_phi small_function 0 (3 ∷ 1 ∷ 3 ∷ []) ((20, 5) ∷ (10, 4) ∷ [])
    ≡ ok (operands (some (3, 1003) ∷ some (1, 104) ∷ some (3, 1003) ∷ []))
populate_phi-operand_example =
    populate_phi-operand small_function small_function-SortRules 0 3 (1 ∷ 3 ∷ [])
      ((20, 5) ∷ (10, 4) ∷ []) ((2, 5) ∷ (3, 5) ∷ (1, 4) ∷ []) tree_from small_incoming
      (refl, (refl, (refl, tt))) (refl, (refl, (refl, tt)))
