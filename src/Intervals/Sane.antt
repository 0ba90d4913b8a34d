-- ===== src/Intervals/Sane.antt =====
-- `isSane` of include/dragonegg/ADT/IntervalList.h as a predicate, and facts on prefixes and
-- suffixes of a sane list.
use dragonegg.Base.{ℕ, zero, suc, ◌≤◌, ◌≡◌, ◌↔◌, refl, true, List, [], ◌∷◌, ◌++◌, arith, take, drop}
use dragonegg.Base.Int.{ℤ, ◌≤ℤ◌, ◌<ℤ◌}
use dragonegg.Range.{empty}
use dragonegg.Intervals.{
  Interval, first_of_interval, last_of_interval, is_sane, lower_bound, upper_bound,
}

-- Every interval of the list has a property.
abbrev pub All {ℓ} : {T : Type 0} → (T → Type ℓ) → List T → Type ℓ
All P [] = Unit
All P (x ∷ xs) = P x × All P xs

pub All-append {ℓ} :
    {T : Type 0} (P : T → Type ℓ) (xs ys : List T) → All P xs → All P ys → All P (xs ++ ys)
All-append P [] ys h k = k
All-append P (x ∷ xs) ys h k = (h.0, All-append P xs ys h.1 k)

pub All-take {ℓ} :
    {T : Type 0} (P : T → Type ℓ) (n m : ℕ) (xs : List T)
    → n ≤ m
    → All P (take m xs)
    → All P (take n xs)
All-take P zero m xs h a = tt
All-take P (suc n) zero xs h a = absurd (omega arith)
All-take P (suc n) (suc m) [] h a = tt
All-take P (suc n) (suc m) (x ∷ xs) h a = (a.0, All-take P n m xs (omega arith) a.1)

pub All-drop {ℓ} :
    {T : Type 0} (P : T → Type ℓ) (n m : ℕ) (xs : List T)
    → n ≤ m
    → All P (drop n xs)
    → All P (drop m xs)
All-drop P zero zero xs h a = a
All-drop P zero (suc m) [] h a = tt
All-drop P zero (suc m) (x ∷ xs) h a = All-drop P zero m xs (omega arith) a.1
All-drop P (suc n) zero xs h a = absurd (omega arith)
All-drop P (suc n) (suc m) [] h a = tt
All-drop P (suc n) (suc m) (x ∷ xs) h a = All-drop P n m xs (omega arith) a

pub All-map {ℓ κ} :
    {T : Type 0} (P : T → Type ℓ) (Q : T → Type κ)
    → ((x : T) → P x → Q x)
    → (xs : List T) → All P xs
    → All Q xs
All-map P Q f [] a = tt
All-map P Q f (x ∷ xs) a = (f x a.0, All-map P Q f xs a.1)

module _ {T C : Type 0} (I : Interval T C) where
  -- The intervals start at or after a point, are not empty, are disjoint and in order.
  abbrev pub SaneFrom : ℤ → List T → Type 0
  SaneFrom p [] = Unit
  SaneFrom p (x ∷ xs) =
      (p ≤ℤ first_of_interval I x)
      × (first_of_interval I x <ℤ last_of_interval I x)
      × SaneFrom (last_of_interval I x) xs

  abbrev pub IsSane : List T → Type 0
  IsSane [] = Unit
  IsSane (x ∷ xs) = SaneFrom (first_of_interval I x) (x ∷ xs)

  pub SaneFrom-lower : (p q : ℤ) (xs : List T) → q ≤ℤ p → SaneFrom p xs → SaneFrom q xs
  SaneFrom-lower p q [] h s = tt
  SaneFrom-lower p q (x ∷ xs) h s = (omega arith, s.1, s.2)

  pub SaneFrom-IsSane : (p : ℤ) (xs : List T) → SaneFrom p xs → IsSane xs
  SaneFrom-IsSane p [] s = tt
  SaneFrom-IsSane p (x ∷ xs) s = (omega arith, s.1, s.2)

  is_sane-SaneFrom : (x : T) (xs : List T) → (is_sane I (x ∷ xs) ≡ true) ↔ IsSane (x ∷ xs)
  unfolding is_sane empty
  is_sane-SaneFrom x [] = ground arith
  is_sane-SaneFrom x (y ∷ xs) = ground (arith, is_sane-SaneFrom y xs)

  -- The code's check holds exactly of the lists with non-empty, disjoint intervals in order.
  pub is_sane-IsSane : (xs : List T) → (is_sane I xs ≡ true) ↔ IsSane xs
  unfolding is_sane
  is_sane-IsSane [] = (λ h. tt, λ h. refl)
  is_sane-IsSane (x ∷ xs) = is_sane-SaneFrom x xs

  -- All intervals of a list sane from a point start and stop after it.
  pub SaneFrom-All :
      (p : ℤ) (xs : List T)
      → SaneFrom p xs
      → All (λ x. (p ≤ℤ first_of_interval I x) × (p <ℤ last_of_interval I x)) xs
  SaneFrom-All p [] s = tt
  SaneFrom-All p (x ∷ xs) s = (
    (s.0, omega arith),
    SaneFrom-All p xs (SaneFrom-lower (last_of_interval I x) p xs (omega arith) s.2),
  )

  pub SaneFrom-take : (p : ℤ) (n : ℕ) (xs : List T) → SaneFrom p xs → SaneFrom p (take n xs)
  SaneFrom-take p zero xs s = tt
  SaneFrom-take p (suc n) [] s = tt
  SaneFrom-take p (suc n) (x ∷ xs) s = (s.0, s.1, SaneFrom-take (last_of_interval I x) n xs s.2)

  pub SaneFrom-drop : (p : ℤ) (n : ℕ) (xs : List T) → SaneFrom p xs → SaneFrom p (drop n xs)
  SaneFrom-drop p zero xs s = s
  SaneFrom-drop p (suc n) [] s = tt
  SaneFrom-drop p (suc n) (x ∷ xs) s =
      SaneFrom-drop p n xs (SaneFrom-lower (last_of_interval I x) p xs (omega arith) s.2)

  after_first :
      (p : ℤ) (x : T) (xs : List T)
      → p ≤ℤ first_of_interval I x
      → first_of_interval I x <ℤ last_of_interval I x
      → SaneFrom (last_of_interval I x) xs
      → All (λ y. p ≤ℤ first_of_interval I y) xs
  after_first p x xs h k s =
      All-map
        (λ y.
          (last_of_interval I x ≤ℤ first_of_interval I y)
          × (last_of_interval I x <ℤ last_of_interval I y))
        (λ y. p ≤ℤ first_of_interval I y) (λ y a. omega arith) xs
        (SaneFrom-All (last_of_interval I x) xs s)

  after_last :
      (p : ℤ) (x : T) (xs : List T)
      → p <ℤ last_of_interval I x
      → SaneFrom (last_of_interval I x) xs
      → All (λ y. p <ℤ last_of_interval I y) xs
  after_last p x xs h s =
      All-map
        (λ y.
          (last_of_interval I x ≤ℤ first_of_interval I y)
          × (last_of_interval I x <ℤ last_of_interval I y))
        (λ y. p <ℤ last_of_interval I y) (λ y a. omega arith) xs
        (SaneFrom-All (last_of_interval I x) xs s)

  -- The partition points: what stands before and after them.
  pub take-lower_bound :
      (p : ℤ) (xs : List T) → All (λ x. first_of_interval I x <ℤ p) (take (lower_bound I p xs) xs)
  unfolding lower_bound
  take-lower_bound p [] = tt
  take-lower_bound p (x ∷ xs) = ground (arith, take-lower_bound p xs)

  pub drop-lower_bound :
      (p q : ℤ) (xs : List T)
      → SaneFrom q xs
      → All (λ x. p ≤ℤ first_of_interval I x) (drop (lower_bound I p xs) xs)
  unfolding lower_bound
  drop-lower_bound p q [] s = tt
  drop-lower_bound p q (x ∷ xs) s = ground (
    arith,
    drop-lower_bound p (last_of_interval I x) xs s.2,
    λ (h : p ≤ℤ first_of_interval I x). after_first p x xs h s.1 s.2,
  )

  pub take-upper_bound :
      (p : ℤ) (xs : List T) → All (λ x. last_of_interval I x ≤ℤ p) (take (upper_bound I p xs) xs)
  unfolding upper_bound
  take-upper_bound p [] = tt
  take-upper_bound p (x ∷ xs) = ground (arith, take-upper_bound p xs)

  pub drop-upper_bound :
      (p q : ℤ) (xs : List T)
      → SaneFrom q xs
      → All (λ x. p <ℤ last_of_interval I x) (drop (upper_bound I p xs) xs)
  unfolding upper_bound
  drop-upper_bound p q [] s = tt
  drop-upper_bound p q (x ∷ xs) s = ground (
    arith,
    drop-upper_bound p (last_of_interval I x) xs s.2,
    λ (h : p <ℤ last_of_interval I x). after_last p x xs h s.2,
  )
