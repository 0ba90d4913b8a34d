-- ===== src/Intervals/Owner.antt =====
-- `AddInterval` of include/dragonegg/ADT/IntervalList.h, point by point: which interval's content
-- covers a point before and after.
use dragonegg.Base.{
  ℕ, zero, suc, ◌<◌, ◌≡◌, inl, inr, refl, sym, Bool, true, false, ◌&&◌, List, [], ◌∷◌, ◌++◌, arith,
  take, drop, Option, some, none, if◌then◌else◌,
}
use dragonegg.Base.Int.{ℤ, ◌≤ℤ◌, ◌<ℤ◌, leb_ℤ, ltb_ℤ}
use dragonegg.Range.{range}
use dragonegg.Intervals.{
  Interval, first_of_interval, last_of_interval, is_sane, lower_bound, upper_bound, trim_previous,
  trim_next, place, split_old, add_interval,
}
use dragonegg.Intervals.Sane.{
  All, All-map, SaneFrom, SaneFrom-All, SaneFrom-drop, SaneFrom-take, take-lower_bound,
  drop-lower_bound, take-upper_bound, drop-upper_bound, is_sane-IsSane,
}
use dragonegg.Intervals.Add.{split_old-suc, split_cases, split_old-pieces, pieces}

module _ {T C : Type 0} (I : Interval T C) where
  -- The interval covers the point.
  abbrev pub has : ℤ → T → Bool
  has p x = leb_ℤ (first_of_interval I x) p && ltb_ℤ p (last_of_interval I x)

  -- The content of the first interval that covers a point; in a sane list there is no other.
  unfoldable pub owner : ℤ → List T → Option C
  owner p [] = none
  owner p (x ∷ xs) = if has p x then some (I.content x) else owner p xs

  abbrev or_else : Option C → Option C → Option C
  or_else (some c) d = some c
  or_else none d = d

  owner-append : (p : ℤ) (xs ys : List T) → owner p (xs ++ ys) ≡ or_else (owner p xs) (owner p ys)
  unfolding owner
  owner-append p [] ys = refl
  owner-append p (x ∷ xs) ys = ground (arith, owner-append p xs ys)

  pub owner-none : (p : ℤ) (xs : List T) → All (λ x. has p x ≡ false) xs → owner p xs ≡ none
  unfolding owner
  owner-none p [] a = refl
  owner-none p (x ∷ xs) a = ground (arith, owner-none p xs a.1)

  -- Cutting off intervals that do not cover a point.
  owner-take :
      (p : ℤ) (n : ℕ) (xs : List T)
      → All (λ x. has p x ≡ false) (drop n xs)
      → owner p (take n xs) ≡ owner p xs
  unfolding owner
  owner-take p zero xs a = sym (owner-none p xs a)
  owner-take p (suc n) [] a = refl
  owner-take p (suc n) (x ∷ xs) a = ground (arith, owner-take p n xs a)

  owner-drop :
      (p : ℤ) (n : ℕ) (xs : List T)
      → All (λ x. has p x ≡ false) (take n xs)
      → owner p (drop n xs) ≡ owner p xs
  unfolding owner
  owner-drop p zero xs a = refl
  owner-drop p (suc n) [] a = refl
  owner-drop p (suc n) (x ∷ xs) a = ground (arith, owner-drop p n xs a.1)

  owner-trim_previous_before :
      (p : ℤ) (new : T) (xs : List T)
      → p <ℤ first_of_interval I new
      → owner p (trim_previous I new xs) ≡ owner p xs
  unfolding owner trim_previous
  owner-trim_previous_before p new [] h = refl
  owner-trim_previous_before p new (x ∷ []) h = ground (
    arith,
    I.get_range-change_to x (range (first_of_interval I x) (first_of_interval I new)),
    I.content-change_to x (range (first_of_interval I x) (first_of_interval I new)),
  )
  owner-trim_previous_before p new (x ∷ y ∷ xs) h =
      ground (arith, owner-trim_previous_before p new (y ∷ xs) h)

  owner-trim_previous_after :
      (p q : ℤ) (new : T) (xs : List T)
      → first_of_interval I new ≤ℤ p
      → SaneFrom I q xs
      → All (λ x. first_of_interval I x <ℤ first_of_interval I new) xs
      → owner p (trim_previous I new xs) ≡ none
  unfolding owner trim_previous
  owner-trim_previous_after p q new [] h s a = refl
  owner-trim_previous_after p q new (x ∷ []) h s a =
      ground
        (arith, I.get_range-change_to x (range (first_of_interval I x) (first_of_interval I new)))
  owner-trim_previous_after p q new (x ∷ y ∷ xs) h s a =
      ground (arith, owner-trim_previous_after p (last_of_interval I x) new (y ∷ xs) h s.2 a.1)

  owner-past : (p q : ℤ) (xs : List T) → p <ℤ q → SaneFrom I q xs → owner p xs ≡ none
  owner-past p q xs h s = owner-none p xs (
      All-map (λ x. (q ≤ℤ first_of_interval I x) × (q <ℤ last_of_interval I x))
        (λ x. has p x ≡ false) (λ x a. ground arith) xs (SaneFrom-All I q xs s))

  owner-trim_next_before :
      (p q : ℤ) (new : T) (xs : List T)
      → p <ℤ last_of_interval I new
      → SaneFrom I q xs
      → All (λ x. last_of_interval I new <ℤ last_of_interval I x) xs
      → owner p (trim_next I new xs) ≡ none
  unfolding owner trim_next
  owner-trim_next_before p q new [] h s a = refl
  owner-trim_next_before p q new (x ∷ xs) h s a = ground (
    arith,
    I.get_range-change_to x (range (last_of_interval I new) (last_of_interval I x)),
    owner-past p (last_of_interval I x) xs (omega arith) s.2,
  )

  owner-trim_next_after :
      (p : ℤ) (new : T) (xs : List T)
      → last_of_interval I new ≤ℤ p
      → owner p (trim_next I new xs) ≡ owner p xs
  unfolding owner trim_next
  owner-trim_next_after p new [] h = refl
  owner-trim_next_after p new (x ∷ xs) h = ground (
    arith,
    I.get_range-change_to x (range (last_of_interval I new) (last_of_interval I x)),
    I.content-change_to x (range (last_of_interval I new) (last_of_interval I x)),
  )

  -- What the code promises: the new content where the new interval is, the old one elsewhere.
  abbrev pub Overrides : ℤ → T → List T → List T → Type 0
  Overrides p new xs ys = owner p ys ≡ (if has p new then some (I.content new) else owner p xs)

  owner-before_lower_bound :
      (p n q : ℤ) (xs : List T)
      → p <ℤ n
      → SaneFrom I q xs
      → owner p (take (lower_bound I n xs) xs) ≡ owner p xs
  owner-before_lower_bound p n q xs h s = owner-take p (lower_bound I n xs) xs (
      All-map (λ x. n ≤ℤ first_of_interval I x) (λ x. has p x ≡ false) (λ x a. ground arith) _
        (drop-lower_bound I n q xs s))

  owner-after_upper_bound :
      (p m : ℤ) (xs : List T) → m ≤ℤ p → owner p (drop (upper_bound I m xs) xs) ≡ owner p xs
  owner-after_upper_bound p m xs h = owner-drop p (upper_bound I m xs) xs (
      All-map (λ x. last_of_interval I x ≤ℤ m) (λ x. has p x ≡ false) (λ x a. ground arith) _
        (take-upper_bound I m xs))

  owner-place :
      (p q : ℤ) (new : T) (xs : List T)
      → first_of_interval I new <ℤ last_of_interval I new
      → SaneFrom I q xs
      → Overrides p new xs (
          place I new
            (take (lower_bound I (first_of_interval I new) xs) xs)
            (drop (upper_bound I (last_of_interval I new) xs) xs))
  unfolding place owner
  owner-place p q new xs n s = ground (
    arith,
    owner-append p (trim_previous I new before) (new ∷ trim_next I new after),
    λ (h : p <ℤ first_of_interval I new). owner-trim_previous_before p new before h,
    λ (h : p <ℤ first_of_interval I new).
        owner-before_lower_bound p (first_of_interval I new) q xs h s,
    λ (h : first_of_interval I new ≤ℤ p).
        owner-trim_previous_after p q new before h (SaneFrom-take I q _ xs s)
          (take-lower_bound I (first_of_interval I new) xs),
    λ (h : p <ℤ last_of_interval I new).
        owner-trim_next_before p q new after h (SaneFrom-drop I q _ xs s)
          (drop-upper_bound I (last_of_interval I new) q xs s),
    λ (h : last_of_interval I new ≤ℤ p). owner-trim_next_after p new after h,
    λ (h : last_of_interval I new ≤ℤ p). owner-after_upper_bound p (last_of_interval I new) xs h,
  )
    where
      before : List T
      before = take (lower_bound I (first_of_interval I new) xs) xs

      after : List T
      after = drop (upper_bound I (last_of_interval I new) xs) xs

  owner-pieces :
      (p q : ℤ) (new x : T) (xs : List T)
      → first_of_interval I new <ℤ last_of_interval I new
      → first_of_interval I x <ℤ first_of_interval I new
      → last_of_interval I new <ℤ last_of_interval I x
      → SaneFrom I q (x ∷ xs)
      → Overrides p new (x ∷ xs) (pieces I new x xs)
  unfolding owner
  owner-pieces p q new x xs n h k s = ground (
    arith,
    I.get_range-change_to x (range (first_of_interval I x) (first_of_interval I new)),
    I.content-change_to x (range (first_of_interval I x) (first_of_interval I new)),
    I.get_range-change_to x (range (last_of_interval I new) (last_of_interval I x)),
    I.content-change_to x (range (last_of_interval I new) (last_of_interval I x)),
  )

  -- An interval that starts before a later one's end and in a sane list starts before its point.
  lower_bound-pos : (n q : ℤ) (xs : List T) → SaneFrom I q xs → 0 < lower_bound I n xs → q <ℤ n
  unfolding lower_bound
  lower_bound-pos n q [] s h = absurd (omega arith)
  lower_bound-pos n q (x ∷ xs) s h = ground arith

  lower_bound-nil : (n : ℤ) → lower_bound I n [] ≡ 0
  unfolding lower_bound
  lower_bound-nil n = refl

  owner-split_old :
      (p : ℤ) (new : T) (q : ℤ) (xs : List T)
      → first_of_interval I new <ℤ last_of_interval I new
      → SaneFrom I q xs
      → upper_bound I (last_of_interval I new) xs < lower_bound I (first_of_interval I new) xs
      → Overrides p new xs (
          split_old I new
            (lower_bound I (first_of_interval I new) xs)
            (upper_bound I (last_of_interval I new) xs)
            xs)
  unfolding owner
  owner-split_old p new q [] n s h =
      absurd (omega (arith, lower_bound-nil (first_of_interval I new)))
  owner-split_old p new q (x ∷ xs) n s h = elim (split_cases I new x q xs n s h) [
    | inl (a, b, u, l) ↦ rw (u, l, split_old-pieces I new x xs) (owner-pieces p q new x xs n a b s)
    | inr (a, b, u, l) ↦
        rw
          (
            u,
            l,
            split_old-suc I new x (lower_bound I (first_of_interval I new) xs)
                (upper_bound I (last_of_interval I new) xs) xs,
          )
          (ground (
            arith,
            owner-split_old p new (last_of_interval I x) xs n s.2 (omega arith),
            lower_bound-pos (first_of_interval I new) (last_of_interval I x) xs s.2 (omega arith),
          ))
  ]

  add_interval-owner_from :
      (p q : ℤ) (new : T) (xs : List T)
      → SaneFrom I q xs
      → Overrides p new xs (add_interval I new xs)
  unfolding add_interval
  add_interval-owner_from p q new [] s = unfold owner in ground arith
  add_interval-owner_from p q new (x ∷ xs) s = ground (
    arith,
    λ (n : first_of_interval I new <ℤ last_of_interval I new). owner-place p q new (x ∷ xs) n s,
    λ (n : first_of_interval I new <ℤ last_of_interval I new). owner-split_old p new q (x ∷ xs) n s,
  )

  -- In a sane list, after adding an interval every point of it shows its content, and every other
  -- point shows what it showed before: exactly the overlapping parts are pruned.
  pub add_interval-owner :
      (p : ℤ) (new : T) (xs : List T)
      → is_sane I xs ≡ true
      → owner p (add_interval I new xs) ≡ (if has p new then some (I.content new) else owner p xs)
  add_interval-owner p new [] h = add_interval-owner_from p p new [] tt
  add_interval-owner p new (x ∷ xs) h =
      add_interval-owner_from p (first_of_interval I x) new (x ∷ xs)
        ((is_sane-IsSane I (x ∷ xs)).0 h)
