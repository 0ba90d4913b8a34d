-- ===== src/Intervals/Add.antt =====
-- `AddInterval` of include/dragonegg/ADT/IntervalList.h keeps the list sane.
use dragonegg.Base.{
  ℕ, suc, ◌≤◌, ◌<◌, ◌≡◌, ◌⊎◌, inl, inr, refl, true, List, [], ◌∷◌, ◌++◌, arith, take, drop,
  get_elem?, Option-cases,
}
use dragonegg.Base.Int.{ℤ, ◌≤ℤ◌, ◌<ℤ◌, ≤ℤ_total}
use dragonegg.Range.{range}
use dragonegg.Intervals.{
  Interval, first_of_interval, last_of_interval, is_sane, lower_bound, upper_bound, trim_previous,
  trim_next, place, split_old, add_interval,
}
use dragonegg.Intervals.Sane.{
  All, All-drop, SaneFrom, IsSane, SaneFrom-lower, SaneFrom-IsSane, SaneFrom-drop, SaneFrom-take,
  take-lower_bound, drop-upper_bound, is_sane-IsSane,
}

module _ {T C : Type 0} (I : Interval T C) where
  -- A trimmed prefix stops where the new interval starts, and what follows stays sane.
  trim_previous-SaneFrom :
      (q : ℤ) (new : T) (xs after : List T)
      → q ≤ℤ first_of_interval I new
      → SaneFrom I q xs
      → All (λ x. first_of_interval I x <ℤ first_of_interval I new) xs
      → SaneFrom I (first_of_interval I new) after
      → SaneFrom I q (trim_previous I new xs ++ after)
  unfolding trim_previous
  trim_previous-SaneFrom q new [] after h s a t = SaneFrom-lower I _ q after h t
  trim_previous-SaneFrom q new (x ∷ []) after h s a t = ground (
    arith,
    I.get_range-change_to x (range (first_of_interval I x) (first_of_interval I new)),
    λ (k : last_of_interval I x ≤ℤ first_of_interval I new).
        SaneFrom-lower I (first_of_interval I new) (last_of_interval I x) after k t,
  )
  trim_previous-SaneFrom q new (x ∷ y ∷ xs) after h s a t = (
    s.0,
    s.1,
    trim_previous-SaneFrom (last_of_interval I x) new (y ∷ xs) after (omega arith) s.2 a.1 t,
  )

  trim_next-SaneFrom :
      (q : ℤ) (new : T) (xs : List T)
      → SaneFrom I q xs
      → All (λ x. last_of_interval I new <ℤ last_of_interval I x) xs
      → SaneFrom I (last_of_interval I new) (trim_next I new xs)
  unfolding trim_next
  trim_next-SaneFrom q new [] s a = tt
  trim_next-SaneFrom q new (x ∷ xs) s a =
      ground
        (arith, I.get_range-change_to x (range (last_of_interval I new) (last_of_interval I x)))

  place-SaneFrom :
      (p q : ℤ) (new : T) (before after : List T)
      → first_of_interval I new <ℤ last_of_interval I new
      → SaneFrom I p before
      → p ≤ℤ first_of_interval I new
      → SaneFrom I q after
      → All (λ x. first_of_interval I x <ℤ first_of_interval I new) before
      → All (λ x. last_of_interval I new <ℤ last_of_interval I x) after
      → SaneFrom I p (place I new before after)
  unfolding place
  place-SaneFrom p q new before after n s h t a b =
      (trim_previous-SaneFrom p new before (new ∷ trim_next I new after) h s a
        (omega arith, n, trim_next-SaneFrom q new after t b))

  -- Past an interval that stays in front, the split goes on in the rest.
  pub split_old-suc :
      (new x : T) (lo hi : ℕ) (xs : List T)
      → split_old I new (suc lo) (suc hi) (x ∷ xs) ≡ x ∷ split_old I new lo hi xs
  unfolding split_old
  split_old-suc new x lo hi xs = elim (Option-cases (get_elem? xs hi)) [
    | inl e ↦ rw (e, split_old)
    | inr (old, e) ↦ rw (e, split_old)
  ]

  -- Nothing of a list that starts after a point comes before it.
  pub lower_bound-SaneFrom :
      (p q : ℤ) (xs : List T) → p ≤ℤ q → SaneFrom I q xs → lower_bound I p xs ≡ 0
  unfolding lower_bound
  lower_bound-SaneFrom p q [] h s = refl
  lower_bound-SaneFrom p q (x ∷ xs) h s = ground arith

  -- The chopped interval at the front.
  abbrev pub pieces : T → T → List T → List T
  pieces new x xs =
      I.change_to x (range (first_of_interval I x) (first_of_interval I new))
      ∷ new
      ∷ I.change_to x (range (last_of_interval I new) (last_of_interval I x))
      ∷ xs

  pub split_old-pieces : (new x : T) (xs : List T) → split_old I new 1 0 (x ∷ xs) ≡ pieces new x xs
  unfolding split_old
  split_old-pieces new x xs = refl

  pieces-SaneFrom :
      (q : ℤ) (new x : T) (xs : List T)
      → first_of_interval I new <ℤ last_of_interval I new
      → first_of_interval I x <ℤ first_of_interval I new
      → last_of_interval I new <ℤ last_of_interval I x
      → SaneFrom I q (x ∷ xs)
      → SaneFrom I q (pieces new x xs)
  pieces-SaneFrom q new x xs n h k s = ground (
    arith,
    I.get_range-change_to x (range (first_of_interval I x) (first_of_interval I new)),
    I.get_range-change_to x (range (last_of_interval I new) (last_of_interval I x)),
  )

  -- Where the old interval to split stands: at the front, or further on.
  pub split_cases :
      (new x : T) (q : ℤ) (xs : List T)
      → first_of_interval I new <ℤ last_of_interval I new
      → SaneFrom I q (x ∷ xs)
      → upper_bound I (last_of_interval I new) (x ∷ xs)
        < lower_bound I (first_of_interval I new) (x ∷ xs)
      → ((first_of_interval I x <ℤ first_of_interval I new)
          × (last_of_interval I new <ℤ last_of_interval I x)
          × (upper_bound I (last_of_interval I new) (x ∷ xs) ≡ 0)
          × (lower_bound I (first_of_interval I new) (x ∷ xs) ≡ 1))
        ⊎ ((first_of_interval I x <ℤ first_of_interval I new)
            × (last_of_interval I x ≤ℤ last_of_interval I new)
            × (upper_bound I (last_of_interval I new) (x ∷ xs)
                ≡ suc (upper_bound I (last_of_interval I new) xs))
            × (lower_bound I (first_of_interval I new) (x ∷ xs)
                ≡ suc (lower_bound I (first_of_interval I new) xs)))
  unfolding lower_bound upper_bound
  split_cases new x q xs n s h = ground (
    arith,
    λ (k : first_of_interval I new ≤ℤ last_of_interval I x).
        lower_bound-SaneFrom (first_of_interval I new) (last_of_interval I x) xs k s.2,
  )

  split_old-SaneFrom :
      (new : T) (q : ℤ) (xs : List T)
      → first_of_interval I new <ℤ last_of_interval I new
      → SaneFrom I q xs
      → upper_bound I (last_of_interval I new) xs < lower_bound I (first_of_interval I new) xs
      → SaneFrom I q (
          split_old I new
            (lower_bound I (first_of_interval I new) xs)
            (upper_bound I (last_of_interval I new) xs)
            xs)
  split_old-SaneFrom new q [] n s h = unfold split_old in tt
  split_old-SaneFrom new q (x ∷ xs) n s h = elim (split_cases new x q xs n s h) [
    | inl (a, b, u, l) ↦ rw (u, l, split_old-pieces new x xs) (pieces-SaneFrom q new x xs n a b s)
    | inr (a, b, u, l) ↦
        rw
          (
            u,
            l,
            split_old-suc new x (lower_bound I (first_of_interval I new) xs)
                (upper_bound I (last_of_interval I new) xs) xs,
          )
          (s.0, s.1, split_old-SaneFrom new (last_of_interval I x) xs n s.2 (omega arith))
  ]

  place-between :
      (new : T) (q : ℤ) (xs : List T) (hi : ℕ)
      → first_of_interval I new <ℤ last_of_interval I new
      → q ≤ℤ first_of_interval I new
      → SaneFrom I q xs
      → lower_bound I (first_of_interval I new) xs ≤ hi
      → upper_bound I (last_of_interval I new) xs ≤ hi
      → SaneFrom I q
          (place I new (take (lower_bound I (first_of_interval I new) xs) xs) (drop hi xs))
  place-between new q xs hi n h s k l =
      place-SaneFrom q q new _ _ n (SaneFrom-take I q _ xs s) h (SaneFrom-drop I q hi xs s)
        (take-lower_bound I (first_of_interval I new) xs)
        (All-drop _ _ hi xs l (drop-upper_bound I (last_of_interval I new) q xs s))

  add_interval-SaneFrom :
      (new : T) (q : ℤ) (xs : List T)
      → q ≤ℤ first_of_interval I new
      → SaneFrom I q xs
      → SaneFrom I q (add_interval I new xs)
  unfolding add_interval
  add_interval-SaneFrom new q [] h s = ground arith
  add_interval-SaneFrom new q (x ∷ xs) h s = ground (
    arith,
    λ (n : first_of_interval I new <ℤ last_of_interval I new).
        place-between new q (x ∷ xs) (upper_bound I (last_of_interval I new) (x ∷ xs)) n h s,
    λ (n : first_of_interval I new <ℤ last_of_interval I new).
        place-between new q (x ∷ xs) (lower_bound I (first_of_interval I new) (x ∷ xs)) n h s,
    λ (n : first_of_interval I new <ℤ last_of_interval I new).
        split_old-SaneFrom new q (x ∷ xs) n s,
  )

  below_both : (n : ℤ) (xs : List T) → IsSane I xs → (q : ℤ) × (q ≤ℤ n) × SaneFrom I q xs
  below_both n [] s = (n, omega arith, tt)
  below_both n (x ∷ xs) s = elim (≤ℤ_total n (first_of_interval I x)) [
    | inl h ↦ (n, omega arith, SaneFrom-lower I _ n (x ∷ xs) h s)
    | inr h ↦ (first_of_interval I x, h, s)
  ]

  -- Adding any interval, empty or not, to a sane list gives a sane list.
  pub add_interval-is_sane :
      (new : T) (xs : List T) → is_sane I xs ≡ true → is_sane I (add_interval I new xs) ≡ true
  add_interval-is_sane new xs h =
      let (q, k, s) = below_both (first_of_interval I new) xs ((is_sane-IsSane I xs).0 h) in
      (is_sane-IsSane I _).1 (SaneFrom-IsSane I q _ (add_interval-SaneFrom new q xs k s))
