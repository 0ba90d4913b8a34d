-- ===== src/Intervals/Bounded.antt =====
-- What the operations of include/dragonegg/ADT/IntervalList.h keep of every single interval: its
-- boundaries between two bounds, and a property of its content.
use dragonegg.Base.{
  ℕ, zero, suc, ◌<◌, ◌≡◌, inl, inr, subst, sym, ap, List, [], ◌∷◌, arith, some, length, ltb, take,
  drop, set, get_elem?, Bool-cases, Option-cases,
}
use dragonegg.Base.Int.{ℤ, pos, ◌≤ℤ◌, ◌<ℤ◌, ltb_ℤ}
use dragonegg.Range.{Range, range, empty, range_eq}
use dragonegg.Intervals.{
  Interval, first_of_interval, last_of_interval, lower_bound, upper_bound, trim_previous, trim_next,
  place, insert_at, split_old, add_interval, round_down, round_up, exact, merge_following,
  align_round, align_from, align_boundaries,
}
use dragonegg.Intervals.Sane.{All, All-append, SaneFrom}
use dragonegg.Intervals.Align.{
  IsAligned, Merged, merge_following-Merged, chopped-SaneFrom, join_with-range,
  round_down-IsAligned, round_up-IsAligned, round_up-below,
}

All-any_take {ℓ} :
    {T : Type 0} (P : T → Type ℓ) (n : ℕ) (xs : List T) → All P xs → All P (take n xs)
All-any_take P zero xs a = tt
All-any_take P (suc n) [] a = tt
All-any_take P (suc n) (x ∷ xs) a = (a.0, All-any_take P n xs a.1)

All-any_drop {ℓ} :
    {T : Type 0} (P : T → Type ℓ) (n : ℕ) (xs : List T) → All P xs → All P (drop n xs)
All-any_drop P zero xs a = a
All-any_drop P (suc n) [] a = tt
All-any_drop P (suc n) (x ∷ xs) a = All-any_drop P n xs a.1

All-set {ℓ} :
    {T : Type 0} (P : T → Type ℓ) (n : ℕ) (t : T) (xs : List T)
    → P t
    → All P xs
    → All P (set xs n t)
All-set P n t [] p a = tt
All-set P zero t (x ∷ xs) p a = (p, a.1)
All-set P (suc n) t (x ∷ xs) p a = (a.0, All-set P n t xs p a.1)

All-get_elem? {ℓ} :
    {T : Type 0} (P : T → Type ℓ) (n : ℕ) (t : T) (xs : List T)
    → All P xs
    → get_elem? xs n ≡ some t
    → P t
All-get_elem? P n t [] a e = cc
All-get_elem? P zero t (x ∷ xs) a e = subst P (ground (arith, e)) a.0
All-get_elem? P (suc n) t (x ∷ xs) a e = All-get_elem? P n t xs a.1 e

module _ {T C : Type 0} (I : Interval T C) (lo hi : ℤ) (Q : C → Type 0) where
  -- An interval between the bounds with a good content.
  abbrev pub Bounded : T → Type 0
  Bounded x = (lo ≤ℤ first_of_interval I x) × (last_of_interval I x ≤ℤ hi) × Q (I.content x)

  insert_at-Bounded :
      (n : ℕ) (t : T) (xs : List T) → Bounded t → All Bounded xs → All Bounded (insert_at I n t xs)
  insert_at-Bounded n t xs p a =
      All-append Bounded (take n xs) (t ∷ drop n xs) (All-any_take Bounded n xs a)
        (p, All-any_drop Bounded n xs a)

  -- Changing the range keeps the content.
  pub change_to-Bounded :
      (x : T) (r : Range)
      → Q (I.content x)
      → lo ≤ℤ r.first
      → r.last ≤ℤ hi
      → Bounded (I.change_to x r)
  change_to-Bounded x r q h k =
      let e = I.get_range-change_to x r in
      (
        subst (λ (s : Range). lo ≤ℤ s.first) (sym e) h,
        subst (λ (s : Range). s.last ≤ℤ hi) (sym e) k,
        subst Q (sym (I.content-change_to x r)) q,
      )

  module _ (new : T) (n : Bounded new)
      (ordered : first_of_interval I new <ℤ last_of_interval I new) where
    trim_previous-Bounded : (xs : List T) → All Bounded xs → All Bounded (trim_previous I new xs)
    unfolding trim_previous
    trim_previous-Bounded [] a = tt
    trim_previous-Bounded (x ∷ []) a =
        elim (Bool-cases (ltb_ℤ (first_of_interval I new) (last_of_interval I x))) [
          | inl e ↦ rw e (change_to-Bounded x _ a.0.2 a.0.0 (omega arith), tt)
          | inr e ↦ rw e a
        ]
    trim_previous-Bounded (x ∷ y ∷ xs) a = (a.0, trim_previous-Bounded (y ∷ xs) a.1)

    trim_next-Bounded : (xs : List T) → All Bounded xs → All Bounded (trim_next I new xs)
    unfolding trim_next
    trim_next-Bounded [] a = tt
    trim_next-Bounded (x ∷ xs) a =
        elim (Bool-cases (ltb_ℤ (first_of_interval I x) (last_of_interval I new))) [
          | inl e ↦ rw e (change_to-Bounded x _ a.0.2 (omega arith) a.0.1, a.1)
          | inr e ↦ rw e a
        ]

    place-Bounded :
        (before after : List T)
        → All Bounded before
        → All Bounded after
        → All Bounded (place I new before after)
    unfolding place
    place-Bounded before after a b =
        All-append Bounded (trim_previous I new before) (new ∷ trim_next I new after)
          (trim_previous-Bounded before a) (n, trim_next-Bounded after b)

    split_old-Bounded :
        (l h : ℕ) (xs : List T) → All Bounded xs → All Bounded (split_old I new l h xs)
    unfolding split_old
    split_old-Bounded l h xs a = elim (Option-cases (get_elem? xs h)) [
      | inl e ↦ rw (e, split_old) a
      | inr (old, e) ↦
          let b = All-get_elem? Bounded h old xs a e in
          rw (e, split_old)
            (insert_at-Bounded l new _ n (
              insert_at-Bounded l _ _ (change_to-Bounded old _ b.2 (omega arith) b.1)
                (All-set Bounded h _ xs (change_to-Bounded old _ b.2 b.0 (omega arith)) a)))
    ]

  -- Adding an interval between the bounds keeps all intervals between them, with good contents.
  pub add_interval-Bounded :
      (new : T) (xs : List T) → Bounded new → All Bounded xs → All Bounded (add_interval I new xs)
  unfolding add_interval empty
  add_interval-Bounded new [] n a = elim (Bool-cases (empty (I.get_range new))) [
    | inl e ↦ rw e tt
    | inr e ↦ rw e (n, tt)
  ]
  add_interval-Bounded new (x ∷ xs) n a =
      let l = lower_bound I (first_of_interval I new) (x ∷ xs) in
      let h = upper_bound I (last_of_interval I new) (x ∷ xs) in
      elim (Bool-cases (empty (I.get_range new))) [
        | inl e ↦ rw e a
        | inr e ↦ elim (Bool-cases (ltb l h)) [
          | inl f ↦
              rw (e, f)
                (place-Bounded new n (ground arith) (take l (x ∷ xs)) (drop h (x ∷ xs))
                  (All-any_take Bounded l (x ∷ xs) a) (All-any_drop Bounded h (x ∷ xs) a))
          | inr f ↦ elim (Bool-cases (ltb h l)) [
            | inl g ↦ rw (e, f, g) (split_old-Bounded new n (ground arith) l h (x ∷ xs) a)
            | inr g ↦
                rw (e, f, g)
                  (place-Bounded new n (ground arith) (take l (x ∷ xs)) (drop l (x ∷ xs))
                    (All-any_take Bounded l (x ∷ xs) a) (All-any_drop Bounded l (x ∷ xs) a))
          ]
        ]
      ]

  -- The interval that the loop grows ends where one of the merged ones ended.
  pub merge_following-Bounded :
      (rounded : ℤ) (x : T) (xs : List T)
      → ((s t : T)
          → Q (I.content s)
          → Q (I.content t)
          → first_of_interval I t <ℤ last_of_interval I t
          → Q (I.content (I.join_with s t)))
      → first_of_interval I x <ℤ last_of_interval I x
      → SaneFrom I (last_of_interval I x) xs
      → Bounded x
      → All Bounded xs
      → Bounded (merge_following I rounded x xs).0 × All Bounded (merge_following I rounded x xs).1
  unfolding merge_following
  merge_following-Bounded rounded x [] j h s b a = (b, tt)
  merge_following-Bounded rounded x (y ∷ ys) j h s b a =
      let e = join_with-range I x y h s.0 s.1 in
      let first = ap (λ (r : Range). r.first) e in
      let last = ap (λ (r : Range). r.last) e in
      let joined : Bounded (I.join_with x y) = (
        subst (λ z. lo ≤ℤ z) (sym first) b.0,
        subst (λ z. z ≤ℤ hi) (sym last) a.0.1,
        j x y b.2 a.0.2 s.1,
      ) in
      let rest =
        merge_following-Bounded rounded (I.join_with x y) ys j (ground (arith, e))
          (subst (λ z. SaneFrom I z ys) (sym last) s.2) joined a.1 in
      elim (Bool-cases (ltb_ℤ (first_of_interval I y) rounded)) [
        | inl f ↦ rw f rest
        | inr f ↦ rw f (b, a)
      ]

-- From here on between zero and a multiple of the alignment.
module _ {T C : Type 0} (I : Interval T C) (a : ℕ) (hi : ℤ) (Q : C → Type 0) where
  -- The interval that joins two intervals with good contents has a good one.
  abbrev pub JoinKeeps : Type 0
  JoinKeeps =
      (s t : T)
      → Q (I.content s)
      → Q (I.content t)
      → first_of_interval I t <ℤ last_of_interval I t
      → Q (I.content (I.join_with s t))

  module _ (positive : 0 < a) (top : IsAligned a hi) (j : JoinKeeps) where
    align_round-Bounded :
        (q : ℤ) (x : T) (xs : List T) (later : List T → List T)
        → SaneFrom I q (x ∷ xs)
        → All (Bounded I (pos 0) hi Q) (x ∷ xs)
        → ((p : ℤ) (ys : List T)
            → SaneFrom I p ys
            → All (Bounded I (pos 0) hi Q) ys
            → All (Bounded I (pos 0) hi Q) (later ys))
        → All (Bounded I (pos 0) hi Q) (align_round I exact a x xs later)
    unfolding align_round
    align_round-Bounded q x xs later s b r =
        let up = round_up exact a (last_of_interval I x) in
        let down = round_down a (first_of_interval I x) in
        let m = merge_following I up x xs in
        let merged : Merged I up x xs m = merge_following-Merged I up x xs s.1 s.2 in
        let kept = merge_following-Bounded I (pos 0) hi Q up x xs j s.1 s.2 b.0 b.1 in
        let low = round_down-IsAligned a (first_of_interval I x) b.0.0 in
        let high = round_up-below a hi (last_of_interval I x) positive top (omega arith) b.0.1 in
        let above = round_up-IsAligned a (last_of_interval I x) positive (omega arith) in
        let aligned = change_to-Bounded I (pos 0) hi Q m.0 (range down up) kept.0.2 low.0.0 high in
        elim (Bool-cases (range_eq (I.get_range x) (range down up))) [
          | inl e ↦ rw e (b.0, r (last_of_interval I x) xs s.2 b.1)
          | inr e ↦ elim (Bool-cases (ltb_ℤ up (last_of_interval I m.0))) [
            | inl f ↦
                rw (e, f)
                  (
                    aligned,
                    r up _ (chopped-SaneFrom I a up m.0 m.1 (ground arith) merged.3) (
                      change_to-Bounded I (pos 0) hi Q m.0 _ kept.0.2 above.0.0 kept.0.1,
                      kept.1,
                    ),
                  )
            | inr f ↦ rw (e, f) (aligned, r up m.1 merged.2 kept.1)
          ]
        ]

    align_from-Bounded :
        (fuel : ℕ) (q : ℤ) (xs : List T)
        → SaneFrom I q xs
        → All (Bounded I (pos 0) hi Q) xs
        → All (Bounded I (pos 0) hi Q) (align_from I exact a fuel xs)
    unfolding align_from
    align_from-Bounded zero q xs s b = b
    align_from-Bounded (suc fuel) q [] s b = tt
    align_from-Bounded (suc fuel) q (x ∷ xs) s b =
        align_round-Bounded q x xs (align_from I exact a fuel) s b (align_from-Bounded fuel)

    -- With bounds that have all integers.
    pub exact_boundaries-Bounded :
        (q : ℤ) (xs : List T)
        → SaneFrom I q xs
        → All (Bounded I (pos 0) hi Q) xs
        → All (Bounded I (pos 0) hi Q) (align_boundaries I exact a xs)
    unfolding align_boundaries
    exact_boundaries-Bounded q xs s b = align_from-Bounded (length xs) q xs s b
