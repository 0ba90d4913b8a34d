-- ===== src/Intervals/Wrapped.antt =====
-- `AlignBoundaries` of include/dragonegg/ADT/IntervalList.h where the type of the bounds does not
-- have all integers: nothing wraps below a bound whose rounding it has.
use dragonegg.Base.{
  ℕ, zero, suc, ◌<◌, ◌≡◌, inl, inr, ap, refl, true, List, [], ◌∷◌, arith, length, Bool-cases,
}
use dragonegg.Base.Int.{ℤ, pos, negsuc, ◌≤ℤ◌, ◌<ℤ◌, ◌+ℤ◌, ◌-ℤ◌, ltb_ℤ}
use dragonegg.Range.{range, range_eq}
use dragonegg.Intervals.{
  Interval, first_of_interval, last_of_interval, is_sane, round_down, round_up, exact,
  merge_following, align_round, align_from, align_boundaries,
}
use dragonegg.Intervals.Sane.{All-map, All, SaneFrom, is_sane-IsSane}
use dragonegg.Intervals.Align.{
  IsAligned, AllAligned, Merged, merge_following-Merged, chopped-SaneFrom, round_up-IsAligned,
  SaneFrom-zero, exact_boundaries-IsAligned,
}
use dragonegg.Intervals.Bounded.{
  Bounded, JoinKeeps, merge_following-Bounded, change_to-Bounded, exact_boundaries-Bounded,
}

-- The conversion to the type of the bounds keeps what is computed when a boundary up to `hi` is
-- rounded up.
abbrev pub Represents : (ℤ → ℤ) → ℕ → ℤ → Type 0
Represents to_u a hi = (z : ℤ) → pos 0 ≤ℤ z → z <ℤ hi +ℤ pos a → to_u z ≡ z

round_up-exact :
    (to_u : ℤ → ℤ) (a : ℕ) (hi z : ℤ)
    → 0 < a
    → Represents to_u a hi
    → pos 0 ≤ℤ z
    → z ≤ℤ hi
    → round_up to_u a z ≡ round_up exact a z
unfolding round_up ◌+ℤ◌ ◌-ℤ◌
round_up-exact to_u a (pos m) (pos n) h r k l =
    ap (round_down a) (r (pos n +ℤ pos a -ℤ pos 1) (ground arith) (ground arith))
round_up-exact to_u a (negsuc m) (pos n) h r k l = absurd (omega arith)
round_up-exact to_u a hi (negsuc n) h r k l = absurd (omega arith)

module _ {T C : Type 0} (I : Interval T C) (to_u : ℤ → ℤ) (a : ℕ) (hi : ℤ) (Q : C → Type 0)
    (positive : 0 < a) (top : IsAligned a hi) (represents : Represents to_u a hi)
    (j : JoinKeeps I a hi Q) where
  align_round-exact :
      (q : ℤ) (x : T) (xs : List T) (f g : List T → List T)
      → SaneFrom I q (x ∷ xs)
      → All (Bounded I (pos 0) hi Q) (x ∷ xs)
      → ((p : ℤ) (ys : List T) → SaneFrom I p ys → All (Bounded I (pos 0) hi Q) ys → f ys ≡ g ys)
      → align_round I to_u a x xs f ≡ align_round I exact a x xs g
  unfolding align_round
  align_round-exact q x xs f g s b r =
      let last = last_of_interval I x in
      let up = round_up exact a last in
      let down = round_down a (first_of_interval I x) in
      let m = merge_following I up x xs in
      let same = round_up-exact to_u a hi last positive represents (omega arith) b.0.1 in
      let merged : Merged I up x xs m = merge_following-Merged I up x xs s.1 s.2 in
      let kept = merge_following-Bounded I (pos 0) hi Q up x xs j s.1 s.2 b.0 b.1 in
      let above = round_up-IsAligned a last positive (omega arith) in
      rw same (elim (Bool-cases (range_eq (I.get_range x) (range down up))) [
        | inl e ↦ rw e (ap (λ (z : List T). x ∷ z) (r last xs s.2 b.1))
        | inr e ↦ elim (Bool-cases (ltb_ℤ up (last_of_interval I m.0))) [
          | inl k ↦
              rw (e, k)
                (ap (λ (z : List T). I.change_to m.0 (range down up) ∷ z)
                  (r up _ (chopped-SaneFrom I a up m.0 m.1 (ground arith) merged.3)
                    (change_to-Bounded I (pos 0) hi Q m.0 _ kept.0.2 above.0.0 kept.0.1, kept.1)))
          | inr k ↦
              rw (e, k)
                (ap (λ (z : List T). I.change_to m.0 (range down up) ∷ z)
                  (r up m.1 merged.2 kept.1))
        ]
      ])

  align_from-exact :
      (fuel : ℕ) (q : ℤ) (xs : List T)
      → SaneFrom I q xs
      → All (Bounded I (pos 0) hi Q) xs
      → align_from I to_u a fuel xs ≡ align_from I exact a fuel xs
  unfolding align_from
  align_from-exact zero q xs s b = refl
  align_from-exact (suc fuel) q [] s b = refl
  align_from-exact (suc fuel) q (x ∷ xs) s b =
      align_round-exact q x xs (align_from I to_u a fuel) (align_from I exact a fuel) s b
        (align_from-exact fuel)

  align_boundaries-exact :
      (q : ℤ) (xs : List T)
      → SaneFrom I q xs
      → All (Bounded I (pos 0) hi Q) xs
      → align_boundaries I to_u a xs ≡ align_boundaries I exact a xs
  unfolding align_boundaries
  align_boundaries-exact q xs s b = align_from-exact (length xs) q xs s b

  -- `AlignBoundaries` moves no boundary past a multiple of the alignment that all intervals end
  -- by, and keeps what joining keeps of the contents, if the bounds' type has the integers below
  -- the next multiple.
  pub align_boundaries-Bounded :
      (q : ℤ) (xs : List T)
      → SaneFrom I q xs
      → All (Bounded I (pos 0) hi Q) xs
      → All (Bounded I (pos 0) hi Q) (align_boundaries I to_u a xs)
  align_boundaries-Bounded q xs s b =
      rw (align_boundaries-exact q xs s b)
        (exact_boundaries-Bounded I a hi Q positive top j q xs s b)

  -- In a sane list of intervals that start at or after zero and end by a multiple of a positive
  -- value, `AlignBoundaries` by the value keeps the list sane and makes every boundary a
  -- non-negative multiple of the value, if the bounds' type has the integers below the next
  -- multiple; the contents may have any property that joining keeps.
  pub align_boundaries-IsAligned :
      (xs : List T)
      → is_sane I xs ≡ true
      → All (Bounded I (pos 0) hi Q) xs
      → (is_sane I (align_boundaries I to_u a xs) ≡ true)
        × AllAligned I a (align_boundaries I to_u a xs)
  align_boundaries-IsAligned xs s b =
      let low =
        All-map (Bounded I (pos 0) hi Q) (λ x. pos 0 ≤ℤ first_of_interval I x) (λ x k. k.0) xs b in
      let sane = SaneFrom-zero I xs ((is_sane-IsSane I xs).0 s) low in
      rw (align_boundaries-exact (pos 0) xs sane b)
        (exact_boundaries-IsAligned I a xs positive s low)
