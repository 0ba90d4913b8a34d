-- ===== src/Intervals.antt =====
-- include/dragonegg/ADT/IntervalList.h: a list of disjoint intervals, generic in the interval type.
-- An interval type has the three methods that the class template asks for and, for the statements,
-- a content that `ChangeRangeTo` keeps. Iterators are positions; `SmallVector` is a list.
-- `std::lower_bound` and `std::upper_bound` are read as the partition points that they return on
-- a list sorted by the comparison, which a sane list is.
pub mod Sane
pub mod Add
pub mod Owner
pub mod Align
pub mod Bounded
pub mod Wrapped
use dragonegg.Base.{
  ℕ, zero, suc, ◌+◌, ◌-◌, ◌%◌, ◌^◌, ◌≡◌, Bool, true, false, not, ◌&&◌, Option, none, some, List, [],
  ◌∷◌, ◌++◌, ltb, leb, if◌then◌else◌, get_elem?, set, take, drop, length,
}
use dragonegg.Base.Int.{ℤ, pos, negsuc, ◌+ℤ◌, ◌-ℤ◌, ltb_ℤ, leb_ℤ, ◌≤ℤ◌}
use dragonegg.Range.{Range, range, empty, range_eq, join, intersects}

-- What the template asks of its interval type, with the laws that its comment states.
pub record Interval (T C : Type 0) : Type 0 where
  pub get_range : T → Range
  pub change_to : T → Range → T
  pub join_with : T → T → T
  pub content : T → C
  pub get_range-change_to : (t : T) (r : Range) → get_range (change_to t r) ≡ r
  pub content-change_to : (t : T) (r : Range) → content (change_to t r) ≡ content t
  pub get_range-join_with :
      (s t : T)
      → intersects (get_range s) (get_range t) ≡ false
      → empty (get_range t) ≡ false
      → get_range (join_with s t) ≡ join (get_range s) (get_range t)

-- The operand of `%` is converted to unsigned, so a negative one wraps to 32 bits.
abbrev pub remainder : ℤ → ℕ → ℕ
remainder (pos n) a = n % a
remainder (negsuc n) a = (2 ^ 32 - suc n) % a

unfoldable pub round_down : ℕ → ℤ → ℤ
round_down a z = z -ℤ pos (remainder z a)

-- The conversion to a type of bounds that has all integers.
abbrev pub exact : ℤ → ℤ
exact z = z

-- `to_u` is the conversion to the type of the bounds, `U`.
unfoldable pub round_up : (ℤ → ℤ) → ℕ → ℤ → ℤ
unfolding round_down
round_up to_u a z = round_down a (to_u (z +ℤ pos a -ℤ pos 1))

module _ {T C : Type 0} (I : Interval T C) where
  abbrev pub first_of_interval : T → ℤ
  first_of_interval t = (I.get_range t).first

  abbrev pub last_of_interval : T → ℤ
  last_of_interval t = (I.get_range t).last

  -- `isSane`, with the check against the preceding interval made on the pair of neighbours.
  unfoldable pub is_sane : List T → Bool
  unfolding empty
  is_sane [] = true
  is_sane (x ∷ []) = not (empty (I.get_range x))
  is_sane (x ∷ y ∷ xs) =
      not (empty (I.get_range x))
      && not (ltb_ℤ (first_of_interval y) (last_of_interval x))
      && is_sane (y ∷ xs)

  -- `std::lower_bound` by `CmpFirst`: the first position that does not start before the interval.
  unfoldable pub lower_bound : ℤ → List T → ℕ
  lower_bound first [] = 0
  lower_bound first (x ∷ xs) =
      let rest = lower_bound first xs in if ltb_ℤ (first_of_interval x) first then suc rest else 0

  -- `std::upper_bound` by `CmpLast`: the first position that stops after the interval.
  unfoldable pub upper_bound : ℤ → List T → ℕ
  upper_bound last [] = 0
  upper_bound last (x ∷ xs) =
      let rest = upper_bound last xs in if ltb_ℤ last (last_of_interval x) then 0 else suc rest

  -- Shrinks the interval before the insertion point to remove its overlap.
  unfoldable pub trim_previous : T → List T → List T
  trim_previous new [] = []
  trim_previous new (x ∷ []) =
      (if ltb_ℤ (first_of_interval new) (last_of_interval x)
        then I.change_to x (range (first_of_interval x) (first_of_interval new))
        else x)
      ∷ []
  trim_previous new (x ∷ y ∷ xs) = x ∷ trim_previous new (y ∷ xs)

  -- Shrinks the interval after the insertion point to remove its overlap.
  unfoldable pub trim_next : T → List T → List T
  trim_next new [] = []
  trim_next new (x ∷ xs) =
      (if ltb_ℤ (first_of_interval x) (last_of_interval new)
        then I.change_to x (range (last_of_interval new) (last_of_interval x))
        else x)
      ∷ xs

  -- The end of `AddInterval`: the neighbours are trimmed and the new interval goes between them.
  unfoldable pub place : T → List T → List T → List T
  place new before after = trim_previous new before ++ new ∷ trim_next new after

  abbrev pub insert_at : ℕ → T → List T → List T
  insert_at n t xs = take n xs ++ t ∷ drop n xs

  -- The branch `Hi < Lo`: the old interval at `hi` is chopped in two around the new one.
  unfoldable pub split_old : T → ℕ → ℕ → List T → List T
  split_old new lo hi xs = elim (get_elem? xs hi) [
    | none ↦ xs
    | some old ↦ insert_at lo new (
        insert_at lo (I.change_to old (range (last_of_interval new) (last_of_interval old)))
          (set xs hi (I.change_to old (range (first_of_interval old) (first_of_interval new)))))
  ]

  -- With `lo < hi` the intervals from `lo` up to `hi` are erased; with `lo ≡ hi` none is.
  unfoldable pub add_interval : T → List T → List T
  unfolding empty
  add_interval new [] = if empty (I.get_range new) then [] else new ∷ []
  add_interval new (x ∷ xs) =
      let lo = lower_bound (first_of_interval new) (x ∷ xs) in
      let hi = upper_bound (last_of_interval new) (x ∷ xs) in
      if empty (I.get_range new)
      then x ∷ xs
      else if ltb lo hi
      then place new (take lo (x ∷ xs)) (drop hi (x ∷ xs))
      else if ltb hi lo
      then split_old new lo hi (x ∷ xs)
      else place new (take lo (x ∷ xs)) (drop lo (x ∷ xs))

  pub get_interval : ℕ → List T → Option T
  get_interval i xs = get_elem? xs i

  pub get_num_intervals : List T → ℕ
  get_num_intervals xs = length xs

  -- The loop that merges the following intervals that start before `rounded_last`; it returns the
  -- grown interval and the intervals from `Next` on.
  unfoldable pub merge_following : ℤ → T → List T → T × List T
  merge_following rounded_last x [] = (x, [])
  merge_following rounded_last x (y ∷ ys) =
      let rest = merge_following rounded_last (I.join_with x y) ys in
      if ltb_ℤ (first_of_interval y) rounded_last then rest else (x, y ∷ ys)

  -- One round of the loop of `AlignBoundaries` at an interval and those behind it; `later` is
  -- what the remaining rounds do.
  unfoldable pub align_round : (ℤ → ℤ) → ℕ → T → List T → (List T → List T) → List T
  align_round to_u a x xs later =
      let rounded_last = round_up to_u a (last_of_interval x) in
      let aligned = range (round_down a (first_of_interval x)) rounded_last in
      let (grown, next) = merge_following rounded_last x xs in
      if range_eq (I.get_range x) aligned
      then x ∷ later xs
      else if ltb_ℤ rounded_last (last_of_interval grown)
      then I.change_to grown aligned
        ∷ later (I.change_to grown (range rounded_last (last_of_interval grown)) ∷ next)
      else I.change_to grown aligned ∷ later next

  -- The loop, with one unit of fuel for each interval still to be visited.
  unfoldable pub align_from : (ℤ → ℤ) → ℕ → ℕ → List T → List T
  unfolding align_round
  align_from to_u a zero xs = xs
  align_from to_u a (suc fuel) [] = []
  align_from to_u a (suc fuel) (x ∷ xs) = align_round to_u a x xs (align_from to_u a fuel)

  unfoldable pub align_boundaries : (ℤ → ℤ) → ℕ → List T → List T
  unfolding align_from
  align_boundaries to_u a xs = align_from to_u a (length xs) xs
