-- ===== src/Examples/Ranges.antt =====
-- Ranges and interval lists of include/dragonegg/ADT on small inputs. The intervals carry a tag.
use dragonegg.Base.{ℕ, ◌≡◌, refl, arith, true, List, [], ◌∷◌, some, if◌then◌else◌}
use dragonegg.Base.Int.{pos, ◌+ℤ◌, ◌-ℤ◌}
use dragonegg.Range.{Range, range, empty, range_eq, join}
use dragonegg.Intervals.{
  Interval, is_sane, add_interval, align_boundaries, round_down, round_up, exact, merge_following,
  align_round, align_from, lower_bound, upper_bound, split_old, place, trim_previous, trim_next,
}
use dragonegg.Intervals.Add.{add_interval-is_sane}
use dragonegg.Intervals.Owner.{has, owner, add_interval-owner}
use dragonegg.Intervals.Align.{AllAligned}
use dragonegg.Intervals.Wrapped.{align_boundaries-IsAligned}

record Tagged : Type 0 where
  tagged_range : Range
  tag : ℕ

abbrev tagged : ℕ → ℕ → ℕ → Tagged
tagged a b n = record { tagged_range = range (pos a) (pos b); tag = n }

abbrev tagged_intervals : Interval Tagged ℕ
tagged_intervals = record {
  get_range = λ (t : Tagged). t.tagged_range;
  change_to = λ (t : Tagged) (r : Range). record t { tagged_range = r };
  join_with = λ (s t : Tagged). record s { tagged_range = join s.tagged_range t.tagged_range };
  content = λ (t : Tagged). t.tag;
  get_range-change_to = λ t r. refl;
  content-change_to = λ t r. refl;
  get_range-join_with = λ s t h k. refl;
}

-- [0, 4) with tag 1 and [6, 12) with tag 2.
abbrev two_intervals : List Tagged
two_intervals = tagged 0 4 1 ∷ tagged 6 12 2 ∷ []

two_intervals-is_sane : is_sane tagged_intervals two_intervals ≡ true
unfolding is_sane empty
two_intervals-is_sane = refl

-- An interval across the gap shortens both neighbours.
add_across :
    add_interval tagged_intervals (tagged 2 8 3) two_intervals
    ≡ tagged 0 2 1 ∷ tagged 2 8 3 ∷ tagged 8 12 2 ∷ []
unfolding add_interval empty lower_bound upper_bound split_old place trim_previous trim_next
add_across = refl

-- An interval inside another splits it.
add_inside :
    add_interval tagged_intervals (tagged 8 9 3) two_intervals
    ≡ tagged 0 4 1 ∷ tagged 6 8 2 ∷ tagged 8 9 3 ∷ tagged 9 12 2 ∷ []
unfolding add_interval empty lower_bound upper_bound split_old place trim_previous trim_next
add_inside = refl

-- Aligned to 8, the first interval takes the start of the second.
align_two :
    align_boundaries tagged_intervals exact 8 two_intervals ≡ tagged 0 8 1 ∷ tagged 8 16 1 ∷ []
unfolding align_boundaries align_from align_round round_up round_down merge_following range_eq empty
    join ◌-ℤ◌ ◌+ℤ◌
align_two = refl

add_interval-is_sane_example :
    is_sane tagged_intervals (add_interval tagged_intervals (tagged 2 8 3) two_intervals) ≡ true
add_interval-is_sane_example =
    add_interval-is_sane tagged_intervals (tagged 2 8 3) two_intervals two_intervals-is_sane

add_interval-owner_example :
    owner tagged_intervals (pos 7) (add_interval tagged_intervals (tagged 2 8 3) two_intervals) ≡ (
      if has tagged_intervals (pos 7) (tagged 2 8 3)
      then some 3
      else owner tagged_intervals (pos 7) two_intervals)
add_interval-owner_example =
    add_interval-owner tagged_intervals (pos 7) (tagged 2 8 3) two_intervals two_intervals-is_sane

abbrev AnyTag : ℕ → Type 0
AnyTag n = Unit

align_boundaries-IsAligned_example :
    (is_sane tagged_intervals (align_boundaries tagged_intervals exact 8 two_intervals) ≡ true)
    × AllAligned tagged_intervals 8 (align_boundaries tagged_intervals exact 8 two_intervals)
align_boundaries-IsAligned_example =
    align_boundaries-IsAligned tagged_intervals exact 8 (pos 16) AnyTag (omega arith)
      (omega arith, refl) (λ z h k. refl) (λ s t h k o. tt) two_intervals two_intervals-is_sane
      (omega arith)

abbrev low : Range
low = range (pos 0) (pos 6)

abbrev high : Range
high = range (pos 4) (pos 10)
