-- ===== src/Range/Members.antt =====
-- What the operations of include/dragonegg/ADT/Range.h mean for the integers in a range.
use dragonegg.Base.{◌≡◌, ◌↔◌, ◌⊎◌, true, false, arith}
use dragonegg.Base.Int.{pos, ◌-ℤ◌, -ℤ_parts, ℤ, ◌+ℤ◌, ◌≤ℤ◌, ◌<ℤ◌, +ℤ_parts}
use dragonegg.Range.{range_eq, Range, empty, contains, intersects, displace, join, meet}

-- An integer is in the range.
abbrev pub In : ℤ → Range → Type 0
In x r = (r.first ≤ℤ x) × (x <ℤ r.last)

-- A range is empty exactly when no integer is in it.
pub empty-In : (r : Range) → (empty r ≡ true) ↔ ((x : ℤ) → ¬ (In x r))
unfolding empty
empty-In r = (λ h x. ground arith, λ all. ground (arith, all r.first))

-- The intersection has exactly the integers that both ranges have.
pub meet-In : (r s : Range) (x : ℤ) → In x (meet r s) ↔ (In x r × In x s)
unfolding meet
meet-In r s x = ground arith

-- Two ranges intersect exactly when the intersection is not empty.
pub intersects-meet : (r s : Range) → (intersects r s ≡ true) ↔ (empty (meet r s) ≡ false)
unfolding intersects meet
intersects-meet r s = ground arith

-- The join has every integer of either range.
pub join-In : (r s : Range) (x : ℤ) → In x r ⊎ In x s → In x (join r s)
unfolding join
join-In r s x h = ground arith

-- The join is the smallest range above both.
pub join-least :
    (r s t : Range) → contains t r ≡ true → contains t s ≡ true → contains t (join r s) ≡ true
unfolding join contains
join-least r s t h k = ground arith

-- One range contains another exactly when it has every integer of it.
pub contains-In : (r s : Range) → (contains r s ≡ true) ↔ ((x : ℤ) → In x s → In x r)
unfolding contains empty
contains-In r s = (
  λ h x k. ground arith,
  λ all. ground (arith, all s.first, all (s.last -ℤ pos 1), -ℤ_parts s.last (pos 1)),
)

-- Displacing a range moves exactly its integers by the offset.
pub displace-In : (r : Range) (k x : ℤ) → In x r ↔ In (x +ℤ k) (displace r k)
unfolding displace empty
displace-In r k x = ground (arith, +ℤ_parts r.first k, +ℤ_parts r.last k, +ℤ_parts x k)

-- Two ranges are equal for the code exactly when they have the same integers.
pub range_eq-In : (r s : Range) → (range_eq r s ≡ true) ↔ ((x : ℤ) → In x r ↔ In x s)
unfolding range_eq empty
range_eq-In r s = (
  λ h x. ground arith,
  λ all. ground (
    arith,
    all r.first,
    all s.first,
    all (r.last -ℤ pos 1),
    all (s.last -ℤ pos 1),
    -ℤ_parts r.last (pos 1),
    -ℤ_parts s.last (pos 1),
  ),
)
