-- ===== src/Range.antt =====
-- include/dragonegg/ADT/Range.h: the interval [First, Last), here over the integers. The template
-- is used at `int` and `uint64_t` with bit offsets, and nothing here models a wrapped sum; the
-- code asserts that `Displace` does not wrap. The getters return `none` where the code asserts.
pub mod Members
use dragonegg.Base.{Option, none, some, Bool, true, false, ◌&&◌, ◌||◌, if◌then◌else◌}
use dragonegg.Base.Int.{ℤ, pos, ◌+ℤ◌, ◌-ℤ◌, ltb_ℤ, leb_ℤ, eqb_ℤ}

pub record Range : Type 0 where
  pub first : ℤ
  pub last : ℤ

abbrev pub range : ℤ → ℤ → Range
range a b = record { first = a; last = b }

-- The default constructor.
abbrev pub no_range : Range
no_range = range (pos 0) (pos 0)

unfoldable pub empty : Range → Bool
empty r = leb_ℤ r.last r.first

unfoldable pub range_eq : Range → Range → Bool
unfolding empty
range_eq r s = (empty r && empty s) || (eqb_ℤ r.first s.first && eqb_ℤ r.last s.last)

unfoldable pub get_first : Range → Option ℤ
unfolding empty
get_first r = if empty r then none else some r.first

unfoldable pub get_last : Range → Option ℤ
unfolding empty
get_last r = if empty r then none else some r.last

unfoldable pub get_width : Range → ℤ
unfolding empty
get_width r = if empty r then pos 0 else r.last -ℤ r.first

unfoldable pub contains : Range → Range → Bool
unfolding empty
contains r s =
    if empty s
    then true
    else if empty r
    then false
    else leb_ℤ r.first s.first && leb_ℤ s.last r.last

unfoldable pub intersects : Range → Range → Bool
unfolding empty
intersects r s = if empty r || empty s then false else ltb_ℤ s.first r.last && ltb_ℤ r.first s.last

unfoldable pub displace : Range → ℤ → Range
unfolding empty
displace r offset = if empty r then no_range else range (r.first +ℤ offset) (r.last +ℤ offset)

unfoldable pub join : Range → Range → Range
unfolding empty
join r s =
    if empty r
    then s
    else if empty s
    then r
    else range (if ltb_ℤ r.first s.first then r.first else s.first)
        (if ltb_ℤ s.last r.last then r.last else s.last)

unfoldable pub meet : Range → Range → Range
unfolding empty
meet r s =
    if empty r || empty s
    then no_range
    else range (if ltb_ℤ s.first r.first then r.first else s.first)
        (if ltb_ℤ r.last s.last then r.last else s.last)
