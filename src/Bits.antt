-- ===== src/Bits.antt =====
-- `BitSlice` of src/ConstantConversion.cpp: a contiguous range of bits with its contents, an LLVM
-- constant of integer type. The constants and LLVM's constant folder are the parameter `Folder`,
-- with the meaning that LLVM documents for its operations; `none` is the null constant.
pub mod Extend
pub mod Hull
use dragonegg.Base.{
  ℕ, ◌+◌, ◌-◌, ◌≤◌, ◌<◌, ◌≡◌, Bool, true, false, not, ◌&&◌, ◌||◌, Option, none, some, ltb, ◌==◌,
  if◌then◌else◌,
}
use dragonegg.Base.Int.{ℤ, pos, pos_part, ◌-ℤ◌}
use dragonegg.Base.Results.{Result, ok, unreachable, ◌>>=◌}
use dragonegg.Range.{
  Range, range, no_range, empty, range_eq, contains, intersects, displace, join, get_width,
}

-- Integer constants by width and bits, and the folder's operations on them.
pub record Folder (C : Type 0) : Type 0 where
  pub width : C → ℕ
  -- bit 0 is the least significant one
  pub bit : C → ℕ → Bool
  pub null_value : ℕ → C
  pub undef_value : ℕ → C
  pub create_zext : C → ℕ → C
  pub create_trunc : C → ℕ → C
  pub create_shl : C → ℕ → C
  pub create_lshr : C → ℕ → C
  pub create_or : C → C → C
  pub width-null_value : (w : ℕ) → width (null_value w) ≡ w
  pub width-undef_value : (w : ℕ) → width (undef_value w) ≡ w
  pub width-zext : (c : C) (w : ℕ) → width c ≤ w → width (create_zext c w) ≡ w
  pub width-trunc : (c : C) (w : ℕ) → w ≤ width c → width (create_trunc c w) ≡ w
  pub width-shl : (c : C) (n : ℕ) → width (create_shl c n) ≡ width c
  pub width-lshr : (c : C) (n : ℕ) → width (create_lshr c n) ≡ width c
  pub width-or : (c d : C) → width c ≡ width d → width (create_or c d) ≡ width c
  pub bit-null_value : (w i : ℕ) → bit (null_value w) i ≡ false
  pub bit-zext :
      (c : C) (w i : ℕ)
      → width c ≤ w
      → bit (create_zext c w) i ≡ (if ltb i (width c) then bit c i else false)
  pub bit-trunc : (c : C) (w i : ℕ) → w ≤ width c → i < w → bit (create_trunc c w) i ≡ bit c i
  pub bit-shl :
      (c : C) (n i : ℕ)
      → n < width c
      → i < width c
      → bit (create_shl c n) i ≡ (if ltb i n then false else bit c (i - n))
  pub bit-lshr :
      (c : C) (n i : ℕ) → n < width c → i + n < width c → bit (create_lshr c n) i ≡ bit c (i + n)
  pub bit-or : (c d : C) (i : ℕ) → width c ≡ width d → bit (create_or c d) i ≡ (bit c i || bit d i)

pub record BitSlice (C : Type 0) : Type 0 where
  pub slice_range : Range
  pub contents : Option C

-- `(unsigned)(a - b)`, where the code made sure that this is not negative.
abbrev pub delta : ℤ → ℤ → ℕ
delta a b = pos_part (a -ℤ b)

module _ {C : Type 0} (F : Folder C) (big_endian : Bool) where
  abbrev pub is_some_of_width : ℕ → Option C → Bool
  is_some_of_width w none = false
  is_some_of_width w (some c) = w == F.width c

  -- `contentsValid`.
  unfoldable pub contents_valid : BitSlice C → Bool
  contents_valid s =
      if empty s.slice_range
      then elim s.contents [ none ↦ true | some c ↦ false ]
      else is_some_of_width (pos_part (get_width s.slice_range)) s.contents

  -- The two places where the contents move: up into a wider constant, and down before it is cut.
  unfoldable pub shift_up : Range → Range → C → C
  shift_up old new c =
      let delta_first = delta old.first new.first in
      let delta_last = delta new.last old.last in
      if big_endian && ltb 0 delta_last
      then F.create_shl c delta_last
      else if not big_endian && ltb 0 delta_first
      then F.create_shl c delta_first
      else c

  unfoldable pub shift_down : Range → Range → C → C
  shift_down old new c =
      let delta_first = delta new.first old.first in
      let delta_last = delta old.last new.last in
      if big_endian && ltb 0 delta_last
      then F.create_lshr c delta_last
      else if not big_endian && ltb 0 delta_first
      then F.create_lshr c delta_first
      else c

  -- `ExtendRange`. A null constant of a slice that is not empty is out of the code's reach.
  unfoldable pub extend_range : BitSlice C → Range → Result (BitSlice C)
  extend_range s r =
      let w = delta r.last r.first in
      if not (contains r s.slice_range)
      then unreachable
      else if range_eq s.slice_range r
      then ok s
      else if empty s.slice_range
      then ok (record { slice_range = r; contents = some (F.null_value w) })
      else elim s.contents [
        | none ↦ unreachable
        | some c ↦ ok (record {
          slice_range = r;
          contents = some (shift_up s.slice_range r (F.create_zext c w));
        })
      ]

  -- `ReduceRange`.
  unfoldable pub reduce_range : BitSlice C → Range → Result (BitSlice C)
  reduce_range s r =
      let w = delta r.last r.first in
      if not (contains s.slice_range r)
      then unreachable
      else if range_eq s.slice_range r
      then ok s
      else if empty r
      then ok (record { slice_range = no_range; contents = none })
      else elim s.contents [
        | none ↦ unreachable
        | some c ↦ ok (record {
          slice_range = r;
          contents = some (F.create_trunc (shift_down s.slice_range r c) w);
        })
      ]

  -- `getBits`.
  unfoldable pub get_bits : BitSlice C → Range → Result (Option C)
  get_bits s r =
      if empty r
      then unreachable
      else if range_eq s.slice_range r
      then ok s.contents
      else if empty s.slice_range
      then ok (some (F.undef_value (delta r.last r.first)))
      else (extend_range s (join s.slice_range r) >>= λ wide.
          reduce_range wide r >>= λ cut. ok cut.contents)

  -- Joins the contents of two extended slices.
  abbrev pub or_contents : Option C → Option C → Result (Option C)
  or_contents (some c) (some d) = ok (some (F.create_or c d))
  or_contents c d = unreachable

  -- `Merge`: what the slice is afterwards.
  unfoldable pub merge : BitSlice C → BitSlice C → Result (BitSlice C)
  merge s t =
      if empty t.slice_range
      then ok s
      else if empty s.slice_range
      then ok t
      else if intersects s.slice_range t.slice_range
      then unreachable
      else (extend_range s (join s.slice_range t.slice_range) >>= λ a.
          extend_range t (join s.slice_range t.slice_range) >>= λ b.
          or_contents a.contents b.contents >>= λ c.
          ok (record { slice_range = join s.slice_range t.slice_range; contents = c }))

  -- `Displace`.
  unfoldable pub displace_slice : BitSlice C → ℤ → BitSlice C
  displace_slice s offset = record {
    slice_range = displace s.slice_range offset;
    contents = s.contents;
  }

  -- Where the contents of a slice of a range hold the bit at a position.
  unfoldable pub bit_index : Range → ℤ → ℕ
  bit_index r p = if big_endian then delta r.last p - 1 else delta p r.first

  -- The bit that a slice holds at a position of its range.
  unfoldable pub bit_at : BitSlice C → ℤ → Bool
  bit_at s p = elim s.contents [ none ↦ false | some c ↦ F.bit c (bit_index s.slice_range p) ]
