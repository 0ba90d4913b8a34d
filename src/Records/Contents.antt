-- ===== src/Records/Contents.antt =====
-- `TypedRange` and `GetUnitType` of src/TypeConversion.cpp: a type for a range of bits, as an interval,
-- and the type that covers the bits.
use dragonegg.Base.{
  ℕ, ◌+◌, ◌*◌, ◌/◌, ◌%◌, ◌^◌, ◌≤◌, ◌<◌, ◌≡◌, refl, arith, inl, inr, Bool, true, false, not, ◌&&◌,
  Bool-cases, Option, none, some, leb, ◌==◌, if◌then◌else◌,
}
use dragonegg.Base.Int.{ℤ, pos, pos_part, neg_part_zero, eqb_ℤ, ◌≤ℤ◌, ◌<ℤ◌, ◌-ℤ◌}
use dragonegg.Base.Results.{Result, ok, unreachable}
use dragonegg.Ir.{IrType, int, array}
use dragonegg.Range.{Range, range, empty, join, intersects, get_width}
use dragonegg.Intervals.{Interval}

-- The answers of LLVM's `DataLayout`, and `getPrimitiveSizeInBits`.
pub record DataLayout : Type 0 where
  pub alloc_bits : IrType → ℕ
  pub abi_align : IrType → ℕ
  pub primitive_bits : IrType → ℕ

-- `GetUnitType`, with its `unsigned` argument.
unfoldable pub unit_type : ℕ → IrType
unit_type n = if n % 2 ^ 32 == 1 then int 8 else array (int 8) (n % 2 ^ 32)

-- A null type is `none`.
pub record TypedRange : Type 0 where
  pub bits : Range
  pub ty : Option IrType
  pub starts : ℤ

-- `TypedRange::get`.
abbrev pub typed_range : ℕ → ℕ → IrType → TypedRange
typed_range first last t = record {
  bits = range (pos first) (pos last);
  ty = some t;
  starts = pos first;
}

-- `JoinWith`: an integer type for both ranges.
unfoldable pub join_typed : TypedRange → TypedRange → TypedRange
join_typed s t = if empty t.bits then s else if empty s.bits then t else record {
  bits = join s.bits t.bits;
  ty = some (int (pos_part (get_width (join s.bits t.bits)) % 2 ^ 32));
  starts = (join s.bits t.bits).first;
}

pub get_range-join_typed :
    (s t : TypedRange)
    → intersects s.bits t.bits ≡ false
    → empty t.bits ≡ false
    → (join_typed s t).bits ≡ join s.bits t.bits
unfolding join_typed join
get_range-join_typed s t h k = ground arith

-- Typed ranges as the intervals of a layout; the content is the type.
abbrev pub typed_intervals : Interval TypedRange (Option IrType)
typed_intervals = record {
  get_range = λ (t : TypedRange). t.bits;
  change_to = λ (t : TypedRange) (r : Range). record t { bits = r };
  join_with = join_typed;
  content = λ (t : TypedRange). t.ty;
  get_range-change_to = λ t r. refl;
  content-change_to = λ t r. refl;
  get_range-join_with = get_range-join_typed;
}

-- Rounds bits up to bytes.
abbrev pub whole_bytes : ℕ → ℕ
whole_bytes n = (n + 7) / 8 * 8

module _ (d : DataLayout) where
  -- `isSafeToReturnContentsDirectly`.
  unfoldable pub is_safe : TypedRange → Bool
  is_safe f = elim f.ty [
    | none ↦ false
    | some t ↦
        if not (empty f.bits) && not (eqb_ℤ f.bits.first f.starts)
        then false
        else if not (d.primitive_bits t % 8 == 0)
        then false
        else leb (d.alloc_bits t) (pos_part (get_width f.bits))
  ]

  -- The type, if the assertion that it is safe holds.
  unfoldable pub checked : TypedRange → IrType → Result IrType
  checked f t = if is_safe (record f { ty = some t }) then ok t else unreachable

  -- An array of bytes.
  unfoldable pub as_units : TypedRange → Result IrType
  as_units f =
      checked (record f { starts = f.bits.first }) (unit_type (pos_part (get_width f.bits) / 8))

  -- What is made of a type that cannot be returned as it is.
  unfoldable pub covering : TypedRange → IrType → Result IrType
  covering f t =
      let rounded = int (whole_bytes (d.primitive_bits t)) in
      if not (d.primitive_bits t % 8 == 0) && is_safe (record f { ty = some rounded })
      then ok rounded
      else as_units f

  -- `extractContents`. That it remembers its answer has no effect, as it is called on copies.
  unfoldable pub extract_contents : TypedRange → Result IrType
  extract_contents f =
      if not (pos_part (get_width f.bits) % 8 == 0) then unreachable else elim f.ty [
        | none ↦ (if empty f.bits then checked f (unit_type 0) else unreachable)
        | some t ↦
            if is_safe f
            then ok t
            else if empty f.bits
            then checked f (unit_type 0)
            else covering f t
      ]

-- What the data layout says of bytes and of all types.
pub record LayoutRules (d : DataLayout) : Type 0 where
  pub unit_bits : (n : ℕ) → n < 2 ^ 32 → d.alloc_bits (unit_type n) ≡ 8 * n
  pub unit_align : (n : ℕ) → d.abi_align (unit_type n) ≡ 1
  pub unit_primitive : (n : ℕ) → d.primitive_bits (unit_type n) % 8 ≡ 0
  pub whole_alloc : (t : IrType) → d.alloc_bits t % 8 ≡ 0
  pub positive_align : (t : IrType) → 0 < d.abi_align t
  pub small_align : (t : IrType) → d.abi_align t < 2 ^ 29

-- The width of a range with first and last bit from zero on.
pub width-range :
    (r : Range)
    → pos 0 ≤ℤ r.first
    → r.first <ℤ r.last
    → pos_part (get_width r) + pos_part r.first ≡ pos_part r.last
unfolding get_width empty ◌-ℤ◌
width-range r h k = ground (arith, neg_part_zero r.first h, neg_part_zero r.last (omega arith))

module _ (d : DataLayout) (l : LayoutRules d) where
  is_safe-le :
      (f : TypedRange) (t : IrType)
      → f.ty ≡ some t
      → is_safe d f ≡ true
      → d.alloc_bits t ≤ pos_part (get_width f.bits)
  unfolding is_safe
  is_safe-le f t e s = ground arith

  as_units-fits :
      (f : TypedRange)
      → pos_part (get_width f.bits) % 8 ≡ 0
      → pos_part (get_width f.bits) < 2 ^ 35
      → (u : IrType) × (as_units d f ≡ ok u) × (d.alloc_bits u ≤ pos_part (get_width f.bits))
  unfolding as_units checked is_safe
  as_units-fits f w k =
      let n = pos_part (get_width f.bits) / 8 in
      let bits = l.unit_bits n (omega arith) in
      (unit_type n, ground (arith, l.unit_primitive n, bits), omega (arith, bits))

  covering-fits :
      (f : TypedRange) (t : IrType)
      → pos_part (get_width f.bits) % 8 ≡ 0
      → pos_part (get_width f.bits) < 2 ^ 35
      → (u : IrType) × (covering d f t ≡ ok u) × (d.alloc_bits u ≤ pos_part (get_width f.bits))
  unfolding covering
  covering-fits f t w k =
      let rounded = int (whole_bytes (d.primitive_bits t)) in
      elim (Bool-cases
        (not (d.primitive_bits t % 8 == 0) && is_safe d (record f { ty = some rounded }))) [
          | inl c ↦ (
            rounded,
            rw c refl,
            is_safe-le (record f { ty = some rounded }) rounded refl (ground arith),
          )
          | inr c ↦ let (u, e, b) = as_units-fits f w k in (u, rw c e, b)
        ]

  -- A range of whole bytes with a type gives a type no larger than itself.
  pub extract_contents-fits :
      (f : TypedRange) (t : IrType)
      → f.ty ≡ some t
      → empty f.bits ≡ false
      → pos_part (get_width f.bits) % 8 ≡ 0
      → pos_part (get_width f.bits) < 2 ^ 35
      → (u : IrType) × (extract_contents d f ≡ ok u)
        × (d.alloc_bits u ≤ pos_part (get_width f.bits))
  unfolding extract_contents
  extract_contents-fits f t e n w k = elim (Bool-cases (is_safe d f)) [
    | inl s ↦ (t, ground (arith, e), is_safe-le f t e s)
    | inr s ↦ let (u, c, b) = covering-fits f t w k in (u, ground (arith, e, c), b)
  ]
