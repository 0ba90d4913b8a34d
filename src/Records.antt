-- ===== src/Records.antt =====
-- The layout of record and union types in src/TypeConversion.cpp: `TypedRange`, `GetUnitType` and
-- `ConvertRecordTypeRecursive`. The data layout's answers are the parameter `DataLayout`; a byte has
-- 8 bits. Sums of `uint64_t` are reduced modulo 2 ^ 64, and arguments of `unsigned` modulo 2 ^ 32.
pub mod Contents
pub mod Fields
pub mod Placement
pub mod Elements
use mathlib.Core.List.{reverse}
use dragonegg.Base.{
  ℕ, zero, suc, ◌+◌, ◌-◌, ◌*◌, ◌/◌, ◌%◌, ◌^◌, ◌≡◌, refl, Bool, true, false, not, ◌&&◌, ◌||◌, List,
  [], ◌∷◌, ◌++◌, Option, none, some, ltb, leb, ◌==◌, if◌then◌else◌,
}
use dragonegg.Base.Int.{ℤ, pos, negsuc, pos_part, eqb_ℤ}
use dragonegg.Base.Results.{Result, ok, unreachable, ◌>>=◌}
use dragonegg.Ir.{IrType, int, array, struct_of}
use dragonegg.Range.{Range, range, empty, join, get_width}
use dragonegg.Intervals.{Interval, add_interval, align_boundaries}
use dragonegg.Records.Contents.{
  DataLayout, TypedRange, typed_range, typed_intervals, unit_type, extract_contents,
}

-- A `FIELD_DECL`: `DECL_FIELD_OFFSET` and `DECL_FIELD_BIT_OFFSET` if both are constant,
-- `DECL_SIZE` if it is, and the converted type.
pub record RecordField : Type 0 where
  pub position : Option (ℕ × ℕ)
  pub decl_bits : Option ℕ
  pub field_ir : IrType
  -- `isSized` of that type
  pub is_sized : Bool

pub record RecordType : Type 0 where
  -- `TYPE_SIZE`, if it is a constant of 64 bits
  pub size_bits : Option ℕ
  pub is_qual_union : Bool
  -- `TYPE_ALIGN`
  pub align_bits : ℕ
  pub fields : List RecordField

-- `isInt64(DECL_SIZE(field), true)`.
abbrev pub is_known : Option ℕ → Bool
is_known none = false
is_known (some n) = true

-- `getFieldOffsetInBits` of src/Trees.cpp.
unfoldable pub field_offset_in_bits : ℕ × ℕ → ℕ
field_offset_in_bits (offset, bit_offset) = (bit_offset + offset * 8) % 2 ^ 64

abbrev pub infinite : ℕ
infinite = 2 ^ 64 - 1

-- "Infinitely" big if the size is not constant.
abbrev pub type_size : RecordType → ℕ
type_size t = elim t.size_bits [ none ↦ infinite | some n ↦ n ]

-- The fields with a known position, with the first bit of each.
unfoldable pub positioned : List RecordField → List (ℕ × RecordField)
positioned [] = []
positioned (f ∷ fs) = elim f.position [
  | none ↦ positioned fs
  | some p ↦ (field_offset_in_bits p, f) ∷ positioned fs
]

module _ (d : DataLayout) where
  unfoldable pub field_width : ℕ → ℕ → RecordField → ℕ
  field_width size first f = elim f.decl_bits [
    | some w ↦ w
    | none ↦
        if ltb size ((first + d.alloc_bits f.field_ir) % 2 ^ 64)
        then size - first
        else d.alloc_bits f.field_ir
  ]

  -- The range of bits that a field is recorded at, with its type.
  unfoldable pub field_interval : RecordType → ℕ × RecordField → Result TypedRange
  field_interval t (first, f) =
      let last = (first + field_width (type_size t) first f) % 2 ^ 64 in
      if ltb (type_size t) first
      then unreachable
      else if not (is_known f.decl_bits || f.is_sized)
      then unreachable
      else if ltb (type_size t) last
      then (if t.is_qual_union
          then ok (typed_range first (type_size t) f.field_ir)
          else unreachable)
      else ok (typed_range first last f.field_ir)

  -- The loop over the fields, which the caller reverses.
  unfoldable pub add_fields :
      RecordType → List (ℕ × RecordField) → List TypedRange → Result (List TypedRange)
  add_fields t [] layout = ok layout
  add_fields t (f ∷ fs) layout =
      field_interval t f >>= λ r. add_fields t fs (add_interval typed_intervals r layout)

  -- An integer as a `uint64_t`.
  abbrev pub to_uint64 : ℤ → ℤ
  to_uint64 (pos n) = pos (n % 2 ^ 64)
  to_uint64 (negsuc n) = pos (2 ^ 64 - 1 - n % 2 ^ 64)

  -- The layout: all fields in reverse order, aligned to bytes.
  unfoldable pub field_layout : RecordType → Result (List TypedRange)
  field_layout t = add_fields t (reverse (positioned t.fields)) [] >>= λ l.
      ok (align_boundaries typed_intervals to_uint64 8 l)

  -- The alignment of a type in bits, an `unsigned`.
  abbrev pub alignment : IrType → ℕ
  alignment ty = d.abi_align ty * 8 % 2 ^ 32

  -- The loop that finds out whether a packed struct is needed.
  unfoldable pub needs_pack : ℕ → List TypedRange → Result Bool
  needs_pack max_align [] = ok false
  needs_pack max_align (r ∷ rs) =
      let rest = needs_pack max_align rs in
      extract_contents d r >>= λ ty.
      if ltb max_align (alignment ty) || not (pos_part r.bits.first % alignment ty == 0)
      then ok true
      else rest

  -- Whether a gap before an element is to be filled.
  unfoldable pub needs_padding : Bool → ℕ → ℕ → IrType → Bool
  needs_padding packed previous first ty =
      let a = alignment ty in
      if packed then true else not (first == (previous + a - 1) % 2 ^ 64 / a * a)

  -- The padding between two offsets.
  unfoldable pub padding : ℕ → ℕ → Result (List IrType)
  padding previous first =
      if (first - previous) % 8 == 0
      then ok (unit_type ((first - previous) / 8) ∷ [])
      else unreachable

  unfoldable pub gap : Bool → ℕ → ℕ → IrType → Result (List IrType)
  gap packed previous first ty =
      if ltb previous first && needs_padding packed previous first ty
      then padding previous first
      else ok []

  -- The loop that makes the elements, from an end of the previous one; with the end of the last.
  unfoldable pub elements : Bool → ℕ → List TypedRange → Result (List IrType × ℕ)
  elements packed previous [] = ok ([], previous)
  elements packed previous (r ∷ rs) = extract_contents d r >>= λ ty.
      let first = pos_part r.bits.first in
      let rest = elements packed ((first + d.alloc_bits ty) % 2 ^ 64) rs in
      if ltb first previous
      then unreachable
      else (gap packed previous first ty >>= λ pad.
          rest >>= λ (elts, end_of_previous). ok (pad ++ ty ∷ elts, end_of_previous))

  -- The padding at the end, if the size is known.
  unfoldable pub tail_padding : ℕ → ℕ → Result (List IrType)
  tail_padding size end_of_previous =
      if not (size == infinite) && ltb end_of_previous size
      then padding end_of_previous size
      else ok []

  -- `ConvertRecordTypeRecursive`: what the placeholder's body is set to; `placeholder` says whether
  -- the type's cached conversion is an opaque struct.
  unfoldable pub convert_record : Bool → RecordType → Result IrType
  convert_record placeholder t = field_layout t >>= λ layout.
      needs_pack t.align_bits layout >>= λ packed.
      elements packed 0 layout >>= λ (elts, end_of_previous).
      tail_padding (type_size t) end_of_previous >>= λ pad.
      if placeholder then ok (struct_of packed (elts ++ pad)) else unreachable
