-- ===== src/Examples/Layouts.antt =====
-- The layout of a record of src/TypeConversion.cpp, on a machine in whose layout arrays are of bytes.
use dragonegg.Base.{
  ◌+◌, ◌*◌, ◌/◌, ◌%◌, ◌^◌, ◌<◌, ◌≡◌, refl, arith, Bool, true, false, List, [], ◌∷◌, Option, none,
  some, ltb, if◌then◌else◌,
}
use dragonegg.Base.Int.{pos}
use dragonegg.Base.Results.{ok}
use dragonegg.Ir.{IrType, int, array, struct_of}
use dragonegg.Intervals.Sane.{All}
use dragonegg.Intervals.Bounded.{Bounded, JoinKeeps}
use dragonegg.Intervals.Wrapped.{align_boundaries-Bounded}
use dragonegg.Intervals.{exact, align_boundaries}
use dragonegg.Records.{
  RecordType, field_layout, convert_record, field_offset_in_bits, positioned, field_width,
}
use dragonegg.Records.Contents.{
  DataLayout, LayoutRules, TypedRange, typed_range, typed_intervals, unit_type,
}
use dragonegg.Records.Fields.{field_fits}
use dragonegg.Records.Placement.{end_of}
use dragonegg.Records.Elements.{InPlace, convert_record-InPlace}

abbrev pub small_layout : DataLayout
small_layout = record {
  alloc_bits = λ (t : IrType). elim t [ int w ↦ (w + 7) / 8 * 8 | array u n ↦ 8 * n | _ ↦ 64 ];
  abi_align = λ (t : IrType). elim t [ int w ↦ if ltb w 9 then 1 else 4 | array u n ↦ 1 | _ ↦ 8 ];
  primitive_bits = λ (t : IrType). elim t [ int w ↦ w | _ ↦ 0 ];
}

pub small_layout-LayoutRules : LayoutRules small_layout
unfolding unit_type
small_layout-LayoutRules = record {
  unit_bits = λ n h. ground arith;
  unit_align = λ n. ground arith;
  unit_primitive = λ n. ground arith;
  whole_alloc = λ t. elim t as (λ u. small_layout.alloc_bits u % 8 ≡ 0) [
    | int w ↦ omega arith
    | array u n ↦ omega arith
    | _ ↦ refl
  ];
  positive_align =
      λ t. elim t as (λ u. 0 < small_layout.abi_align u) [ int w ↦ ground arith | _ ↦ omega arith ];
  small_align = λ t. elim t as (λ u. small_layout.abi_align u < 2 ^ 29) [
    | int w ↦ ground arith
    | _ ↦ omega arith
  ];
}

-- A byte, five bits from bit 11 on, and an integer at byte 4.
abbrev three_fields : RecordType
three_fields = record {
  size_bits = some 64;
  is_qual_union = false;
  align_bits = 32;
  fields =
      record { position = some (0, 0); decl_bits = some 8; field_ir = int 8; is_sized = true }
      ∷ record { position = some (0, 11); decl_bits = some 5; field_ir = int 32; is_sized = true }
      ∷ record { position = some (4, 0); decl_bits = none; field_ir = int 32; is_sized = true }
      ∷ [];
}

three_fields_fit :
    All (λ f. field_fits small_layout three_fields f ≡ true) (positioned three_fields.fields)
unfolding positioned field_fits field_width field_offset_in_bits
three_fields_fit = (refl, (refl, (refl, tt)))

convert_record-InPlace_example :
    (layout : List TypedRange) × (packed : Bool) × (elts : List IrType) × (field_layout small_layout
        three_fields
      ≡ ok layout)
    × (convert_record small_layout true three_fields ≡ ok (struct_of packed elts))
    × (end_of small_layout packed 0 elts ≡ 64)
    × All (InPlace small_layout packed 0 elts) layout
convert_record-InPlace_example =
    convert_record-InPlace small_layout small_layout-LayoutRules three_fields (omega arith) refl
      three_fields_fit

-- An interval across the end of another, from zero to a multiple of 8, with any content.
abbrev byte_range : TypedRange
byte_range = typed_range 0 8 (int 8)

abbrev odd_range : TypedRange
odd_range = typed_range 9 14 (int 32)

abbrev Anything : Option IrType → Type 0
Anything o = Unit

anything-JoinKeeps : JoinKeeps typed_intervals 8 (pos 16) Anything
anything-JoinKeeps s t h k o = tt

align_boundaries-Bounded_example :
    All
      (Bounded typed_intervals (pos 0) (pos 16) Anything)
      (align_boundaries typed_intervals exact 8 (byte_range ∷ odd_range ∷ []))
align_boundaries-Bounded_example =
    align_boundaries-Bounded typed_intervals exact 8 (pos 16) Anything (omega arith) (omega arith)
      (λ z h k. refl) anything-JoinKeeps (pos 0) (byte_range ∷ odd_range ∷ []) (omega arith)
      (omega arith)
