-- ===== src/Examples/Unions.antt =====
-- The initializer of a union, for `ConvertRecordCONSTRUCTOR` of src/ConstantConversion.cpp.
use mathlib.Core.List.{reverse}
use dragonegg.Base.{◌≡◌, refl, true, false, none, some, List, [], ◌∷◌, ◌++◌}
use dragonegg.Base.Int.{ℤ}
use dragonegg.Base.Results.{ok}
use dragonegg.Ir.{int}
use dragonegg.Intervals.{is_sane}
use dragonegg.Intervals.Owner.{owner}
use dragonegg.Examples.Views.{Value, number, zeros, byte_sizes, values, value_makers}
use dragonegg.RecordInit.{
  FieldContents, field_contents, RecordFacts, FieldEntry, content_intervals, zero_width, zero_field,
  zero_fields, value_contents, entry_field, initial_contents, unaligned_layout,
}
use dragonegg.RecordInit.Owner.{unaligned_layout-owner}

-- A number of 32 bits and a byte at the same place, and a method between them.
abbrev union : RecordFacts
union = record {
  chain =
      some
        (record { first_bit = some 0; decl_bits = some 32; field_type = int 32; is_sized = true })
      ∷ none
      ∷ some
          (record { first_bit = some 0; decl_bits = some 8; field_type = int 8; is_sized = true })
      ∷ [];
  type_bits = 32;
  default_initialize = true;
}

-- The byte is initialized.
abbrev all_ones : Value
all_ones = number 8 (λ i. true)

abbrev byte_entry : List (FieldEntry Value)
byte_entry = record { field_index = some 2; value = all_ones } ∷ []

abbrev union_zeros : List (FieldContents Value)
union_zeros = field_contents 0 32 (zeros (int 32)) ∷ field_contents 0 8 (zeros (int 8)) ∷ []

abbrev byte_contents : List (FieldContents Value)
byte_contents = field_contents 0 8 all_ones ∷ []

union_zeros-made : zero_fields byte_sizes values value_makers false 32 union.chain ≡ ok union_zeros
unfolding zero_fields zero_field zero_width
union_zeros-made = refl

byte_contents-made :
    initial_contents byte_sizes values value_makers false 32 union.chain 0 byte_entry
    ≡ ok byte_contents
unfolding initial_contents entry_field value_contents
byte_contents-made = refl

unaligned_layout-owner_example :
    (layout : List (FieldContents Value)) × (unaligned_layout byte_sizes values value_makers false
        union byte_entry
      ≡ ok layout)
    × (is_sane (content_intervals byte_sizes values value_makers false) layout ≡ true)
    × ((p : ℤ)
        → owner (content_intervals byte_sizes values value_makers false) p layout
          ≡ owner
              (content_intervals byte_sizes values value_makers false)
              p
              (reverse byte_contents ++ union_zeros))
unaligned_layout-owner_example =
    unaligned_layout-owner byte_sizes values value_makers false union byte_entry union_zeros
      byte_contents union_zeros-made byte_contents-made
