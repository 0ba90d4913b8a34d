-- ===== src/Examples/Initializers.antt =====
-- Initializers of arrays, records and strings of src/ConstantConversion.cpp. A constant is its type and a
-- number; a struct's type is that of its bytes.
use dragonegg.Base.{
  ◌^◌, ℕ, ◌+◌, ◌/◌, ◌≤◌, ◌<◌, ◌≡◌, refl, arith, Bool, false, some, List, [], ◌∷◌, ◌++◌, length,
}
use dragonegg.Base.Int.{pos, ◌-ℤ◌}
use dragonegg.Base.Results.{ok}
use dragonegg.Ir.{IrType, int, array}
use dragonegg.Records.Contents.{unit_type}
use dragonegg.Examples.Layouts.{small_layout, small_layout-LayoutRules}
use dragonegg.ArrayInit.{
  initialized, no_index, index_range, Entry, ArrayFacts, ValueMaker, pad_element, filled_range,
  zero_indexed, array_elements, place_entries, fill_range, write_elements, tail_units,
}
use dragonegg.ArrayInit.Cover.{MakerSizes, total_size, array_elements-cover}

abbrev Value : Type 0
Value = IrType × ℕ

abbrev bits_of : List Value → ℕ
bits_of [] = 0
bits_of (k ∷ ks) = small_layout.alloc_bits k.0 + bits_of ks

abbrev values : ValueMaker Value
values = record {
  type_of = λ (k : Value). k.0;
  default_value = λ (t : IrType). (t, 0);
  anonymous_struct = λ (p : Bool) (ks : List Value). (array (int 8) ((bits_of ks + 7) / 8), 0);
  array_of = λ (t : IrType) (ks : List Value). (array t (length ks), 0);
  vector_of = λ (ks : List Value). (array (int 8) (length ks), 0);
}

total_size-bits_of : (ks : List Value) → total_size small_layout values ks ≡ bits_of ks
total_size-bits_of [] = refl
total_size-bits_of (k ∷ ks) = omega (arith, total_size-bits_of ks)

value_sizes : MakerSizes small_layout values
value_sizes = record {
  type_of-default_value = λ t. refl;
  struct-size = λ p ks. omega (arith, total_size-bits_of ks);
}

-- Four elements of 32 bits: the first two are 7, the third is a number of 16 bits.
abbrev four : ArrayFacts
four = record {
  init_type = array (int 8) 16;
  elt_type = int 32;
  type_elts = some 4;
  lower_bound = pos 1;
  type_align = 32;
  is_vector_type = false;
}

abbrev three_values : List (Entry Value)
three_values =
    record { elt_index = index_range (pos 1) (pos 2); elt_value = (int 32, 7) }
    ∷ record { elt_index = no_index; elt_value = (int 16, 5) }
    ∷ []

four_elements-few : (n : ℕ) → some 4 ≡ some n → n < 2 ^ 32
four_elements-few n e = ground arith

abbrev four_elements : List Value
four_elements = (int 32, 7) ∷ (int 32, 7) ∷ (array (int 8) 4, 0) ∷ (int 32, 0) ∷ []

four_elements-made : array_elements small_layout values four three_values ≡ ok four_elements
unfolding array_elements initialized place_entries fill_range write_elements pad_element
    filled_range zero_indexed unit_type ◌-ℤ◌
four_elements-made = refl

array_elements-cover_example :
    (padding : List Value) × (tail_units small_layout values 32 128 4 ≡ ok padding)
    × (128 ≤ total_size small_layout values (four_elements ++ padding))
array_elements-cover_example =
    array_elements-cover small_layout small_layout-LayoutRules values value_sizes four three_values
      four_elements (omega arith) (omega arith) four_elements-few four_elements-made
