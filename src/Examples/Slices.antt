-- ===== src/Examples/Slices.antt =====
-- Bit slices of src/ConstantConversion.cpp, with bits as functions for LLVM's integer constants.
use dragonegg.Base.{
  ℕ, ◌+◌, ◌-◌, ◌≡◌, refl, arith, Bool, true, false, ◌&&◌, ◌||◌, some, ltb, ◌==◌, if◌then◌else◌,
}
use dragonegg.Base.Int.{pos, ◌-ℤ◌}
use dragonegg.Base.Results.{ok}
use dragonegg.Range.{range, empty, range_eq, join, intersects, get_width}
use dragonegg.Bits.{Folder, BitSlice, delta, contents_valid, get_bits, merge, bit_index, bit_at}
use dragonegg.Bits.Extend.{has_bit}
use dragonegg.Bits.Hull.{get_bits-bit_at, merge-bit_at}

record Constant : Type 0 where
  size : ℕ
  digit : ℕ → Bool

abbrev constant : ℕ → (ℕ → Bool) → Constant
constant w f = record { size = w; digit = f }

abbrev bit_folder : Folder Constant
bit_folder = record {
  width = λ (c : Constant). c.size;
  bit = λ (c : Constant) (i : ℕ). c.digit i;
  null_value = λ (w : ℕ). constant w (λ i. false);
  undef_value = λ (w : ℕ). constant w (λ i. true);
  create_zext =
      λ (c : Constant) (w : ℕ). constant w (λ i. if ltb i c.size then c.digit i else false);
  create_trunc = λ (c : Constant) (w : ℕ). constant w c.digit;
  create_shl =
      λ (c : Constant) (n : ℕ). constant c.size (λ i. if ltb i n then false else c.digit (i - n));
  create_lshr = λ (c : Constant) (n : ℕ).
      constant c.size (λ i. if ltb (i + n) c.size then c.digit (i + n) else false);
  create_or = λ (c d : Constant). constant c.size (λ i. c.digit i || d.digit i);
  width-null_value = λ w. refl;
  width-undef_value = λ w. refl;
  width-zext = λ c w h. refl;
  width-trunc = λ c w h. refl;
  width-shl = λ c n. refl;
  width-lshr = λ c n. refl;
  width-or = λ c d h. refl;
  bit-null_value = λ w i. refl;
  bit-zext = λ c w i h. refl;
  bit-trunc = λ c w i h k. refl;
  bit-shl = λ c n i h k. refl;
  bit-lshr = λ c n i h k. ground arith;
  bit-or = λ c d i h. refl;
}

abbrev slice : ℕ → ℕ → (ℕ → Bool) → BitSlice Constant
slice a b f = record { slice_range = range (pos a) (pos b); contents = some (constant (b - a) f) }

-- Bits 4 to 8, of which bit 5 is set, and bits 10 to 12, all set.
abbrev low_slice : BitSlice Constant
low_slice = slice 4 8 (λ i. i == 1)

abbrev high_slice : BitSlice Constant
high_slice = slice 10 12 (λ i. true)

low_slice-valid : contents_valid bit_folder false low_slice ≡ true
unfolding contents_valid empty get_width ◌-ℤ◌
low_slice-valid = refl

high_slice-valid : contents_valid bit_folder false high_slice ≡ true
unfolding contents_valid empty get_width ◌-ℤ◌
high_slice-valid = refl

get_bits-bit_at_example :
    (c : Constant) × (get_bits bit_folder false low_slice (range (pos 5) (pos 7)) ≡ ok (some c))
    × (c.size ≡ delta (pos 7) (pos 5))
    × (c.digit (bit_index bit_folder false (range (pos 5) (pos 7)) (pos 5))
        ≡ bit_at bit_folder false low_slice (pos 5))
get_bits-bit_at_example =
    get_bits-bit_at bit_folder false low_slice (range (pos 5) (pos 7)) (pos 5) low_slice-valid
      (omega arith) (omega arith)

slices_are_disjoint : intersects low_slice.slice_range high_slice.slice_range ≡ false
unfolding intersects empty
slices_are_disjoint = refl

merge-bit_at_example :
    (u : BitSlice Constant) × (merge bit_folder false low_slice high_slice ≡ ok u)
    × (contents_valid bit_folder false u ≡ true)
    × (range_eq u.slice_range (join low_slice.slice_range high_slice.slice_range) ≡ true)
    × (bit_at bit_folder false u (pos 11) ≡ (
        has_bit low_slice.slice_range (pos 11) && bit_at bit_folder false low_slice (pos 11)
        || has_bit high_slice.slice_range (pos 11) && bit_at bit_folder false high_slice (pos 11)))
merge-bit_at_example =
    merge-bit_at bit_folder false low_slice high_slice (pos 11) low_slice-valid high_slice-valid
      slices_are_disjoint (unfold join empty in omega arith)
