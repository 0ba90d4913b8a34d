-- ===== src/Examples/Constants.antt =====
-- Integer constants and names of src/Trees.cpp, with numbers for LLVM's integers.
use native.Mathlib.Nat.{mod-lt, mod-eq_of_lt, one-le-pow, pow-le-pow_right}
use dragonegg.Base.{
  List, [], ◌∷◌, ℕ, ◌+◌, ◌-◌, ◌*◌, ◌%◌, ◌^◌, ◌≤◌, ◌<◌, ◌≡◌, refl, arith, inl, inr, true, false,
  ◌&&◌, Bool-cases, some, ltb, ◌==◌, if◌then◌else◌,
}
use dragonegg.Names.{
  NamedTree, no_tree, identifier, type_tree, array_type, pointer_type, record_type, is_empty_text,
  concat_if_not_empty, deduced_name, get_descriptive_name, is_empty_text-get_descriptive_name,
}
use dragonegg.Base.Int.{negsuc, ◌-ℤ◌}
use dragonegg.Base.Results.{ok}
use dragonegg.Constants.{
  IntegerCst, ApInts, signed, get_ap_int_value, array_length_of, is_int64, no_length,
}
use dragonegg.Constants.Numbers.{number, number_of, get_ap_int_value-number}

record Bits : Type 0 where
  size : ℕ
  low : ℕ

abbrev number_bits : Bits → ℕ
number_bits a = a.low % 2 ^ a.size

abbrev sign_extend : ℕ → Bits → Bits
sign_extend w a = record {
  size = w;
  low =
      if ltb (2 * number_bits a) (2 ^ a.size)
      then number_bits a
      else number_bits a + 2 ^ w - 2 ^ a.size;
}

power_positive : (w : ℕ) → 0 < 2 ^ w
power_positive w = omega (arith, one-le-pow w 2 (omega arith))

power_le : (v w : ℕ) → v ≤ w → 2 ^ v ≤ 2 ^ w
power_le v w h = pow-le-pow_right {n = 2} (omega arith) h

number_bits-lt : (a : Bits) → number_bits a < 2 ^ a.size
number_bits-lt a = mod-lt a.low (power_positive a.size)

mod_twice : (w n : ℕ) → n % 2 ^ w % 2 ^ w ≡ n % 2 ^ w
mod_twice w n = mod-eq_of_lt (mod-lt n (power_positive w))

widened : (w : ℕ) (a : Bits) → a.size ≤ w → number_bits a < 2 ^ w
widened w a h = omega (arith, number_bits-lt a, power_le a.size w h)

signed-sign_extend :
    (w : ℕ) (a : Bits)
    → a.size ≤ w
    → signed w (number_bits (sign_extend w a)) ≡ signed a.size (number_bits a)
unfolding ◌-ℤ◌
signed-sign_extend w a h =
    let below = number_bits-lt a in
    let grows = power_le a.size w h in
    elim (Bool-cases (ltb (2 * number_bits a) (2 ^ a.size))) [
      | inl e ↦
          let exact : number_bits (sign_extend w a) ≡ number_bits a =
            rw e (mod-eq_of_lt (widened w a h)) in
          rw exact (ground (arith, e, grows))
      | inr e ↦
          let exact : number_bits (sign_extend w a) ≡ number_bits a + 2 ^ w - 2 ^ a.size =
            rw e (mod-eq_of_lt (omega (arith, below, grows))) in
          rw exact (ground (arith, e, grows, below))
    ]

same-eq : (a b : Bits) → (a.size == b.size && a.low == b.low) ≡ true → a ≡ b
same-eq a b h = ground (arith, h)

abbrev bits_integers : ApInts Bits
bits_integers = record {
  of_words = λ (w lo hi : ℕ). record { size = w; low = (lo + 2 ^ 64 * hi) % 2 ^ w };
  width = λ (a : Bits). a.size;
  bits = number_bits;
  zext = λ (w : ℕ) (a : Bits). record { size = w; low = number_bits a };
  sext = sign_extend;
  trunc = λ (w : ℕ) (a : Bits). record { size = w; low = a.low };
  same = λ (a : Bits) (b : Bits). a.size == b.size && a.low == b.low;
  width-of_words = λ w lo hi. refl;
  bits-of_words = λ w lo hi. mod_twice w (lo + 2 ^ 64 * hi);
  width-zext = λ w a. refl;
  bits-zext = λ w a h. mod-eq_of_lt (widened w a h);
  width-sext = λ w a. refl;
  signed-sext = signed-sign_extend;
  width-trunc = λ w a. refl;
  same_iff = same-eq;
}

-- -1 in an 8 bit signed type.
abbrev minus_one : IntegerCst
minus_one = record {
  value = negsuc 0;
  second_word = 5;
  precision = 8;
  is_unsigned = false;
  fits_uhwi = false;
  overflow = false;
}

abbrev widened_minus_one : Bits
widened_minus_one = record { size = 16; low = 65535 }

widen_minus_one : get_ap_int_value bits_integers minus_one 16 ≡ ok widened_minus_one
unfolding get_ap_int_value
widen_minus_one = refl

get_ap_int_value-number_example :
    (widened_minus_one.size ≡ 16)
    × (number_of bits_integers false widened_minus_one ≡ number false 8 255)
get_ap_int_value-number_example =
    get_ap_int_value-number bits_integers minus_one 16 widened_minus_one (omega arith)
      widen_minus_one

-- The largest index of an array without elements is -1, for which no length is found.
empty_array : array_length_of (some minus_one) ≡ ok no_length
unfolding array_length_of is_int64
empty_array = refl

-- An array of arrays of pointers to the type `t`: its name has brackets for both.
abbrev nested_array : NamedTree
nested_array = type_tree array_type no_tree (
    type_tree array_type no_tree
      (type_tree pointer_type no_tree (type_tree record_type (identifier (b't' ∷ [])) no_tree)))

abbrev one_digit : ℕ → List ℕ
one_digit n = (b'0' + n % 10) ∷ []

nested_array_name :
    get_descriptive_name one_digit nested_array
    ≡ b's' ∷ b't' ∷ b'r' ∷ b'u' ∷ b'c' ∷ b't' ∷ b'.' ∷ b't' ∷ b'*' ∷ b'[' ∷ b']' ∷ b'[' ∷ b']' ∷ []
unfolding get_descriptive_name deduced_name concat_if_not_empty
nested_array_name = refl

is_empty_text-get_descriptive_name_example :
    is_empty_text (get_descriptive_name one_digit nested_array) ≡ false
is_empty_text-get_descriptive_name_example =
    is_empty_text-get_descriptive_name one_digit nested_array
