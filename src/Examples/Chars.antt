-- ===== src/Examples/Chars.antt =====
-- A string of two-byte characters, for `ConvertSTRING_CST` of src/ConstantConversion.cpp, on a little-endian
-- host for a big-endian target.
use mathlib.Core.List.{reverse}
use dragonegg.Base.{
  ℕ, zero, suc, ◌+◌, ◌*◌, ◌/◌, ◌%◌, ◌<◌, ◌≡◌, refl, ap, arith, true, false, List, [], ◌∷◌, length,
  get_or,
}
use dragonegg.Base.Results.{ok}
use dragonegg.CharArrays.{of_bytes, StringFacts, convert_string}
use dragonegg.CharArrays.Words.{AreBytes, char16, target_element, convert_string-target_element}

abbrev bytes_of : ℕ → ℕ → List ℕ
bytes_of zero n = []
bytes_of (suc w) n = n % 256 ∷ bytes_of w (n / 256)

abbrev swap : ℕ → ℕ → ℕ
swap w n = of_bytes (reverse (bytes_of w n))

bytes_of-of_bytes : (bs : List ℕ) → AreBytes bs → bytes_of (length bs) (of_bytes bs) ≡ bs
bytes_of-of_bytes [] h = refl
bytes_of-of_bytes (b ∷ bs) h =
    let low : (b + 256 * of_bytes bs) % 256 ≡ b = omega (arith, h.0) in
    let high : (b + 256 * of_bytes bs) / 256 ≡ of_bytes bs = omega (arith, h.0) in
    rw (low, high, bytes_of-of_bytes bs h.1) refl

swap-of_bytes : (bs : List ℕ) → AreBytes bs → swap (length bs) (of_bytes bs) ≡ of_bytes (reverse bs)
swap-of_bytes bs h = ap (λ (z : List ℕ). of_bytes (reverse z)) (bytes_of-of_bytes bs h)

-- Two characters for an array of three.
abbrev greeting : StringFacts
greeting = record {
  string_bytes = 0 ∷ 72 ∷ 0 ∷ 105 ∷ [];
  elt_bits = 16;
  unit_size = 2;
  num_elements = 3;
  has_max = true;
}

greeting-AreBytes : AreBytes greeting.string_bytes
greeting-AreBytes = (omega arith, (omega arith, (omega arith, (omega arith, tt))))

convert_string-target_element_example :
    (elts : List ℕ) × (convert_string swap false true greeting ≡ ok elts)
    × (length elts ≡ 3)
    × ((i : ℕ) → i < length elts → get_or elts i 0 ≡ target_element true 2 greeting.string_bytes i)
convert_string-target_element_example =
    convert_string-target_element swap false true swap-of_bytes greeting 2 char16 refl refl
      greeting-AreBytes refl (omega arith)
