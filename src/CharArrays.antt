-- ===== src/CharArrays.antt =====
-- `ConvertSTRING_CST` of src/ConstantConversion.cpp: a string of characters of one, two or four bytes as
-- the elements of an array. LLVM's `ByteSwap_16` and `ByteSwap_32` are a parameter.
pub mod Words
use mathlib.Core.List.{reverse}
use dragonegg.Base.{
  ◌^◌, ℕ, zero, suc, ◌+◌, ◌-◌, ◌*◌, ◌/◌, ◌%◌, ◌≡◌, Bool, true, false, not, ◌&&◌, Option, none, some,
  List, [], ◌∷◌, ◌++◌, map, ltb, ◌==◌, if◌then◌else◌, length, take, drop, replicate,
}
use dragonegg.Base.Results.{Result, ok, unreachable, ◌>>=◌}

-- The number with the bytes, the lowest first.
abbrev pub of_bytes : List ℕ → ℕ
of_bytes [] = 0
of_bytes (b ∷ bs) = b + 256 * of_bytes bs

-- Bytes read as one number by a machine.
abbrev pub read_word : Bool → List ℕ → ℕ
read_word big_endian bs = if big_endian then of_bytes (reverse bs) else of_bytes bs

abbrev pub same_order : Bool → Bool → Bool
same_order true b = b
same_order false b = not b

-- The string literal: its bytes, the bits of the array's elements, the bytes that GCC says an
-- element has, the array's number of elements, and whether the domain has a maximum.
pub record StringFacts : Type 0 where
  pub string_bytes : List ℕ
  pub elt_bits : ℕ
  pub unit_size : ℕ
  pub num_elements : ℕ
  pub has_max : Bool

-- `byte_swap w` is the one for words of `w` bytes.
module _ (byte_swap : ℕ → ℕ → ℕ) (host_big target_big : Bool) where
  -- The `count` words of `w` bytes, in the target's order whatever the host's is.
  unfoldable pub string_words : ℕ → ℕ → List ℕ → List ℕ
  string_words w zero bs = []
  string_words w (suc count) bs =
      (if same_order host_big target_big
        then read_word host_big (take w bs)
        else byte_swap w (read_word host_big (take w bs)))
      ∷ string_words w count (drop w bs)

  -- The characters of the string.
  unfoldable pub string_elements : ℕ → List ℕ → Result (List ℕ)
  string_elements elt_bits bs =
      let len = length bs in
      if elt_bits == 8
      then ok bs
      else if elt_bits == 16
      then (if len % 2 == 0 then ok (string_words 2 (len / 2) bs) else unreachable)
      else if elt_bits == 32
      then (if len % 4 == 0 then ok (string_words 4 (len / 4) bs) else unreachable)
      else unreachable

  -- The number of elements of the constant, an `unsigned`: an array of variable size gets the
  -- string's.
  unfoldable pub constant_size : StringFacts → ℕ
  constant_size s =
      let len_in_elts = length s.string_bytes / s.unit_size in
      let num = s.num_elements % 2 ^ 32 in if num == 0 && not s.has_max then len_in_elts else num

  -- The elements, truncated or filled with nulls.
  unfoldable pub convert_string : StringFacts → Result (List ℕ)
  convert_string s =
      let len_in_elts = length s.string_bytes / s.unit_size in
      let size = constant_size s in
      string_elements s.elt_bits s.string_bytes >>= λ elts.
      if len_in_elts == s.num_elements % 2 ^ 32
      then ok elts
      else if ltb size len_in_elts
      then ok (take size elts)
      else ok (elts ++ replicate (size - len_in_elts) 0)
