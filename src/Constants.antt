-- ===== src/Constants.antt =====
-- Integer constants and fields of GCC in src/Trees.cpp, and the length of an array in
-- src/TypeConversion.cpp, for a host with 64 bit words and the GCC versions from 4.9 on, which ask
-- `tree_fits_uhwi_p`. LLVM's `APInt` and `MinAlign` are parameters.
pub mod Numbers
pub mod Words
use dragonegg.Base.{
  ℕ, suc, ◌+◌, ◌-◌, ◌*◌, ◌/◌, ◌%◌, ◌^◌, ◌≤◌, ◌<◌, ◌≡◌, Bool, true, false, not, ◌&&◌, ◌||◌, Option,
  none, some, ltb, leb, ◌==◌, if◌then◌else◌,
}
use dragonegg.Base.Int.{ℤ, pos, negsuc, ◌-ℤ◌}
use dragonegg.Base.Results.{Result, ok, unreachable, ◌>>=◌}

-- An `INTEGER_CST`: its value, the second host word of the object that it is read into (GCC sets it
-- for values that need two words only), the precision of its type and whether that is unsigned, and
-- the answers of `tree_fits_uhwi_p` and `TREE_OVERFLOW`.
pub record IntegerCst : Type 0 where
  pub value : ℤ
  pub second_word : ℕ
  pub precision : ℕ
  pub is_unsigned : Bool
  pub fits_uhwi : Bool
  pub overflow : Bool

-- The lowest bits of an integer, in two's complement.
abbrev pub low_bits : ℕ → ℤ → ℕ
low_bits w (pos n) = n % 2 ^ w
low_bits w (negsuc n) = 2 ^ w - 1 - n % 2 ^ w

-- The integer that some bits stand for.
abbrev pub signed : ℕ → ℕ → ℤ
signed w n = if ltb (2 * n) (2 ^ w) then pos n else pos n -ℤ pos (2 ^ w)

-- What is used of `APInt`, with the numerical values before and after.
pub record ApInts (A : Type 0) : Type 0 where
  -- from the lower and the upper of two 64 bit words
  pub of_words : ℕ → ℕ → ℕ → A
  pub width : A → ℕ
  pub bits : A → ℕ
  pub zext : ℕ → A → A
  pub sext : ℕ → A → A
  pub trunc : ℕ → A → A
  pub same : A → A → Bool
  pub width-of_words : (w lo hi : ℕ) → width (of_words w lo hi) ≡ w
  pub bits-of_words : (w lo hi : ℕ) → bits (of_words w lo hi) ≡ (lo + 2 ^ 64 * hi) % 2 ^ w
  pub width-zext : (w : ℕ) (a : A) → width (zext w a) ≡ w
  pub bits-zext : (w : ℕ) (a : A) → width a ≤ w → bits (zext w a) ≡ bits a
  pub width-sext : (w : ℕ) (a : A) → width (sext w a) ≡ w
  pub signed-sext :
      (w : ℕ) (a : A) → width a ≤ w → signed w (bits (sext w a)) ≡ signed (width a) (bits a)
  pub width-trunc : (w : ℕ) (a : A) → width (trunc w a) ≡ w
  pub same_iff : (a b : A) → same a b ≡ true → a ≡ b

module _ {A : Type 0} (I : ApInts A) where
  -- `getAPIntValue`.
  unfoldable pub get_ap_int_value : IntegerCst → ℕ → Result A
  get_ap_int_value exp bitwidth =
      let w = exp.precision in
      let default = I.of_words w (low_bits 64 exp.value) exp.second_word in
      let short = I.trunc bitwidth default in
      if bitwidth == 0 || bitwidth == w
      then ok default
      else if ltb w bitwidth
      then ok (if exp.is_unsigned then I.zext bitwidth default else I.sext bitwidth default)
      else if I.same ((if exp.is_unsigned then I.zext w short else I.sext w short)) default
      then ok short
      else unreachable

-- `isInt64`; a missing constant is `none`. The flag is not used by this version.
unfoldable pub is_int64 : Option IntegerCst → Bool → Bool
is_int64 none flag = false
is_int64 (some t) flag = t.fits_uhwi && not t.overflow

-- `getInt64`.
unfoldable pub get_int64 : Option IntegerCst → Bool → Result ℕ
get_int64 none flag = unreachable
get_int64 (some t) flag = if is_int64 (some t) flag then ok (low_bits 64 t.value) else unreachable

abbrev pub no_length : ℕ
no_length = 2 ^ 64 - 1

-- `ArrayLengthOf`, of the number of elements minus one.
unfoldable pub array_length_of : Option IntegerCst → Result ℕ
array_length_of range =
    if is_int64 range false
    then (get_int64 range false >>= λ n. ok (if leb (2 ^ 63) n then 0 else 1 + n))
    else ok no_length

-- A field: `DECL_FIELD_OFFSET`, `DECL_FIELD_BIT_OFFSET`, `DECL_OFFSET_ALIGN`, `DECL_BIT_FIELD`,
-- `DECL_SIZE`, and the size of its type.
pub record FieldFacts : Type 0 where
  pub field_offset : Option IntegerCst
  pub bit_offset : Option IntegerCst
  pub offset_align : ℕ
  pub declared_bit_field : Bool
  pub field_size : Option IntegerCst
  pub type_size : Option IntegerCst

-- `getFieldOffsetInBits`.
unfoldable pub get_field_offset_in_bits : FieldFacts → Result ℕ
get_field_offset_in_bits f =
    if is_int64 f.field_offset true
    then (get_int64 f.bit_offset true >>= λ b.
        get_int64 f.field_offset true >>= λ o. ok ((b + o * 8) % 2 ^ 64))
    else unreachable

-- `getFieldAlignment`.
unfoldable pub get_field_alignment : (ℕ → ℕ → ℕ) → FieldFacts → Result ℕ
get_field_alignment min_align f =
    if ltb 0 f.offset_align && f.offset_align % 8 == 0
    then (get_int64 f.bit_offset true >>= λ b. ok (min_align (f.offset_align / 8) (b / 8)))
    else unreachable

-- `isBitfield`.
unfoldable pub is_bitfield : FieldFacts → Result Bool
is_bitfield f = if not f.declared_bit_field then ok false else elim f.bit_offset [
  | none ↦ unreachable
  | some b ↦
      if not (low_bits 64 b.value % 8 == 0)
      then ok true
      else if not (is_int64 f.type_size true)
      then ok true
      else (get_int64 f.type_size true >>= λ bits.
          if bits % 8 == 0
          then (get_int64 f.field_size true >>= λ size. ok (ltb size bits))
          else unreachable)
]
