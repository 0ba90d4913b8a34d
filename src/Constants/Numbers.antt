-- ===== src/Constants/Numbers.antt =====
-- The numbers that the functions of src/Trees.cpp make of integer constants.
use dragonegg.Base.{
  ℕ, ◌≤◌, ◌≡◌, sym, ap, subst, ◌∙◌, arith, inl, inr, Bool, true, false, ◌||◌, Bool-cases, ltb, ◌==◌,
  if◌then◌else◌,
}
use dragonegg.Base.Int.{ℤ, pos}
use dragonegg.Base.Results.{Result, ok, ok_inj}
use dragonegg.Constants.Words.{words-low_bits}
use dragonegg.Constants.{IntegerCst, ApInts, low_bits, signed, get_ap_int_value}

-- The integer that some bits stand for, by signedness.
abbrev pub number : Bool → ℕ → ℕ → ℤ
number unsigned w n = if unsigned then pos n else signed w n

module _ {A : Type 0} (I : ApInts A) where
  abbrev pub number_of : Bool → A → ℤ
  number_of unsigned a = number unsigned (I.width a) (I.bits a)

  abbrev extend : Bool → ℕ → A → A
  extend unsigned w a = if unsigned then I.zext w a else I.sext w a

  width-extend : (u : Bool) (w : ℕ) (a : A) → I.width (extend u w a) ≡ w
  width-extend true w a = I.width-zext w a
  width-extend false w a = I.width-sext w a

  number_of-extend :
      (u : Bool) (w : ℕ) (a : A) → I.width a ≤ w → number_of u (extend u w a) ≡ number_of u a
  number_of-extend true w a h = ap pos (I.bits-zext w a h)
  number_of-extend false w a h =
      ap (λ v. signed v (I.bits (I.sext w a))) (I.width-sext w a) ∙ I.signed-sext w a h

  -- For a type of at most 64 bits and whatever stands in the second host word that is read: whatever
  -- width is asked for, the value that is returned has that width, or the type's for zero, and stands for
  -- the number that the constant has in its type; a truncation that would change it does not return.
  pub get_ap_int_value-number :
      (exp : IntegerCst) (bitwidth : ℕ) (a : A)
      → exp.precision ≤ 64
      → get_ap_int_value I exp bitwidth ≡ ok a
      → (I.width a ≡ (if bitwidth == 0 then exp.precision else bitwidth))
        × (number_of exp.is_unsigned a
            ≡ number exp.is_unsigned exp.precision (low_bits exp.precision exp.value))
  unfolding get_ap_int_value
  get_ap_int_value-number exp bitwidth a short_type h =
      let words = words-low_bits exp.precision exp.second_word exp.value short_type in
      let w = exp.precision in
      let u = exp.is_unsigned in
      let default = I.of_words w (low_bits 64 exp.value) exp.second_word in
      let short = I.trunc bitwidth default in
      let plain : number_of u default ≡ number u w (low_bits w exp.value) =
        ap (λ v. number u v (I.bits default))
          (I.width-of_words w (low_bits 64 exp.value) exp.second_word)
        ∙ ap (number u w) (I.bits-of_words w (low_bits 64 exp.value) exp.second_word ∙ words) in
      elim (Bool-cases (bitwidth == 0 || bitwidth == w)) [
        | inl e ↦
            let same : default ≡ a =
              ok_inj (subst (λ (r : Result A). r ≡ ok a) (ground (arith, e)) h) in
            (
              ground (
                arith,
                e,
                sym (ap I.width same) ∙ I.width-of_words w (low_bits 64 exp.value) exp.second_word,
              ),
              sym (ap (number_of u) same) ∙ plain,
            )
        | inr e ↦ elim (Bool-cases (ltb w bitwidth)) [
          | inl f ↦
              let same : extend u bitwidth default ≡ a =
                ok_inj (subst (λ (r : Result A). r ≡ ok a) (ground (arith, e, f)) h) in
              let below : I.width default ≤ bitwidth =
                ground (arith, f, I.width-of_words w (low_bits 64 exp.value) exp.second_word) in
              (
                ground (arith, e, sym (ap I.width same) ∙ width-extend u bitwidth default),
                sym (ap (number_of u) same) ∙ number_of-extend u bitwidth default below ∙ plain,
              )
          | inr f ↦
              let kept : I.same (extend u w short) default ≡ true = ground (arith, e, f, h) in
              let same : short ≡ a =
                ok_inj (subst (λ (r : Result A). r ≡ ok a) (ground (arith, e, f, kept)) h) in
              let below : I.width short ≤ w = ground (arith, f, I.width-trunc bitwidth default) in
              (
                ground (arith, e, sym (ap I.width same) ∙ I.width-trunc bitwidth default),
                sym (ap (number_of u) same)
                    ∙ sym (number_of-extend u w short below)
                    ∙ ap (number_of u) (I.same_iff (extend u w short) default kept)
                    ∙ plain,
              )
        ]
      ]
