-- ===== src/Constants/Words.antt =====
-- Two words of 64 bits, of which a number has the lower, and the lowest bits of the number.
use native.Mathlib.Decide.{dec_le}
use native.Mathlib.Nat.{
  mul-add, mul-le-mul_left, mul-add-mod_self_left, mul-one, add-mul-mod_self_left, mod-lt,
  mod-eq_of_lt, div-add-mod, one-le-pow, mul_assoc, pow-suc,
}
use dragonegg.Base.{
  subst, ℕ, zero, suc, ◌+◌, ◌-◌, ◌*◌, ◌/◌, ◌%◌, ◌^◌, ◌≤◌, ◌<◌, ◌≡◌, sym, ap, ◌∙◌, arith,
}
use dragonegg.Base.Int.{ℤ, pos, negsuc}
use dragonegg.Constants.{low_bits}

power_split : (w k : ℕ) → 2 ^ (k + w) ≡ 2 ^ w * 2 ^ k
power_split w zero =
    let e : 0 + w ≡ w = omega arith in ap (λ (n : ℕ). 2 ^ n) e ∙ sym (mul-one (2 ^ w))
power_split w (suc k) =
    let e : suc k + w ≡ suc (k + w) = omega arith in
    ap (λ (n : ℕ). 2 ^ n) e
    ∙ pow-suc 2 (k + w)
    ∙ ap (λ (z : ℕ). z * 2) (power_split w k)
    ∙ mul_assoc (2 ^ w) (2 ^ k) 2
    ∙ ap (λ (z : ℕ). 2 ^ w * z) (sym (pow-suc 2 k))

-- With a divisor `p` of `p * q`, what is left of both words.
low_word : (p q m hi : ℕ) → (m % (p * q) + p * q * hi) % p ≡ m % p
low_word p q m hi =
    let parts = div-add-mod m (p * q) in
    ap (λ (z : ℕ). (m % (p * q) + z) % p) (mul_assoc p q hi)
    ∙ add-mul-mod_self_left (m % (p * q)) p (q * hi)
    ∙ sym (add-mul-mod_self_left (m % (p * q)) p (q * (m / (p * q))))
    ∙ ap (λ (z : ℕ). (m % (p * q) + z) % p) (sym (mul_assoc p q (m / (p * q))))
    ∙ ap (λ (z : ℕ). z % p) (omega (arith, parts))

-- The complement of a number below a multiple of `p`.
complement : (p q m : ℕ) → 0 < p → m < p * q → (p * q - 1 - m) % p ≡ p - 1 - m % p
complement p q m h l =
    let parts = div-add-mod m p in
    let low = mod-lt m {m = p} h in
    elim (dec_le q (m / p)) [
      | yes b ↦ absurd (omega (arith, mul-le-mul_left p b, parts, l))
      | no b ↦
          let j = q - 1 - m / p in
          let whole : p * q ≡ p * (m / p) + (p * j + p) =
            ap (λ (z : ℕ). p * z) (omega (arith, b))
            ∙ mul-add p (m / p) (j + 1)
            ∙ ap (λ (z : ℕ). p * (m / p) + z) (mul-add p j 1 ∙ omega arith) in
          let rest : p * q - 1 - m ≡ p * j + (p - 1 - m % p) = omega (arith, whole, parts, low) in
          ap (λ (z : ℕ). z % p) rest
          ∙ mul-add-mod_self_left p j (p - 1 - m % p)
          ∙ mod-eq_of_lt (omega (arith, h))
    ]

-- A width of at most 64 bits does not see the upper word.
pub words-low_bits :
    (w hi : ℕ) (z : ℤ) → w ≤ 64 → (low_bits 64 z + 2 ^ 64 * hi) % 2 ^ w ≡ low_bits w z
words-low_bits w hi z h = by_parts z
  where
    p : ℕ
    p = 2 ^ w

    q : ℕ
    q = 2 ^ (64 - w)

    whole : 2 ^ 64 ≡ p * q
    whole =
        ap (λ (n : ℕ). 2 ^ n) {x = 64} {y = 64 - w + w} (omega (arith, h)) ∙ power_split w (64 - w)

    positive : 0 < p
    positive = omega (arith, one-le-pow w 2 (omega arith))

    by_parts : (z : ℤ) → (low_bits 64 z + 2 ^ 64 * hi) % p ≡ low_bits w z
    by_parts (pos n) = ap (λ (t : ℕ). (n % t + t * hi) % p) whole ∙ low_word p q n hi
    by_parts (negsuc n) =
        ap (λ (t : ℕ). (t - 1 - n % t + t * hi) % p) whole
        ∙ ap (λ (t : ℕ). (p * q - 1 - n % (p * q) + t) % p) (mul_assoc p q hi)
        ∙ add-mul-mod_self_left (p * q - 1 - n % (p * q)) p (q * hi)
        ∙ complement p q (n % (p * q)) positive
            (mod-lt n {m = p * q} (subst (λ (t : ℕ). 0 < t) whole (omega arith)))
        ∙ ap (λ (t : ℕ). p - 1 - t)
            (ap (λ (t : ℕ). t % p) {x = n % (p * q)} {y = n % (p * q) + p * q * 0} (omega arith)
              ∙ low_word p q n 0)
