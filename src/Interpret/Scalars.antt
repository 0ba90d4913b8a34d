-- ===== src/Interpret/Scalars.antt =====
-- The scalars of `InterpretAsType` of src/ConstantConversion.cpp: integers, and the pointers and floating
-- point numbers that are read as integers.
use dragonegg.Base.{
  ℕ, ◌+◌, ◌-◌, ◌<◌, ◌≡◌, inl, inr, sym, ◌∙◌, arith, Bool, true, false, not, ◌&&◌, Bool-cases, some,
  none, ltb, leb, if◌then◌else◌,
}
use dragonegg.Base.Int.{ℤ, pos, ◌-ℤ◌}
use dragonegg.Base.Results.{Result, ok}
use dragonegg.Ir.{IrType, IrTypes, int, pointer, vector, array, struct, nil, cons}
use dragonegg.Bits.{bit_index}
use dragonegg.Views.{Sizes, Constants, is_scalar, scalar_range, memory_bit}
use dragonegg.Views.Rules.{SizeRules, is_viewable, HasType}
use dragonegg.Interpret.{Makers, same_type, quickly, interpret_integer}
use dragonegg.Interpret.Bit.{ReadsFrom, IntegerRead, interpret_integer-IntegerRead}
use dragonegg.Interpret.Parts.{MakerRules, Reads, quickly-holds}

module _ (S : Sizes) where
  -- No part of the type, the integers that the code goes through among them, has the given type.
  unfoldable mutual
    pub is_apart : IrType → IrType → Bool
    is_apart u (pointer t) =
        not (same_type u (pointer t)) && not (same_type u (int (S.store_bits (pointer t))))
    is_apart u (array t n) = not (same_type u (array t n)) && is_apart u t
    is_apart u (vector t n) = not (same_type u (vector t n)) && is_apart u t
    is_apart u (struct p ts) = not (same_type u (struct p ts)) && are_apart u ts
    is_apart u t = not (same_type u t) && not (same_type u (int (S.primitive_bits t)))

    pub are_apart : IrType → IrTypes → Bool
    are_apart u nil = true
    are_apart u (cons t ts) = is_apart u t && are_apart u ts

  pub is_apart-same : (u t : IrType) → is_apart u t ≡ true → same_type u t ≡ false
  unfolding is_apart
  is_apart-same u (pointer t) h = ground arith
  is_apart-same u (array t n) h = ground arith
  is_apart-same u (vector t n) h = ground arith
  is_apart-same u (struct p ts) h = ground arith
  is_apart-same u t h = ground arith

module _ {K : Type 0} (S : Sizes) (F : Constants K) (G : Makers K) (big_endian : Bool)
    (L : SizeRules S) (N : MakerRules S F G big_endian) (c : K)
    (viewable : is_viewable S (F.type_of c) ≡ true) (typed : HasType S F (F.type_of c) c)
    (defined : G.is_undef c ≡ false) where
  abbrev pub Answer : IrType → ℤ → Result K → Type 0
  Answer t b r = (k : K) × (r ≡ ok k) × Reads S F G big_endian L N c t b k

  -- The integer that the code goes through to a pointer or a floating point number.
  pub integer-IntegerRead :
      (t : IrType) (w : ℕ) (b : ℤ)
      → same_type (F.type_of c) (int w) ≡ false
      → 0 < w
      → (k : K) × (quickly S F G big_endian c
            (int w)
            (interpret_integer S F G big_endian c (int w))
            b
          ≡ ok k)
        × IntegerRead S F G big_endian L c (int w) b k
  integer-IntegerRead t w b d large =
      quickly-holds S F G big_endian L N c (IntegerRead S F G big_endian L c (int w) b) (int w)
        (interpret_integer S F G big_endian c (int w)) b d defined
        (λ z. (
          ground (arith, N.primitive-int w, (N.null_value-integer w 0).0),
          λ p q x i r m.
              (N.null_value-integer w
                (bit_index F.integers big_endian (scalar_range S F big_endian (int w)) (pos p))).1
              ∙ sym (N.is_null-bit c q x z m),
        ))
        (interpret_integer-IntegerRead S F G big_endian L c (int w) b viewable typed
          (omega (arith, N.primitive-int w)))

  pub pointer-Reads :
      (t : IrType) (b : ℤ) (k : K)
      → IntegerRead S F G big_endian L c (int (S.store_bits (pointer t))) b k
      → Reads S F G big_endian L N c (pointer t) b (G.int_to_ptr k (pointer t))
  unfolding memory_bit bit_index ◌-ℤ◌
  pointer-Reads t b k (w, bits) p q x y h r m =
      let wide = N.primitive-int (S.store_bits (pointer t)) in
      let store = N.store-int_of_pointer t in
      let back = N.ptr_to_int-int_to_ptr k t (w ∙ wide) in
      elim (Bool-cases big_endian) [
        | inl e ↦ ground (arith, e, wide, store, back, bits p q x (ground arith) r m)
        | inr e ↦ ground (arith, e, wide, store, back, bits p q x (ground arith) r m)
      ]

  -- The bit of a scalar at a position, as `memory_bit` has it.
  abbrev pub ScalarBit : IrType → K → ℕ → Bool → Type 0
  ScalarBit t k p y =
      let pad = if big_endian then S.store_bits t - S.primitive_bits t else 0 in
      let w = S.primitive_bits t in
      (if is_scalar t && leb pad p && ltb p (pad + w)
        then some
            (F.integers.bit (F.bit_cast k w) (if big_endian then S.store_bits t - 1 - p else p))
        else none)
      ≡ some y

  pub scalar-Reads :
      (t : IrType) (b : ℤ) (k : K)
      → is_scalar t ≡ true
      → IntegerRead S F G big_endian L c (int (S.primitive_bits t)) b k
      → (p q : ℕ) (x y : Bool) → ScalarBit t (G.from_integer k t) p y
      → ReadsFrom b p q
      → memory_bit S F big_endian (F.type_of c) c q ≡ some x
      → y ≡ x
  unfolding bit_index ◌-ℤ◌
  scalar-Reads t b k s (w, bits) p q x y h r m =
      let wide = N.primitive-int (S.primitive_bits t) in
      let store = N.store-int_of_scalar t s in
      let back = N.bit_cast-from_integer k t s (w ∙ wide) in
      let small = L.primitive-le-store t in
      elim (Bool-cases big_endian) [
        | inl e ↦ ground (arith, e, wide, store, back, small, bits p q x (ground arith) r m)
        | inr e ↦ ground (arith, e, wide, store, back, small, bits p q x (ground arith) r m)
      ]

  pub integer-Reads :
      (w : ℕ) (b : ℤ) (k : K)
      → 0 < w
      → IntegerRead S F G big_endian L c (int w) b k
      → Reads S F G big_endian L N c (int w) b k
  unfolding memory_bit bit_index ◌-ℤ◌
  integer-Reads w b k large (v, bits) p q x y h r m =
      let wide = N.primitive-int w in
      let back = N.bit_cast-integer k w large (v ∙ wide) in
      let small = L.primitive-le-store (int w) in
      elim (Bool-cases big_endian) [
        | inl e ↦ ground (arith, e, wide, back, small, bits p q x (ground arith) r m)
        | inr e ↦ ground (arith, e, wide, back, small, bits p q x (ground arith) r m)
      ]
