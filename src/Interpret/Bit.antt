-- ===== src/Interpret/Bit.antt =====
-- The case of integers of `InterpretAsType` of src/ConstantConversion.cpp, bit by bit.
use dragonegg.Base.{ℕ, ◌≤◌, ◌<◌, ◌≡◌, refl, sym, ◌∙◌, arith, Bool, true, false, some, subst, ap}
use dragonegg.Base.Int.{
  ℤ, pos, pos_part, neg_part, ◌+ℤ◌, ◌-ℤ◌, neg_ℤ, +ℤ_parts, -ℤ_parts, eq_of_parts,
}
use dragonegg.Base.Results.{ok, ok_inj}
use dragonegg.Ir.{IrType}
use dragonegg.Range.{range, empty}
use dragonegg.Range.Members.{In}
use dragonegg.Bits.{delta, displace_slice, bit_at, bit_index}
use dragonegg.Bits.Hull.{get_bits-bit_at, get_bits-width}
use dragonegg.Views.{Sizes, Constants, scalar_range, memory_bit}
use dragonegg.Views.Rules.{SizeRules, is_viewable, HasType}
use dragonegg.Views.Merge.{contents_valid-displace, bit_at-displace, In-displace}
use dragonegg.Views.Sound.{view_as_bits-memory_bit}
use dragonegg.Interpret.{Makers, interpret_integer}

-- The position `p` of the constant that is read stands at `q` of the one that it is read from.
abbrev pub ReadsFrom : ℤ → ℕ → ℕ → Type 0
ReadsFrom starting_bit p q = pos q ≡ starting_bit +ℤ pos p

back : (b : ℤ) (p q : ℕ) → ReadsFrom b p q → pos q +ℤ neg_ℤ b ≡ pos p
back b p q h = eq_of_parts (pos q +ℤ neg_ℤ b) (pos p) (
    omega (
      arith,
      +ℤ_parts (pos q) (neg_ℤ b),
      -ℤ_parts (pos 0) b,
      +ℤ_parts b (pos p),
      ap pos_part h,
      ap neg_part h,
    ))

some_inj : {A : Type 0} {a b : A} → some a ≡ some b → a ≡ b
some_inj h = cc

read_inside : (b : ℤ) (p q w : ℕ) → ReadsFrom b p q → p < w → In (pos q) (range b (b +ℤ pos w))
read_inside b p q w h k =
    let one = ap pos_part h in
    let two = ap neg_part h in
    (
      omega (arith, +ℤ_parts b (pos p), one, two),
      omega (arith, +ℤ_parts b (pos p), +ℤ_parts b (pos w), one, two),
    )

In-scalar_range :
    {K : Type 0} (S : Sizes) (F : Constants K) (big_endian : Bool) (t : IrType) (p : ℕ)
    → S.primitive_bits t ≤ S.store_bits t
    → In (pos p) (scalar_range S F big_endian t)
    → p < S.store_bits t
In-scalar_range S F true t p h k = ground arith
In-scalar_range S F false t p h k = ground arith

scalar_range-empty :
    {K : Type 0} (S : Sizes) (F : Constants K) (big_endian : Bool) (t : IrType)
    → S.primitive_bits t ≤ S.store_bits t
    → 0 < S.primitive_bits t
    → empty (scalar_range S F big_endian t) ≡ false
unfolding empty
scalar_range-empty S F true t h k = ground arith
scalar_range-empty S F false t h k = ground arith

scalar_range-delta :
    {K : Type 0} (S : Sizes) (F : Constants K) (big_endian : Bool) (t : IrType)
    → S.primitive_bits t ≤ S.store_bits t
    → delta (scalar_range S F big_endian t).last (scalar_range S F big_endian t).first
      ≡ S.primitive_bits t
unfolding ◌-ℤ◌
scalar_range-delta S F true t h = ground arith
scalar_range-delta S F false t h = ground arith

module _ {K : Type 0} (S : Sizes) (F : Constants K) (G : Makers K) (big_endian : Bool)
    (L : SizeRules S) (c : K) where
  -- An integer of the width of the type with the bits in memory from the starting bit on.
  abbrev pub IntegerRead : IrType → ℤ → K → Type 0
  IntegerRead t b k =
      (F.integers.width k ≡ S.primitive_bits t)
      × ((p q : ℕ) (x : Bool)
          → In (pos p) (scalar_range S F big_endian t)
          → ReadsFrom b p q
          → memory_bit S F big_endian (F.type_of c) c q ≡ some x
          → F.integers.bit k
              (bit_index F.integers big_endian (scalar_range S F big_endian t) (pos p))
            ≡ x)

  pub interpret_integer-IntegerRead :
      (t : IrType) (b : ℤ)
      → is_viewable S (F.type_of c) ≡ true
      → HasType S F (F.type_of c) c
      → 0 < S.primitive_bits t
      → (k : K) × (interpret_integer S F G big_endian c t b ≡ ok k) × IntegerRead t b k
  unfolding interpret_integer
  interpret_integer-IntegerRead t b v typed large =
      let r = scalar_range S F big_endian t in
      let small = L.primitive-le-store t in
      let (s, e, valid, bits) =
        view_as_bits-memory_bit S F big_endian L c (range b (b +ℤ pos (S.store_bits t))) v typed in
      let moved = displace_slice F.integers big_endian s (neg_ℤ b) in
      let moved_valid = contents_valid-displace F.integers big_endian s (neg_ℤ b) valid in
      let (k, g, w) =
        get_bits-width F.integers big_endian moved r moved_valid
          (scalar_range-empty S F big_endian t small large) in
      (
        k,
        rw (e, g) refl,
        (
          w ∙ scalar_range-delta S F big_endian t small,
          λ p q x i h m.
              let (at, f) =
                bits q x
                  (read_inside b p q (S.store_bits t) h
                    (In-scalar_range S F big_endian t p small i))
                  m in
              let there : In (pos p) moved.slice_range =
                subst (λ (z : ℤ). In z moved.slice_range) (back b p q h)
                  (unfold displace_slice in In-displace s.slice_range (pos q) (neg_ℤ b) at) in
              let (k2, g2, w2, f2) =
                get_bits-bit_at F.integers big_endian moved r (pos p) moved_valid i there in
              let moved_bit =
                subst (λ (z : ℤ). bit_at F.integers big_endian moved z ≡ x) (back b p q h)
                  (bit_at-displace F.integers big_endian s (neg_ℤ b) (pos q) at ∙ f) in
              subst (λ (y : K). F.integers.bit y (bit_index F.integers big_endian r (pos p)) ≡ x)
                (some_inj (ok_inj (sym g2 ∙ g))) (f2 ∙ moved_bit),
        ),
      )
