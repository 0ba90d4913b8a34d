-- ===== src/Interpret/Types.antt =====
-- The type of what `InterpretAsType` of src/ConstantConversion.cpp returns.
use dragonegg.Base.{◌<◌, ◌≡◌, ◌∙◌, sym, ap, arith, Bool, true, false, Bool-cases, inl, inr}
use dragonegg.Base.Int.{ℤ}
use dragonegg.Base.Results.{Result, ok, unreachable, ok_inj, ◌>>=◌}
use dragonegg.Ir.{
  IrType, void, opaque, float, double, x86_fp80, fp128, ppc_fp128, x86_mmx, int, pointer, vector,
  array, struct,
}
use dragonegg.Views.{Sizes, Constants}
use dragonegg.Views.Rules.{SizeRules, is_viewable, HasType}
use dragonegg.Interpret.{Makers, same_type, quickly, interpret_case}
use dragonegg.Interpret.Parts.{MakerRules}
use dragonegg.Interpret.Bit.{interpret_integer-IntegerRead}

module _ {K : Type 0} (S : Sizes) (F : Constants K) (G : Makers K) (big_endian : Bool)
    (L : SizeRules S) (N : MakerRules S F G big_endian) (c : K) where
  bind-type_of :
      {A : Type 0} (t : IrType) (m : Result A) (f : A → K) (k : K)
      → ((a : A) → F.type_of (f a) ≡ t)
      → (m >>= λ a. ok (f a)) ≡ ok k
      → F.type_of k ≡ t
  bind-type_of t (ok a) f k p h = ap F.type_of (sym (ok_inj h)) ∙ p a
  bind-type_of t unreachable f k p h = absurd cc

  pub quickly-type_of :
      (t : IrType) (by_type : ℤ → Result K) (b : ℤ) (k : K)
      → same_type (F.type_of c) t ≡ false
      → G.is_undef c ≡ false
      → (by_type b ≡ ok k → F.type_of k ≡ t)
      → quickly S F G big_endian c t by_type b ≡ ok k
      → F.type_of k ≡ t
  unfolding quickly
  quickly-type_of t by_type b k d u p h = elim (Bool-cases (G.is_null c)) [
    | inl z ↦
        let same : ok (G.null_value t) ≡ ok k = ground (arith, d, u, z, h) in
        ap F.type_of (sym (ok_inj same)) ∙ N.type_of-null_value t
    | inr z ↦ p (ground (arith, d, u, z, h))
  ]

  pub interpret_case-type_of :
      (t : IrType) (b : ℤ) (k : K)
      → is_viewable S (F.type_of c) ≡ true
      → HasType S F (F.type_of c) c
      → is_viewable S t ≡ true
      → interpret_case S F G big_endian c t b ≡ ok k
      → F.type_of k ≡ t
  unfolding interpret_case is_viewable
  interpret_case-type_of (int w) b k v e u h =
      let large : 0 < S.primitive_bits (int w) = ground (arith, u) in
      let (m, g, (wide, bits)) =
        interpret_integer-IntegerRead S F G big_endian L c (int w) b v e large in
      let same : m ≡ k = ok_inj (sym g ∙ h) in
      let width = N.primitive-int w in
      ap F.type_of (sym same) ∙ N.type_of-integer m w (omega (arith, large, width)) (wide ∙ width)
  interpret_case-type_of (pointer t) b k v e u h =
      bind-type_of (pointer t) _ _ k (λ a. N.type_of-int_to_ptr a t) h
  interpret_case-type_of (array t n) b k v e u h =
      bind-type_of (array t n) _ _ k (λ ks. N.type_of-array_of (array t n) ks) h
  interpret_case-type_of (struct q ts) b k v e u h =
      bind-type_of (struct q ts) _ _ k (λ ks. N.type_of-struct_of (struct q ts) ks) h
  interpret_case-type_of (vector t n) b k v e u h =
      bind-type_of (vector t n) _ _ k (λ ks. N.type_of-vector_of (vector t n) ks) h
  interpret_case-type_of void b k v e u h = absurd cc
  interpret_case-type_of opaque b k v e u h = absurd cc
  interpret_case-type_of float b k v e u h =
      bind-type_of float _ _ k (λ a. N.type_of-from_integer a float) h
  interpret_case-type_of double b k v e u h =
      bind-type_of double _ _ k (λ a. N.type_of-from_integer a double) h
  interpret_case-type_of x86_fp80 b k v e u h =
      bind-type_of x86_fp80 _ _ k (λ a. N.type_of-from_integer a x86_fp80) h
  interpret_case-type_of fp128 b k v e u h =
      bind-type_of fp128 _ _ k (λ a. N.type_of-from_integer a fp128) h
  interpret_case-type_of ppc_fp128 b k v e u h =
      bind-type_of ppc_fp128 _ _ k (λ a. N.type_of-from_integer a ppc_fp128) h
  interpret_case-type_of x86_mmx b k v e u h =
      bind-type_of x86_mmx _ _ k (λ a. N.type_of-from_integer a x86_mmx) h
