-- ===== src/Interpret/Parts.antt =====
-- `InterpretAsType` of src/ConstantConversion.cpp at the parts of an array, a vector or a struct.
use dragonegg.Base.{
  ℕ, zero, suc, ◌+◌, ◌*◌, ◌/◌, ◌%◌, ◌<◌, ◌≡◌, inl, inr, refl, sym, ◌∙◌, arith, Bool, true, false,
  Bool-cases, some, subst, ap, List, [], ◌∷◌, get_elem?,
}
use dragonegg.Base.Int.{ℤ, pos, pos_part, neg_part, ◌+ℤ◌, +ℤ_parts, eq_of_parts}
use dragonegg.Base.Results.{Result, ok}
use dragonegg.Ir.{IrType, int, pointer}
use dragonegg.Views.{Sizes, Constants, is_scalar, memory_bit}
use dragonegg.Views.Rules.{SizeRules}
use dragonegg.Views.Bounds.{factor_positive}
use dragonegg.Interpret.{Makers, same_type, quickly, interpret_elements}
use dragonegg.Interpret.Bit.{ReadsFrom}
use native.Mathlib.Nat.{div-add-mod', div-lt_iff_lt-mul}

-- What LLVM documents of the constants that are made: null values are zeros, and the casts and
-- the extraction of parts take apart what was put together.
pub record MakerRules {K : Type 0} (S : Sizes) (F : Constants K) (G : Makers K) (big_endian : Bool)
    : Type 0 where
  pub is_null-bit :
      (k : K) (p : ℕ) (x : Bool)
      → G.is_null k ≡ true
      → memory_bit S F big_endian (F.type_of k) k p ≡ some x
      → x ≡ false
  pub null_value-bit :
      (t : IrType) (p : ℕ) (x : Bool)
      → memory_bit S F big_endian t (G.null_value t) p ≡ some x
      → x ≡ false
  pub null_value-integer :
      (w i : ℕ)
      → (F.integers.width (G.null_value (int w)) ≡ w)
        × (F.integers.bit (G.null_value (int w)) i ≡ false)
  pub bit_cast-integer : (k : K) (w : ℕ) → 0 < w → F.integers.width k ≡ w → F.bit_cast k w ≡ k
  pub bit_cast-from_integer :
      (k : K) (t : IrType)
      → is_scalar t ≡ true
      → F.integers.width k ≡ S.primitive_bits t
      → F.bit_cast (G.from_integer k t) (S.primitive_bits t) ≡ k
  pub ptr_to_int-int_to_ptr :
      (k : K) (t : IrType)
      → F.integers.width k ≡ S.store_bits (pointer t)
      → F.ptr_to_int (G.int_to_ptr k (pointer t)) ≡ k
  pub extract-array_of :
      (t : IrType) (ks : List K) (i : ℕ) (k : K)
      → get_elem? ks i ≡ some k
      → F.extract_value (G.array_of t ks) i ≡ k
  pub extract-struct_of :
      (t : IrType) (ks : List K) (i : ℕ) (k : K)
      → get_elem? ks i ≡ some k
      → F.extract_value (G.struct_of t ks) i ≡ k
  pub extract-vector_of :
      (t : IrType) (ks : List K) (i : ℕ) (k : K)
      → get_elem? ks i ≡ some k
      → F.extract_element (G.vector_of t ks) i ≡ k
  -- what is made has the type that it is made for
  pub type_of-null_value : (t : IrType) → F.type_of (G.null_value t) ≡ t
  pub type_of-integer : (k : K) (w : ℕ) → 0 < w → F.integers.width k ≡ w → F.type_of k ≡ int w
  pub type_of-int_to_ptr : (k : K) (t : IrType) → F.type_of (G.int_to_ptr k (pointer t)) ≡ pointer t
  pub type_of-from_integer : (k : K) (t : IrType) → F.type_of (G.from_integer k t) ≡ t
  pub type_of-array_of : (t : IrType) (ks : List K) → F.type_of (G.array_of t ks) ≡ t
  pub type_of-struct_of : (t : IrType) (ks : List K) → F.type_of (G.struct_of t ks) ≡ t
  pub type_of-vector_of : (t : IrType) (ks : List K) → F.type_of (G.vector_of t ks) ≡ t
  -- integers are as large as their width, rounded up as the types of that width are
  pub primitive-int : (w : ℕ) → S.primitive_bits (int w) ≡ w
  pub store-int_of_scalar :
      (t : IrType) → is_scalar t ≡ true → S.store_bits (int (S.primitive_bits t)) ≡ S.store_bits t
  pub store-int_of_pointer :
      (t : IrType) → S.store_bits (int (S.store_bits (pointer t))) ≡ S.store_bits (pointer t)
  pub pointer-positive : (t : IrType) → 0 < S.store_bits (pointer t)

module _ {K : Type 0} (S : Sizes) (F : Constants K) (G : Makers K) (big_endian : Bool)
    (L : SizeRules S) (N : MakerRules S F G big_endian) (c : K) where
  -- Where both have a bit in memory, the constant has the one that `c` has there.
  abbrev pub Reads : IrType → ℤ → K → Type 0
  Reads t b k =
      (p q : ℕ) (x y : Bool)
      → memory_bit S F big_endian t k p ≡ some y
      → ReadsFrom b p q
      → memory_bit S F big_endian (F.type_of c) c q ≡ some x
      → y ≡ x

  -- A result with a property, when the null value and the switch have it.
  pub quickly-holds :
      (P : K → Type 0) (t : IrType) (by_type : ℤ → Result K) (b : ℤ)
      → same_type (F.type_of c) t ≡ false
      → G.is_undef c ≡ false
      → (G.is_null c ≡ true → P (G.null_value t))
      → (k : K) × (by_type b ≡ ok k) × P k
      → (k : K) × (quickly S F G big_endian c t by_type b ≡ ok k) × P k
  unfolding quickly
  quickly-holds P t by_type b d u n (k, e, h) = elim (Bool-cases (G.is_null c)) [
    | inl z ↦ (G.null_value t, rw (d, u, z) refl, n z)
    | inr z ↦ (k, rw (d, u, z) e, h)
  ]

  pub null_value-Reads : (t : IrType) (b : ℤ) → G.is_null c ≡ true → Reads t b (G.null_value t)
  null_value-Reads t b z p q x y h r m = N.null_value-bit t p y h ∙ sym (N.is_null-bit c q x z m)

  -- Constants for elements `i` to `i + count` from the places of the elements.
  abbrev pub ElementsRead : IrType → ℕ → ℤ → ℕ → ℕ → List K → Type 0
  ElementsRead t stride b count i ks =
      (j : ℕ)
      → j < count
      → (k : K) × (get_elem? ks j ≡ some k) × Reads t (b +ℤ pos ((i + j) * stride)) k

  pub interpret_elements-ElementsRead :
      (t : IrType) (element : ℤ → Result K) (stride : ℕ) (b : ℤ) (count i : ℕ)
      → ((s : ℤ) → (k : K) × (element s ≡ ok k) × Reads t s k)
      → (ks : List K) × (interpret_elements S F G big_endian c element stride b count i ≡ ok ks)
        × ElementsRead t stride b count i ks
  unfolding interpret_elements
  interpret_elements-ElementsRead t element stride b zero i h =
      ([], refl, λ j k. absurd (omega (arith, k)))
  interpret_elements-ElementsRead t element stride b (suc count) i h =
      let (k, e, r) = h (b +ℤ pos (i * stride)) in
      let (ks, f, rs) = interpret_elements-ElementsRead t element stride b count (suc i) h in
      (k ∷ ks, rw (e, f) refl, elements_cons t stride b count i k ks r rs)
    where
      elements_cons :
          (u : IrType) (n : ℕ) (s : ℤ) (m a : ℕ) (x : K) (xs : List K)
          → Reads u (s +ℤ pos (a * n)) x
          → ElementsRead u n s m (suc a) xs
          → ElementsRead u n s (suc m) a (x ∷ xs)
      elements_cons u n s m a x xs r rs zero l =
          (x, refl, subst (λ (z : ℕ). Reads u (s +ℤ pos (z * n)) x) (omega arith) r)
      elements_cons u n s m a x xs r rs (suc j) l =
          let (y, e, r2) = rs j (omega (arith, l)) in
          (y, e, subst (λ (z : ℕ). Reads u (s +ℤ pos (z * n)) y) (omega arith) r2)

  -- A position, counted from a part at an offset.
  pub inner_reads : (b : ℤ) (p q o r : ℕ) → p ≡ o + r → ReadsFrom b p q → ReadsFrom (b +ℤ pos o) r q
  inner_reads b p q o r e h = eq_of_parts (pos q) (b +ℤ pos o +ℤ pos r) (
      omega (
        arith,
        e,
        +ℤ_parts b (pos p),
        +ℤ_parts b (pos o),
        +ℤ_parts (b +ℤ pos o) (pos r),
        ap pos_part h,
        ap neg_part h,
      ))

  -- A constant whose elements are the ones read.
  pub elements-read :
      (t : IrType) (n : ℕ) (b : ℤ) (ks : List K) (part : ℕ → K)
      → ((i : ℕ) (k : K) → get_elem? ks i ≡ some k → part i ≡ k)
      → ElementsRead t (S.alloc_bits t) b n 0 ks
      → (p q : ℕ) (x y : Bool) → p < n * S.alloc_bits t
      → memory_bit S F big_endian t (part (p / S.alloc_bits t)) (p % S.alloc_bits t) ≡ some y
      → ReadsFrom b p q
      → memory_bit S F big_endian (F.type_of c) c q ≡ some x
      → y ≡ x
  elements-read t n b ks part parts read p q x y l h r m =
      let stride = S.alloc_bits t in
      let i = p / stride in
      let (k, e, reads) = read i (
        (div-lt_iff_lt-mul {k = stride} {x = p} {y = n}
            (factor_positive n stride (omega (arith, l)))).1
          l) in
      reads (p % stride) q x y
        (subst (λ (z : K). memory_bit S F big_endian t z (p % stride) ≡ some y) (parts i k e) h)
        (inner_reads b p q ((0 + i) * stride) (p % stride) (omega (arith, div-add-mod' p stride)) r)
        m
