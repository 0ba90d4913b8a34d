-- ===== src/Interpret/Sound.antt =====
-- `InterpretAsType` of src/ConstantConversion.cpp against storing a constant and loading another type.
use dragonegg.Base.{
  ℕ, suc, ◌+◌, ◌-◌, ◌*◌, ◌/◌, ◌%◌, ◌<◌, ◌≡◌, inl, inr, refl, sym, arith, Bool, true, false, not,
  some, none, subst, ap, List, [], ◌∷◌, get_elem?, ltb, ◌==◌,
}
use dragonegg.Base.Int.{ℤ, pos, ◌+ℤ◌}
use dragonegg.Base.Results.{ok, ◌>>=◌}
use dragonegg.Ir.{
  IrType, IrTypes, void, opaque, float, double, x86_fp80, fp128, ppc_fp128, x86_mmx, int, pointer,
  vector, array, struct, nil, cons,
}
use dragonegg.Views.{Sizes, Constants, is_scalar, memory_bit, field_bit}
use dragonegg.Views.Rules.{SizeRules, is_viewable, are_viewable, HasType}
use dragonegg.Views.Bounds.{field_bit-split, field_bit-nil, and_left, and_right, if_some}
use dragonegg.Interpret.{
  Makers, same_type, quickly, interpret_integer, interpret_case, interpret_fields,
}
use dragonegg.Interpret.Bit.{ReadsFrom, interpret_integer-IntegerRead}
use dragonegg.Interpret.Parts.{
  MakerRules, Reads, quickly-holds, null_value-Reads, ElementsRead, interpret_elements-ElementsRead,
  elements-read, inner_reads,
}
use dragonegg.Interpret.Scalars.{
  is_apart, are_apart, is_apart-same, Answer, integer-IntegerRead, pointer-Reads, ScalarBit,
  scalar-Reads, integer-Reads,
}

module _ {K : Type 0} (S : Sizes) (F : Constants K) (G : Makers K) (big_endian : Bool)
    (L : SizeRules S) (N : MakerRules S F G big_endian) (c : K)
    (viewable : is_viewable S (F.type_of c) ≡ true) (typed : HasType S F (F.type_of c) c)
    (defined : G.is_undef c ≡ false) where
  -- Constants for the fields of a struct type from an index on, in order.
  abbrev ListRead : IrTypes → IrType → ℤ → ℕ → List K → Type 0
  ListRead nil whole b i ks = Unit
  ListRead (cons t ts) whole b i [] = ⊥
  ListRead (cons t ts) whole b i (k ∷ ks) =
      Reads S F G big_endian L N c t (b +ℤ pos (S.element_offset whole i * 8)) k
      × ListRead ts whole b (suc i) ks

  abbrev EndOf : List K → List K → ℕ → Type 0
  EndOf all ks i = (j : ℕ) → get_elem? ks j ≡ get_elem? all (i + j)

  EndOf-next : (all ks : List K) (k : K) (i : ℕ) → EndOf all (k ∷ ks) i → EndOf all ks (suc i)
  EndOf-next all ks k i h j =
      subst (λ (x : ℕ). get_elem? ks j ≡ get_elem? all x) (omega arith) (h (suc j))

  EndOf-first : (all ks : List K) (k : K) (i : ℕ) → EndOf all (k ∷ ks) i → get_elem? all i ≡ some k
  EndOf-first all ks k i h = subst (λ (x : ℕ). get_elem? all x ≡ some k) (omega arith) (sym (h 0))

  field_bit-read :
      (ts : IrTypes) (whole : IrType) (b : ℤ) (i : ℕ) (all ks : List K)
      → EndOf all ks i
      → ListRead ts whole b i ks
      → (p q : ℕ) (x y : Bool)
      → field_bit S F big_endian ts whole (G.struct_of whole all) p i ≡ some y
      → ReadsFrom b p q
      → memory_bit S F big_endian (F.type_of c) c q ≡ some x
      → y ≡ x
  field_bit-read nil whole b i all ks s l p q x y h r m =
      absurd (field_bit-nil S F big_endian L whole (G.struct_of whole all) p i y h)
  field_bit-read (cons t ts) whole b i all [] s l p q x y h r m = elim l [ ]
  field_bit-read (cons t ts) whole b i all (k ∷ ks) s (l, ls) p q x y h r m =
      let o = S.element_offset whole i * 8 in
      elim (field_bit-split S F big_endian L t ts whole (G.struct_of whole all) p y i h) [
        | inl (f, _, d) ↦
            l (p - o) q x y
              (subst (λ (z : K). memory_bit S F big_endian t z (p - o) ≡ some y)
                (N.extract-struct_of whole all i k (EndOf-first all ks k i s)) d)
              (inner_reads S F G big_endian L N c b p q o (p - o) (omega (arith, f)) r) m
        | inr f ↦
            field_bit-read ts whole b (suc i) all ks (EndOf-next all ks k i s) ls p q x y f r m
      ]

  array-Reads :
      (t : IrType) (n : ℕ) (b : ℤ) (ks : List K)
      → ElementsRead S F G big_endian L N c t (S.alloc_bits t) b n 0 ks
      → Reads S F G big_endian L N c (array t n) b (G.array_of (array t n) ks)
  unfolding memory_bit
  array-Reads t n b ks e p q x y h r m =
      let stride = S.alloc_bits t in
      let whole = G.array_of (array t n) ks in
      let part : ℕ → K = λ i. F.extract_value whole i in
      elim (if_some (ltb p (n * stride))
        (memory_bit S F big_endian t (part (p / stride)) (p % stride)) none y h) [
          | inl (l, f) ↦
              elements-read S F G big_endian L N c t n b ks part
                (λ i k g. N.extract-array_of (array t n) ks i k g) e p q x y (ground arith) f r m
          | inr f ↦ absurd cc
        ]

  vector-Reads :
      (t : IrType) (n : ℕ) (b : ℤ) (ks : List K)
      → ElementsRead S F G big_endian L N c t (S.alloc_bits t) b n 0 ks
      → Reads S F G big_endian L N c (vector t n) b (G.vector_of (vector t n) ks)
  unfolding memory_bit
  vector-Reads t n b ks e p q x y h r m =
      let stride = S.alloc_bits t in
      let whole = G.vector_of (vector t n) ks in
      let part : ℕ → K = λ i. F.extract_element whole i in
      elim (if_some (ltb p (n * stride))
        (memory_bit S F big_endian t (part (p / stride)) (p % stride)) none y h) [
          | inl (l, f) ↦
              elements-read S F G big_endian L N c t n b ks part
                (λ i k g. N.extract-vector_of (vector t n) ks i k g) e p q x y (ground arith) f r m
          | inr f ↦ absurd cc
        ]

  struct-Reads :
      (q : Bool) (ts : IrTypes) (b : ℤ) (ks : List K)
      → ListRead ts (struct q ts) b 0 ks
      → Reads S F G big_endian L N c (struct q ts) b (G.struct_of (struct q ts) ks)
  unfolding memory_bit
  struct-Reads q ts b ks l p r x y h f m =
      field_bit-read ts (struct q ts) b 0 ks ks (λ j. ap (get_elem? ks) (omega arith)) l p r x y h f
        m

  -- A floating point number.
  scalar-Answer :
      (t : IrType) (b : ℤ)
      → ((p q : ℕ) (x y : Bool) (k : K)
          → memory_bit S F big_endian t k p ≡ some y
          → ScalarBit S F G big_endian L N c viewable typed defined t k p y)
      → is_scalar t ≡ true
      → 0 < S.primitive_bits t
      → same_type (F.type_of c) (int (S.primitive_bits t)) ≡ false
      → Answer S F G big_endian L N c viewable typed defined t b (
          quickly S F G big_endian c
            (int (S.primitive_bits t))
            (interpret_integer S F G big_endian c (int (S.primitive_bits t)))
            b
          >>= λ bits. ok (G.from_integer bits t))
  scalar-Answer t b unfolded s large d =
      let (k, e, h) =
        integer-IntegerRead S F G big_endian L N c viewable typed defined t (S.primitive_bits t) b d
          large in
      (
        G.from_integer k t,
        rw e refl,
        λ p q x y f r m.
            scalar-Reads S F G big_endian L N c viewable typed defined t b k s h p q x y
              (unfolded p q x y (G.from_integer k t) f) r m,
      )

  mutual
    unfolding is_viewable is_apart interpret_case memory_bit

    interpret_case-Answer :
        (t : IrType) (b : ℤ)
        → is_viewable S t ≡ true
        → is_apart S (F.type_of c) t ≡ true
        → Answer S F G big_endian L N c viewable typed defined t b
            (interpret_case S F G big_endian c t b)
    interpret_case-Answer (int w) b v a =
        let large : 0 < w = ground (arith, v, N.primitive-int w) in
        let (k, e, h) =
          interpret_integer-IntegerRead S F G big_endian L c (int w) b viewable typed
            (omega (arith, large, N.primitive-int w)) in
        (k, e, integer-Reads S F G big_endian L N c viewable typed defined w b k large h)
    interpret_case-Answer (pointer t) b v a =
        let w = S.store_bits (pointer t) in
        let (k, e, h) =
          integer-IntegerRead S F G big_endian L N c viewable typed defined (pointer t) w b
            (ground arith) (N.pointer-positive t) in
        (
          G.int_to_ptr k (pointer t),
          rw e refl,
          pointer-Reads S F G big_endian L N c viewable typed defined t b k h,
        )
    interpret_case-Answer (array t n) b v a =
        let apart =
          and_right (not (same_type (F.type_of c) (array t n))) (is_apart S (F.type_of c) t) a in
        let (ks, e, h) =
          interpret_elements-ElementsRead S F G big_endian L N c t
            (quickly S F G big_endian c t (interpret_case S F G big_endian c t)) (S.alloc_bits t) b
            n 0
            (λ s.
              quickly-holds S F G big_endian L N c (Reads S F G big_endian L N c t s) t
                (interpret_case S F G big_endian c t) s (is_apart-same S (F.type_of c) t apart)
                defined (null_value-Reads S F G big_endian L N c t s)
                (interpret_case-Answer t s v apart)) in
        (G.array_of (array t n) ks, rw e refl, array-Reads t n b ks h)
    interpret_case-Answer (struct q ts) b v a =
        let whole = struct q ts in
        let apart =
          and_right (not (same_type (F.type_of c) whole)) (are_apart S (F.type_of c) ts) a in
        let (ks, e, h) = interpret_fields-Answer ts whole b 0 v apart in
        (G.struct_of whole ks, rw e refl, struct-Reads q ts b ks h)
    interpret_case-Answer (vector t n) b v a =
        let apart =
          and_right (not (same_type (F.type_of c) (vector t n))) (is_apart S (F.type_of c) t) a in
        let t_viewable =
          and_left (is_viewable S t) (S.store_bits (vector t n) == n * S.alloc_bits t) v in
        let (ks, e, h) =
          interpret_elements-ElementsRead S F G big_endian L N c t
            (quickly S F G big_endian c t (interpret_case S F G big_endian c t)) (S.alloc_bits t) b
            n 0
            (λ s.
              quickly-holds S F G big_endian L N c (Reads S F G big_endian L N c t s) t
                (interpret_case S F G big_endian c t) s (is_apart-same S (F.type_of c) t apart)
                defined (null_value-Reads S F G big_endian L N c t s)
                (interpret_case-Answer t s t_viewable apart)) in
        (G.vector_of (vector t n) ks, rw e refl, vector-Reads t n b ks h)
    interpret_case-Answer void b v a = absurd cc
    interpret_case-Answer opaque b v a = absurd cc
    interpret_case-Answer float b v a =
        scalar-Answer float b (λ p q x y k h. h) refl (ground (arith, v)) (ground arith)
    interpret_case-Answer double b v a =
        scalar-Answer double b (λ p q x y k h. h) refl (ground (arith, v)) (ground arith)
    interpret_case-Answer x86_fp80 b v a =
        scalar-Answer x86_fp80 b (λ p q x y k h. h) refl (ground (arith, v)) (ground arith)
    interpret_case-Answer fp128 b v a =
        scalar-Answer fp128 b (λ p q x y k h. h) refl (ground (arith, v)) (ground arith)
    interpret_case-Answer ppc_fp128 b v a =
        scalar-Answer ppc_fp128 b (λ p q x y k h. h) refl (ground (arith, v)) (ground arith)
    interpret_case-Answer x86_mmx b v a =
        scalar-Answer x86_mmx b (λ p q x y k h. h) refl (ground (arith, v)) (ground arith)

    interpret_fields-Answer :
        (ts : IrTypes) (whole : IrType) (b : ℤ) (i : ℕ)
        → are_viewable S ts ≡ true
        → are_apart S (F.type_of c) ts ≡ true
        → (ks : List K) × (interpret_fields S F G big_endian c ts whole b i ≡ ok ks)
          × ListRead ts whole b i ks
    interpret_fields-Answer nil whole b i v a = ([], refl, tt)
    interpret_fields-Answer (cons t ts) whole b i v a =
        let apart = and_left (is_apart S (F.type_of c) t) (are_apart S (F.type_of c) ts) a in
        let s = b +ℤ pos (S.element_offset whole i * 8) in
        let (k, e, h) =
          quickly-holds S F G big_endian L N c (Reads S F G big_endian L N c t s) t
            (interpret_case S F G big_endian c t) s (is_apart-same S (F.type_of c) t apart) defined
            (null_value-Reads S F G big_endian L N c t s)
            (interpret_case-Answer t s (and_left (is_viewable S t) (are_viewable S ts) v) apart) in
        let (ks, f, hs) =
          interpret_fields-Answer ts whole b (suc i)
            (and_right (is_viewable S t) (are_viewable S ts) v)
            (and_right (is_apart S (F.type_of c) t) (are_apart S (F.type_of c) ts) a) in
        (k ∷ ks, rw (e, f) refl, (h, hs))
