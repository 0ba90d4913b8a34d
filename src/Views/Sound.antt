-- ===== src/Views/Sound.antt =====
-- `ViewAsBits` of src/ConstantConversion.cpp against the bits of the constant in memory.
use dragonegg.Base.{
  ℕ, suc, ◌+◌, ◌-◌, ◌*◌, ◌/◌, ◌%◌, ◌<◌, ◌≡◌, inl, inr, refl, sym, arith, Bool, true, ◌&&◌, Option,
  some, none, Bool-cases, subst, ltb, leb, ◌==◌, if◌then◌else◌,
}
use dragonegg.Base.Int.{pos, ◌-ℤ◌, ◌≤ℤ◌, ◌<ℤ◌}
use dragonegg.Base.Results.{ok}
use dragonegg.Ir.{
  IrType, IrTypes, void, opaque, float, double, x86_fp80, fp128, ppc_fp128, x86_mmx, int, pointer,
  vector, array, struct, nil, cons,
}
use dragonegg.Range.{Range, range, empty, get_width}
use dragonegg.Range.Members.{In}
use dragonegg.Bits.{BitSlice, contents_valid, bit_at, bit_index}
use dragonegg.Views.{
  Sizes, Constants, no_bits, is_scalar, scalar_range, sanitized, view_case, view_array, memory_bit,
  view_as_bits,
}
use dragonegg.Views.Merge.{Views}
use dragonegg.Views.Parts.{Seen, Views-weaken, view_array-Views}
use dragonegg.Views.Rules.{SizeRules, is_viewable, are_viewable, HasType, FieldsHaveTypes}
use dragonegg.Views.Bounds.{
  Suffix, Suffix-next, Suffix-all, Viewed, Cased, and_left, and_right, factor_positive,
  nothing-Views, sanitized-Viewed,
}
use dragonegg.Views.Fields.{ViewedFrom, FieldsSeen, view_fields-Views}

module _ {K : Type 0} (S : Sizes) (F : Constants K) (big_endian : Bool) (L : SizeRules S) where
  scalar-Cased :
      (t : IrType) (c : K)
      → F.integers.width (F.bit_cast c (S.primitive_bits t)) ≡ S.primitive_bits t
      → is_scalar t ≡ true
      → 0 < S.primitive_bits t
      → (m : Range)
      → Views F.integers big_endian
          (S.store_bits t)
          (Seen m (λ p.
            let pad = if big_endian then S.store_bits t - S.primitive_bits t else 0 in
            let w = S.primitive_bits t in
            if is_scalar t && leb pad p && ltb p (pad + w)
            then some
                (F.integers.bit (F.bit_cast c w) (if big_endian then S.store_bits t - 1 - p else p))
            else none))
          (record {
            slice_range = scalar_range S F big_endian t;
            contents = some (F.bit_cast c (S.primitive_bits t));
          })
  unfolding contents_valid empty get_width bit_at bit_index ◌-ℤ◌
  scalar-Cased t c e k large m =
      let small = L.primitive-le-store t in
      elim (Bool-cases big_endian) [
        | inl be ↦ record {
          is_valid = ground (arith, be, e);
          inside = λ p i. (ground arith, ground arith);
          covers = λ p b (i, h). (ground arith, ground arith);
        }
        | inr be ↦ record {
          is_valid = ground (arith, be, e);
          inside = λ p i. (ground arith, ground arith);
          covers = λ p b (i, h). (ground arith, ground arith);
        }
      ]

  pointer-Cased :
      (t : IrType) (c : K)
      → F.integers.width (F.ptr_to_int c) ≡ S.store_bits (pointer t)
      → (m : Range) → 0 < S.store_bits (pointer t)
      → Views F.integers big_endian
          (S.store_bits (pointer t))
          (Seen m (memory_bit S F big_endian (pointer t) c))
          (record {
            slice_range = range (pos 0) (pos (S.store_bits (pointer t)));
            contents = some (F.ptr_to_int c);
          })
  unfolding memory_bit contents_valid empty get_width bit_at bit_index ◌-ℤ◌
  pointer-Cased t c e m large = record {
    is_valid = ground (arith, e);
    inside = λ p i. (ground arith, ground arith);
    covers = λ p b (i, h). (ground arith, ground arith);
  }

  -- The elements of an array or a vector, when they are viewed as they should be.
  elements-Cased :
      (t : IrType) (n store : ℕ) (part : ℕ → K)
      → store ≡ n * S.alloc_bits t
      → ((i : ℕ)
          → i < n
          → Viewed S F big_endian L t
              (part i)
              (sanitized S F big_endian t (view_case S F big_endian t (part i))))
      → (m : Range) → m.first <ℤ m.last
      → pos 0 ≤ℤ m.first
      → m.last ≤ℤ pos store
      → 0 < store
      → (e : BitSlice K) × (view_array S F big_endian
            (λ i. sanitized S F big_endian t (view_case S F big_endian t (part i)))
            (S.alloc_bits t)
            n
            m
          ≡ ok e)
        × Views F.integers big_endian store
            (Seen m (λ p.
              if ltb p (n * S.alloc_bits t)
              then memory_bit S F big_endian t (part (p / S.alloc_bits t)) (p % S.alloc_bits t)
              else none))
            e
  elements-Cased t n store part eq viewed m low first last large =
      let stride = S.alloc_bits t in
      let bit : ℕ → ℕ → Option Bool = λ i p. memory_bit S F big_endian t (part i) p in
      let (u, v, vu) =
        view_array-Views S F big_endian
          (λ i. sanitized S F big_endian t (view_case S F big_endian t (part i))) stride n m bit
          (factor_positive n stride (omega (arith, eq, large)))
          (λ i q h.
            let (x, g, vx) = viewed i h q in
            (
              x,
              g,
              Views-weaken S F big_endian (S.store_bits t) stride (Seen q (bit i)) (Seen q (bit i))
                  x (L.store-le-alloc t) (λ p b k. k) vx,
            ))
          low first (omega (arith, eq, last)) in
      (
        u,
        v,
        subst
            (λ (w : ℕ).
              Views F.integers big_endian w
                (Seen m (λ p. if ltb p (n * stride) then bit (p / stride) (p % stride) else none))
                u)
            (sym eq) vu,
      )

  abbrev scalar_slice : IrType → K → BitSlice K
  scalar_slice t c = record {
    slice_range = scalar_range S F big_endian t;
    contents = some (F.bit_cast c (S.primitive_bits t));
  }

  mutual
    unfolding is_viewable view_case memory_bit HasType

    view_case-Cased :
        (t : IrType) (c : K) → HasType S F t c → is_viewable S t ≡ true → Cased S F big_endian L t c
    view_case-Cased (pointer t) c e v m low first last large = (
      record {
        slice_range = range (pos 0) (pos (S.store_bits (pointer t)));
        contents = some (F.ptr_to_int c);
      },
      refl,
      pointer-Cased t c e m large,
    )
    view_case-Cased (array t n) c e v m low first last large =
        elements-Cased t n (S.store_bits (array t n)) (F.extract_value c) (L.array-store t n)
          (λ i h.
            sanitized-Viewed S F big_endian L t (F.extract_value c i) v
              (view_case-Cased t (F.extract_value c i) (e i h) v))
          m low first last large
    view_case-Cased (vector t n) c e v m low first last large =
        elements-Cased t n (S.store_bits (vector t n)) (F.extract_element c) (ground arith)
          (λ i h.
            sanitized-Viewed S F big_endian L t (F.extract_element c i)
              (and_left (is_viewable S t) (S.store_bits (vector t n) == n * S.alloc_bits t) v)
              (view_case-Cased t (F.extract_element c i) (e i h)
                (and_left (is_viewable S t) (S.store_bits (vector t n) == n * S.alloc_bits t) v)))
          m low first last large
    view_case-Cased (struct q ts) c e v m low first last large =
        let whole = struct q ts in
        let known : ℕ → Bool → Type 0 = λ p b. ⊥ in
        let (s, g, vs) =
          view_fields-Views S F big_endian L q ts ts c m 0 0 no_bits known (Suffix-all ts)
            (fields-ViewedFrom q ts ts c 0 e (Suffix-all ts) v) first
            (omega arith, λ t h. omega arith)
            (nothing-Views S F big_endian L 0 known (λ p b k. k)) in
        (
          s,
          g,
          Views-weaken S F big_endian (S.store_bits whole) (S.store_bits whole)
              (FieldsSeen S F big_endian L ts whole c m 0 known)
              (Seen m (memory_bit S F big_endian whole c)) s (omega arith) (λ p b k. inr k) vs,
        )
    view_case-Cased (int w) c e v m low first last large =
        (scalar_slice (int w) c, refl, scalar-Cased (int w) c e refl (ground (arith, v)) m)
    view_case-Cased float c e v m low first last large =
        (scalar_slice float c, refl, scalar-Cased float c e refl (ground (arith, v)) m)
    view_case-Cased double c e v m low first last large =
        (scalar_slice double c, refl, scalar-Cased double c e refl (ground (arith, v)) m)
    view_case-Cased x86_fp80 c e v m low first last large =
        (scalar_slice x86_fp80 c, refl, scalar-Cased x86_fp80 c e refl (ground (arith, v)) m)
    view_case-Cased fp128 c e v m low first last large =
        (scalar_slice fp128 c, refl, scalar-Cased fp128 c e refl (ground (arith, v)) m)
    view_case-Cased ppc_fp128 c e v m low first last large =
        (scalar_slice ppc_fp128 c, refl, scalar-Cased ppc_fp128 c e refl (ground (arith, v)) m)
    view_case-Cased x86_mmx c e v m low first last large =
        (scalar_slice x86_mmx c, refl, scalar-Cased x86_mmx c e refl (ground (arith, v)) m)
    view_case-Cased void c e v m low first last large = absurd cc
    view_case-Cased opaque c e v m low first last large = absurd cc

    fields-ViewedFrom :
        (q : Bool) (all ts : IrTypes) (c : K) (i : ℕ)
        → FieldsHaveTypes S F ts c i
        → Suffix all ts i
        → are_viewable S ts ≡ true
        → ViewedFrom S F big_endian L ts c i
    fields-ViewedFrom q all nil c i e h v = tt
    fields-ViewedFrom q all (cons t ts) c i e h v =
        let t_viewable = and_left (is_viewable S t) (are_viewable S ts) v in
        (
          sanitized-Viewed S F big_endian L t (F.extract_value c i) t_viewable
              (view_case-Cased t (F.extract_value c i) e.0 t_viewable),
          fields-ViewedFrom q all ts c (suc i) e.1 (Suffix-next all t ts i h)
              (and_right (is_viewable S t) (are_viewable S ts) v),
        )

  pub view_as_bits-memory_bit :
      (c : K) (r : Range)
      → is_viewable S (F.type_of c) ≡ true
      → HasType S F (F.type_of c) c
      → (s : BitSlice K) × (view_as_bits S F big_endian c r ≡ ok s)
        × (contents_valid F.integers big_endian s ≡ true)
        × ((p : ℕ) (b : Bool)
            → In (pos p) r
            → memory_bit S F big_endian (F.type_of c) c p ≡ some b
            → In (pos p) s.slice_range × (bit_at F.integers big_endian s (pos p) ≡ b))
  unfolding view_as_bits
  view_as_bits-memory_bit c r v e =
      let (s, g, vs) =
        sanitized-Viewed S F big_endian L (F.type_of c) c v (view_case-Cased (F.type_of c) c e v)
          r in
      (s, g, vs.is_valid, λ p b i h. vs.covers p b (i, h))
