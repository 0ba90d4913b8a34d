-- ===== src/Views/Parts.antt =====
-- The loop of `ViewAsBits` of src/ConstantConversion.cpp over the elements of an array or a vector: every
-- wanted bit of an element is collected at its place.
use dragonegg.Base.{
  ℕ, zero, suc, ◌+◌, ◌-◌, ◌*◌, ◌/◌, ◌%◌, ◌≤◌, ◌<◌, ◌≡◌, ◌⊎◌, inl, inr, refl, sym, arith, Bool,
  false, Option, some, none, Bool-cases, subst, ltb, if◌then◌else◌,
}
use dragonegg.Base.Int.{pos, pos_part, neg_part_zero, neg_ℤ, ◌≤ℤ◌, ◌<ℤ◌, +ℤ_parts, -ℤ_parts}
use dragonegg.Base.Results.{Result, ok}
use dragonegg.Range.{Range, empty, displace, meet}
use dragonegg.Range.Members.{In}
use dragonegg.Bits.{BitSlice, contents_valid}
use dragonegg.Views.{Sizes, Constants, no_bits, add_part, needed_bits, view_elements, view_array}
use dragonegg.Views.Merge.{Views, Inside-wider, merge-Views}
use native.Mathlib.Nat.{
  le-div_iff_mul-le, div-lt_iff_lt-mul, div-mul-le_self, lt-div-mul-add, div-eq_of_lt-le,
  mod-eq-sub-div-mul, mul-le-mul_right,
}

-- What the caller sees of a part: the bits that it has at the positions of the range.
abbrev pub Seen : Range → (ℕ → Option Bool) → ℕ → Bool → Type 0
Seen r bit p b = In (pos p) r × (bit p ≡ some b)

suc_times : (i n : ℕ) → suc i * n ≡ i * n + n
suc_times i n = omega arith

times_below : (i j n : ℕ) → i < j → i * n + n ≤ j * n
times_below i j n h = omega (arith, mul-le-mul_right {m = suc i} {n = j} n h, suc_times i n)

-- The index of the element that a position falls in, and its place there.
element_index : (n i p : ℕ) → i * n ≤ p → p < suc i * n → p / n ≡ i
element_index n i p h k = div-eq_of_lt-le {k = i} n {m = p} h (omega (arith, k, suc_times i n))

element_place : (n i p : ℕ) → p / n ≡ i → p % n ≡ p - i * n
element_place n i p h = subst (λ (j : ℕ). p % n ≡ p - j * n) h (mod-eq-sub-div-mul p n)

module _ {K : Type 0} (S : Sizes) (F : Constants K) (big_endian : Bool) where
  pub needed_bits-In :
      (width offset p : ℕ) (r : Range)
      → offset ≤ p
      → p < offset + width
      → In (pos p) r
      → In (pos (p - offset)) (needed_bits S F big_endian width offset r)
  unfolding needed_bits meet displace empty
  needed_bits-In width offset p r h k i = ground (
    arith,
    +ℤ_parts r.first (neg_ℤ (pos offset)),
    +ℤ_parts r.last (neg_ℤ (pos offset)),
    -ℤ_parts (pos 0) (pos offset),
  )

  pub needed_bits-empty :
      (width offset : ℕ) (r : Range)
      → r.first <ℤ r.last
      → r.first <ℤ pos (offset + width)
      → pos offset <ℤ r.last
      → 0 < width
      → empty (needed_bits S F big_endian width offset r) ≡ false
  unfolding needed_bits meet displace empty
  needed_bits-empty width offset r h k l m = ground (
    arith,
    +ℤ_parts r.first (neg_ℤ (pos offset)),
    +ℤ_parts r.last (neg_ℤ (pos offset)),
    -ℤ_parts (pos 0) (pos offset),
  )

  -- Bits with other, weaker wishes and more room.
  pub Views-weaken :
      (a b : ℕ) (v w : ℕ → Bool → Type 0) (s : BitSlice K)
      → a ≤ b
      → ((p : ℕ) (x : Bool) → w p x → v p x)
      → Views F.integers big_endian a v s
      → Views F.integers big_endian b w s
  Views-weaken a b v w s h k vs = record {
    is_valid = vs.is_valid;
    inside = Inside-wider 0 a b s.slice_range h vs.inside;
    covers = λ p x y. vs.covers p x (k p x y);
  }

  -- One part more: of a width, at an offset, with bits of its own.
  pub add_part-Views :
      (view : Range → Result (BitSlice K)) (offset w : ℕ) (r : Range) (s e : BitSlice K)
      (bit : ℕ → Option Bool) (known all : ℕ → Bool → Type 0)
      → Views F.integers big_endian offset known s
      → view (needed_bits S F big_endian w offset r) ≡ ok e
      → Views F.integers big_endian w (Seen (needed_bits S F big_endian w offset r) bit) e
      → ((p : ℕ) (b : Bool)
          → all p b
          → known p b
            ⊎ ((offset ≤ p) × (p < offset + w) × In (pos p) r × (bit (p - offset) ≡ some b)))
      → (u : BitSlice K) × (add_part S F big_endian view offset
            (needed_bits S F big_endian w offset r)
            s
          ≡ ok u)
        × Views F.integers big_endian (offset + w) all u
  unfolding add_part
  add_part-Views view offset w r s e bit known all vs eq ve split =
      let part = Seen (needed_bits S F big_endian w offset r) bit in
      let (u, m, vu) = merge-Views F.integers big_endian offset w s e known part all vs ve (λ p b a.
        elim (split p b a) [
          | inl k ↦ inl k
          | inr (h, k, i, f) ↦ inr (h, (needed_bits-In w offset p r h k i, f))
        ]) in
      (u, rw eq m, vu)

  module _ (view : ℕ → Range → Result (BitSlice K)) (stride n : ℕ) (r : Range)
      (bit : ℕ → ℕ → Option Bool) (large : 0 < stride)
      (viewed : (i : ℕ) (q : Range)
        → i < n
        → (e : BitSlice K) × (view i q ≡ ok e)
          × Views F.integers big_endian stride (Seen q (bit i)) e) where
    -- The wanted bits of the elements before index `i`.
    abbrev Below : ℕ → ℕ → Bool → Type 0
    Below i p b = (p < i * stride) × In (pos p) r × (bit (p / stride) (p % stride) ≡ some b)

    element-In :
        (i p : ℕ) (b : Bool)
        → Below (suc i) p b
        → Below i p b
          ⊎ ((i * stride ≤ p)
              × (p < i * stride + stride)
              × In (pos p) r
              × (bit i (p - i * stride) ≡ some b))
    element-In i p b (h, k, f) = elim (Bool-cases (ltb p (i * stride))) [
      | inl c ↦ inl (ground arith, k, f)
      | inr c ↦
          let at = element_index stride i p (ground arith) h in
          let place = element_place stride i p at in
          inr (
            ground arith,
            omega (arith, h, suc_times i stride),
            k,
            subst (λ (x : ℕ). bit i x ≡ some b) place
                (subst (λ (j : ℕ). bit j (p % stride) ≡ some b) at f),
          )
    ]

    view_elements-Views :
        (count i last : ℕ) (s : BitSlice K)
        → i + count ≡ last
        → last ≤ n
        → pos_part r.first < suc i * stride
        → last * stride < pos_part r.last + stride
        → r.first <ℤ r.last
        → pos 0 ≤ℤ r.first
        → Views F.integers big_endian (i * stride) (Below i) s
        → (u : BitSlice K) × (view_elements S F big_endian view stride r count i s ≡ ok u)
          × Views F.integers big_endian (last * stride) (Below last) u
    unfolding view_elements
    view_elements-Views zero i last s j h k l m z v = (
      s,
      refl,
      subst (λ (x : ℕ). Views F.integers big_endian (x * stride) (Below x) s) (omega arith) v,
    )
    view_elements-Views (suc count) i last s j h k l m z v =
        let (e, eq, ve) =
          viewed i (needed_bits S F big_endian stride (i * stride) r) (omega arith) in
        let (u, a, vu) =
          add_part-Views (view i) (i * stride) stride r s e (bit i) (Below i) (Below (suc i)) v eq
            ve (element-In i) in
        let up =
          subst (λ (x : ℕ). Views F.integers big_endian x (Below (suc i)) u)
            (sym (suc_times i stride)) vu in
        let (t, b, vt) =
          view_elements-Views count (suc i) last u (omega arith) h
            (omega (arith, suc_times (suc i) stride)) l m z up in
        let nonempty =
          needed_bits-empty stride (i * stride) r m (omega (arith, suc_times i stride))
            (omega
              (arith, times_below i last stride (omega arith), neg_part_zero r.last (omega arith)))
            large in
        (t, rw (nonempty, a) b, vt)

    no_bits-Views :
        (w i : ℕ)
        → i * stride ≤ pos_part r.first
        → pos 0 ≤ℤ r.first
        → Views F.integers big_endian w (Below i) no_bits
    no_bits-Views w i h z = record {
      is_valid = unfold contents_valid empty in refl;
      inside = λ p k. absurd (omega (arith, k));
      covers = λ p b (k, l, f). absurd (omega (arith, k, l.0, h, neg_part_zero r.first z));
    }

    -- A range in the array: its elements that overlap it are viewed, and every bit of theirs that
    -- is in the range is there.
    pub view_array-Views :
        r.first <ℤ r.last
        → pos 0 ≤ℤ r.first
        → r.last ≤ℤ pos (n * stride)
        → (u : BitSlice K) × (view_array S F big_endian view stride n r ≡ ok u)
          × Views F.integers big_endian
              (n * stride)
              (Seen r (λ p. if ltb p (n * stride) then bit (p / stride) (p % stride) else none))
              u
    unfolding view_array
    view_array-Views m z e =
        let a = pos_part r.first in
        let b = pos_part r.last in
        let first = a / stride in
        let last = (b + stride - 1) / stride in
        let low = neg_part_zero r.first z in
        let high = neg_part_zero r.last (omega arith) in
        let starts = div-mul-le_self a stride in
        let starts_after = lt-div-mul-add {a = a} {b = stride} large in
        let stops = div-mul-le_self (b + stride - 1) stride in
        let stops_after = lt-div-mul-add {a = b + stride - 1} {b = stride} large in
        let fits : last ≤ n = omega (
          arith,
          (div-lt_iff_lt-mul {k = stride} {x = b + stride - 1} {y = suc n} large).1
              (omega (arith, suc_times n stride)),
        ) in
        let ordered : first ≤ last = omega (
          arith,
          (le-div_iff_mul-le {k = stride} {x = first} {y = b + stride - 1} large).1 (omega arith),
        ) in
        let (u, v, vu) =
          view_elements-Views (last - first) first last no_bits (omega arith) fits
            (omega (arith, suc_times first stride)) (omega arith) m z
            (no_bits-Views (first * stride) first starts z) in
        (
          u,
          ground (arith, v),
          Views-weaken (last * stride) (n * stride) (Below last)
              (Seen r (λ p. if ltb p (n * stride) then bit (p / stride) (p % stride) else none)) u
              (mul-le-mul_right {m = last} {n = n} stride fits)
              (λ p x (i, f). (omega arith, i, ground (arith, f))) vu,
        )
