-- ===== src/Bits/Hull.antt =====
-- `getBits` and `Merge` of `BitSlice` in src/ConstantConversion.cpp: both go through the convex hull.
use dragonegg.Base.{◌≡◌, inl, inr, arith, Bool, true, false, ◌&&◌, ◌||◌, some, Bool-cases}
use dragonegg.Base.Int.{ℤ, eq_of_parts}
use dragonegg.Base.Results.{ok}
use dragonegg.Range.{Range, empty, range_eq, contains, intersects, join, get_width}
use dragonegg.Range.Members.{In}
use dragonegg.Bits.{Folder, BitSlice, delta, contents_valid, get_bits, merge, bit_index, bit_at}
use dragonegg.Bits.Extend.{valid-contents, has_bit, extend_range-Extended, reduce_range-Reduced}

contains-join_left : (r s : Range) → contains (join r s) r ≡ true
unfolding contains join empty
contains-join_left r s = ground arith

contains-join_right : (r s : Range) → contains (join r s) s ≡ true
unfolding contains join empty
contains-join_right r s = ground arith

contains-same : (r s t : Range) → range_eq r s ≡ true → contains s t ≡ true → contains r t ≡ true
unfolding contains range_eq empty
contains-same r s t h k = ground arith

In-join : (r s : Range) (p : ℤ) → In p s → In p (join r s)
unfolding join empty
In-join r s p h = ground arith

same-bounds :
    (r s : Range) (p : ℤ) → range_eq r s ≡ true → In p s → (r.first ≡ s.first) × (r.last ≡ s.last)
unfolding range_eq empty
same-bounds r s p h i =
    (eq_of_parts r.first s.first (ground arith), eq_of_parts r.last s.last (ground arith))

bit_index-same :
    (big_endian : Bool) {C : Type 0} (F : Folder C) (r s : Range) (p : ℤ)
    → range_eq r s ≡ true
    → In p s
    → bit_index F big_endian r p ≡ bit_index F big_endian s p
unfolding bit_index
bit_index-same big_endian F r s p h i = let (e, f) = same-bounds r s p h i in rw (e, f)

range_eq_refl : (r : Range) → range_eq r r ≡ true
unfolding range_eq empty
range_eq_refl r = ground arith

In-empty : (r : Range) (p : ℤ) → In p r → empty r ≡ false
unfolding empty
In-empty r p h = ground arith

delta-same :
    (r s : Range) (p : ℤ)
    → range_eq r s ≡ true
    → In p s
    → delta r.last r.first ≡ delta s.last s.first
delta-same r s p h i = let (e, f) = same-bounds r s p h i in rw (e, f)

module _ {C : Type 0} (F : Folder C) (big_endian : Bool) where
  slice-valid :
      (r : Range) (c : C)
      → empty r ≡ false
      → F.width c ≡ delta r.last r.first
      → contents_valid F big_endian (record { slice_range = r; contents = some c }) ≡ true
  unfolding contents_valid get_width empty
  slice-valid r c e w = ground arith

  -- The contents of a valid slice with a bit at a position of the range that it equals.
  contents-at :
      (s : BitSlice C) (r : Range) (p : ℤ)
      → contents_valid F big_endian s ≡ true
      → range_eq s.slice_range r ≡ true
      → In p r
      → (c : C) × (s.contents ≡ some c)
        × (F.width c ≡ delta r.last r.first)
        × (F.bit c (bit_index F big_endian r p) ≡ bit_at F big_endian s p)
  contents-at s r p v h i =
      let (c, f, w) = valid-contents F big_endian s v (unfold range_eq empty in ground arith) in
      (
        c,
        f,
        ground (arith, w, delta-same s.slice_range r p h i),
        unfold bit_at in ground (arith, f, bit_index-same big_endian F s.slice_range r p h i),
      )

  -- The bits that a valid slice has in the range asked for are handed over at their places: for
  -- every position of both ranges, the constant of the width of the range asked for has the bit
  -- that the slice has there. The code returns, with its assertions met.
  pub get_bits-bit_at :
      (s : BitSlice C) (r : Range) (p : ℤ)
      → contents_valid F big_endian s ≡ true
      → In p r
      → In p s.slice_range
      → (c : C) × (get_bits F big_endian s r ≡ ok (some c))
        × (F.width c ≡ delta r.last r.first)
        × (F.bit c (bit_index F big_endian r p) ≡ bit_at F big_endian s p)
  get_bits-bit_at s r p v i j = elim (Bool-cases (range_eq s.slice_range r)) [
    | inl e ↦
        let (c, f, w, b) = contents-at s r p v e i in
        (c, unfold get_bits empty in ground (arith, f), w, b)
    | inr e ↦
        let hull = join s.slice_range r in
        let (a, h, x) =
          extend_range-Extended F big_endian s hull v (contains-join_left s.slice_range r) in
        let (d, k, y) =
          reduce_range-Reduced F big_endian a r x.is_valid (
            contains-same a.slice_range hull r x.has_range (contains-join_right s.slice_range r)) in
        let (c, f, w, b) = contents-at d r p y.is_valid y.has_range i in
        (
          c,
          unfold get_bits empty in ground (arith, h, k, f),
          w,
          ground (arith, b, y.bits_are p i, x.bits_are p (In-join s.slice_range r p i)),
        )
  ]

  -- Merging two valid slices whose ranges do not intersect meets no failed assertion and gives a
  -- valid slice of their convex hull: at every position of it the bit of the slice that has the
  -- position, and 0 in the gap between them.
  pub merge-bit_at :
      (s t : BitSlice C) (p : ℤ)
      → contents_valid F big_endian s ≡ true
      → contents_valid F big_endian t ≡ true
      → intersects s.slice_range t.slice_range ≡ false
      → In p (join s.slice_range t.slice_range)
      → (u : BitSlice C) × (merge F big_endian s t ≡ ok u)
        × (contents_valid F big_endian u ≡ true)
        × (range_eq u.slice_range (join s.slice_range t.slice_range) ≡ true)
        × (bit_at F big_endian u p ≡ (
            has_bit s.slice_range p && bit_at F big_endian s p
            || has_bit t.slice_range p && bit_at F big_endian t p))
  merge-bit_at s t p v w d i = elim (Bool-cases (empty t.slice_range)) [
    | inl e ↦ (
      s,
      unfold merge in ground arith,
      v,
      unfold join range_eq empty in ground arith,
      unfold join empty in ground arith,
    )
    | inr e ↦ elim (Bool-cases (empty s.slice_range)) [
      | inl f ↦ (
        t,
        unfold merge in ground arith,
        w,
        unfold join range_eq empty in ground arith,
        unfold join empty in ground arith,
      )
      | inr f ↦
          let hull = join s.slice_range t.slice_range in
          let (a, h, x) =
            extend_range-Extended F big_endian s hull v
              (contains-join_left s.slice_range t.slice_range) in
          let (b, k, y) =
            extend_range-Extended F big_endian t hull w
              (contains-join_right s.slice_range t.slice_range) in
          let (c, l, cw, cb) = contents-at a hull p x.is_valid x.has_range i in
          let (g, m, gw, gb) = contents-at b hull p y.is_valid y.has_range i in
          (
            record { slice_range = hull; contents = some (F.create_or c g) },
            unfold merge in ground (arith, h, k, l, m),
            slice-valid hull (F.create_or c g) (In-empty hull p i) (ground (arith, F.width-or c g)),
            range_eq_refl hull,
            unfold bit_at in
                ground (
                  arith,
                  F.bit-or c g (bit_index F big_endian hull p),
                  x.bits_are p i,
                  y.bits_are p i,
                  cb,
                  gb,
                  cw,
                  gw,
                ),
          )
    ]
  ]

  -- A range that is not empty always gets a constant of its width.
  pub get_bits-width :
      (s : BitSlice C) (r : Range)
      → contents_valid F big_endian s ≡ true
      → empty r ≡ false
      → (c : C) × (get_bits F big_endian s r ≡ ok (some c)) × (F.width c ≡ delta r.last r.first)
  get_bits-width s r v n =
      let i : In r.first r = unfold empty in ground arith in
      elim (Bool-cases (range_eq s.slice_range r)) [
        | inl e ↦
            let (c, f, w, b) = contents-at s r r.first v e i in
            (c, unfold get_bits in ground (arith, f), w)
        | inr e ↦ elim (Bool-cases (empty s.slice_range)) [
          | inl m ↦ (
            F.undef_value (delta r.last r.first),
            unfold get_bits in ground arith,
            F.width-undef_value (delta r.last r.first),
          )
          | inr m ↦
              let hull = join s.slice_range r in
              let (a, h, x) =
                extend_range-Extended F big_endian s hull v (contains-join_left s.slice_range r) in
              let (d, k, y) = reduce_range-Reduced F big_endian a r x.is_valid (
                contains-same a.slice_range hull r x.has_range
                  (contains-join_right s.slice_range r)) in
              let (c, f, w, b) = contents-at d r r.first y.is_valid y.has_range i in
              (c, unfold get_bits in ground (arith, h, k, f), w)
        ]
      ]
