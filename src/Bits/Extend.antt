-- ===== src/Bits/Extend.antt =====
-- `ExtendRange` and `ReduceRange` of `BitSlice` in src/ConstantConversion.cpp, bit by bit.
use dragonegg.Base.{
  ℕ, ◌+◌, ◌-◌, ◌≤◌, ◌<◌, ◌≡◌, inl, inr, refl, arith, Bool, true, false, ◌&&◌, none, some,
  Option-cases, Bool-cases, ltb, leb, if◌then◌else◌,
}
use dragonegg.Base.Int.{ℤ, pos_part, neg_part, ◌-ℤ◌, ◌≤ℤ◌, ◌<ℤ◌, leb_ℤ, ltb_ℤ}
use dragonegg.Base.Results.{ok}
use dragonegg.Range.{Range, no_range, empty, range_eq, contains, get_width}
use dragonegg.Range.Members.{In}
use dragonegg.Bits.{
  Folder, BitSlice, delta, contents_valid, shift_up, shift_down, extend_range, reduce_range,
  bit_index, bit_at,
}

-- A difference that is not negative.
pub delta-eq : (a b : ℤ) → b ≤ℤ a → delta a b + pos_part b + neg_part a ≡ pos_part a + neg_part b
unfolding ◌-ℤ◌
delta-eq a b h = ground arith

-- The position is one of the range.
abbrev pub has_bit : Range → ℤ → Bool
has_bit r p = leb_ℤ r.first p && ltb_ℤ p r.last

-- The bounds that `contains` says of a range that is not empty.
pub contains-bounds :
    (r s : Range)
    → contains r s ≡ true
    → empty s ≡ false
    → (r.first ≤ℤ s.first) × (s.first <ℤ s.last) × (s.last ≤ℤ r.last)
unfolding contains empty
contains-bounds r s h k = ground arith

module _ {C : Type 0} (F : Folder C) (big_endian : Bool) where
  width-shift_up : (old new : Range) (c : C) → F.width (shift_up F big_endian old new c) ≡ F.width c
  unfolding shift_up
  width-shift_up old new c =
      ground
        (arith, F.width-shl c (delta new.last old.last), F.width-shl c (delta old.first new.first))

  width-shift_down :
      (old new : Range) (c : C) → F.width (shift_down F big_endian old new c) ≡ F.width c
  unfolding shift_down
  width-shift_down old new c =
      ground (
        arith,
        F.width-lshr c (delta old.last new.last),
        F.width-lshr c (delta new.first old.first),
      )

  -- A wider constant with the old bits moved up by some places.
  moved_up : C → ℕ → ℕ → C
  moved_up c w n = if ltb 0 n then F.create_shl (F.create_zext c w) n else F.create_zext c w

  bit-moved_up :
      (c : C) (w n j : ℕ)
      → 0 < F.width c
      → F.width c + n ≤ w
      → j < w
      → F.bit (moved_up c w n) j
        ≡ (if leb n j && ltb j (n + F.width c) then F.bit c (j - n) else false)
  unfolding moved_up
  bit-moved_up c w n j h k l = ground (
    arith,
    F.width-zext c w,
    F.bit-zext c w j,
    F.bit-zext c w (j - n),
    F.bit-shl (F.create_zext c w) n j,
  )

  -- A constant with some low bits dropped, cut to a width.
  moved_down : C → ℕ → ℕ → C
  moved_down c n w = F.create_trunc (if ltb 0 n then F.create_lshr c n else c) w

  bit-moved_down :
      (c : C) (n w j : ℕ) → n + w ≤ F.width c → j < w → F.bit (moved_down c n w) j ≡ F.bit c (j + n)
  unfolding moved_down
  bit-moved_down c n w j h k = ground (
    arith,
    F.width-lshr c n,
    F.bit-trunc (F.create_lshr c n) w j,
    F.bit-trunc c w j,
    F.bit-lshr c n j,
  )

  -- The extended contents at a position of the wider range: the old bit inside the old range.
  bit-shift_up :
      (old new : Range) (c : C) (p : ℤ)
      → new.first ≤ℤ old.first
      → old.first <ℤ old.last
      → old.last ≤ℤ new.last
      → F.width c ≡ delta old.last old.first
      → In p new
      → F.bit
          (shift_up F big_endian old new (F.create_zext c (delta new.last new.first)))
          (bit_index F big_endian new p)
        ≡ (if leb_ℤ old.first p && ltb_ℤ p old.last
            then F.bit c (bit_index F big_endian old p)
            else false)
  unfolding shift_up bit_index moved_up
  bit-shift_up old new c p h k l w i =
      let width_old = delta-eq old.last old.first (omega arith) in
      let width_new = delta-eq new.last new.first (omega arith) in
      let at_first = delta-eq old.first new.first h in
      let at_last = delta-eq new.last old.last l in
      let up_from = delta-eq p new.first i.0 in
      let down_from = delta-eq new.last p (omega arith) in
      elim (Bool-cases big_endian) [
        | inl e ↦ ground (
          arith,
          e,
          bit-moved_up c (delta new.last new.first) (delta new.last old.last) (delta new.last p - 1)
              (omega arith) (omega arith) (omega arith),
          λ (q : p <ℤ old.last). delta-eq old.last p (omega arith),
        )
        | inr e ↦ ground (
          arith,
          e,
          bit-moved_up c (delta new.last new.first) (delta old.first new.first) (delta p new.first)
              (omega arith) (omega arith) (omega arith),
          λ (q : old.first ≤ℤ p). delta-eq p old.first q,
        )
      ]

  -- The reduced contents at a position of the smaller range.
  bit-shift_down :
      (old new : Range) (c : C) (p : ℤ)
      → old.first ≤ℤ new.first
      → new.last ≤ℤ old.last
      → F.width c ≡ delta old.last old.first
      → In p new
      → F.bit
          (F.create_trunc (shift_down F big_endian old new c) (delta new.last new.first))
          (bit_index F big_endian new p)
        ≡ F.bit c (bit_index F big_endian old p)
  unfolding shift_down bit_index moved_down
  bit-shift_down old new c p h l w i =
      let width_old = delta-eq old.last old.first (omega arith) in
      let width_new = delta-eq new.last new.first (omega arith) in
      let at_first = delta-eq new.first old.first h in
      let at_last = delta-eq old.last new.last l in
      let up_from = delta-eq p new.first i.0 in
      let down_from = delta-eq new.last p (omega arith) in
      let up_old = delta-eq p old.first (omega arith) in
      let down_old = delta-eq old.last p (omega arith) in
      elim (Bool-cases big_endian) [
        | inl e ↦ ground (
          arith,
          e,
          bit-moved_down c (delta old.last new.last) (delta new.last new.first)
              (delta new.last p - 1) (omega arith) (omega arith),
        )
        | inr e ↦ ground (
          arith,
          e,
          bit-moved_down c (delta new.first old.first) (delta new.last new.first)
              (delta p new.first) (omega arith) (omega arith),
        )
      ]

  -- The contents of a valid slice that is not empty.
  pub valid-contents :
      (s : BitSlice C)
      → contents_valid F big_endian s ≡ true
      → empty s.slice_range ≡ false
      → (c : C) × (s.contents ≡ some c) × (F.width c ≡ delta s.slice_range.last s.slice_range.first)
  unfolding contents_valid get_width empty
  valid-contents s v e = elim (Option-cases s.contents) [
    | inl n ↦ ground arith
    | inr (c, n) ↦ (c, n, ground arith)
  ]

  -- A slice of a range whose bits are those of another at the positions of that one, and 0 elsewhere.
  pub record Extended (s : BitSlice C) (r : Range) (t : BitSlice C) : Type 0 where
    pub is_valid : contents_valid F big_endian t ≡ true
    pub has_range : range_eq t.slice_range r ≡ true
    pub bits_are :
        (p : ℤ)
        → In p r
        → bit_at F big_endian t p ≡ (has_bit s.slice_range p && bit_at F big_endian s p)

  pub extend_range-Extended :
      (s : BitSlice C) (r : Range)
      → contents_valid F big_endian s ≡ true
      → contains r s.slice_range ≡ true
      → (t : BitSlice C) × (extend_range F big_endian s r ≡ ok t) × Extended s r t
  extend_range-Extended s r v k = elim (Bool-cases (range_eq s.slice_range r)) [
    | inl e ↦ (
      s,
      unfold extend_range in ground arith,
      record {
        is_valid = v;
        has_range = e;
        bits_are = λ p i. unfold range_eq empty in ground arith;
      },
    )
    | inr e ↦ elim (Bool-cases (empty s.slice_range)) [
      | inl n ↦ (
        record { slice_range = r; contents = some (F.null_value (delta r.last r.first)) },
        unfold extend_range in ground arith,
        record {
          is_valid =
              unfold contents_valid get_width empty range_eq in
              ground (arith, F.width-null_value (delta r.last r.first));
          has_range = unfold range_eq empty in ground arith;
          bits_are = λ p i.
              unfold bit_at empty in
              ground (arith, F.bit-null_value (delta r.last r.first) (bit_index F big_endian r p));
        },
      )
      | inr n ↦
          let (c, f, w) = valid-contents s v n in
          let (low, inner, high) = contains-bounds r s.slice_range k n in
          let width_old = delta-eq s.slice_range.last s.slice_range.first (omega arith) in
          let width_new = delta-eq r.last r.first (omega arith) in
          (
            record {
              slice_range = r;
              contents =
                  some (
                    shift_up F big_endian s.slice_range r (F.create_zext c (delta r.last r.first)));
            },
            unfold extend_range in ground (arith, f),
            record {
              is_valid =
                  unfold contents_valid get_width empty in
                  ground (
                    arith,
                    width-shift_up s.slice_range r (F.create_zext c (delta r.last r.first)),
                    F.width-zext c (delta r.last r.first),
                  );
              has_range = unfold range_eq empty in ground arith;
              bits_are = λ p i.
                  unfold bit_at in
                  ground (arith, f, bit-shift_up s.slice_range r c p low inner high w i);
            },
          )
    ]
  ]

  -- A slice of a range whose bits are those of another at the same positions.
  pub record Reduced (s : BitSlice C) (r : Range) (t : BitSlice C) : Type 0 where
    pub is_valid : contents_valid F big_endian t ≡ true
    pub has_range : range_eq t.slice_range r ≡ true
    pub bits_are : (p : ℤ) → In p r → bit_at F big_endian t p ≡ bit_at F big_endian s p

  pub reduce_range-Reduced :
      (s : BitSlice C) (r : Range)
      → contents_valid F big_endian s ≡ true
      → contains s.slice_range r ≡ true
      → (t : BitSlice C) × (reduce_range F big_endian s r ≡ ok t) × Reduced s r t
  reduce_range-Reduced s r v k = elim (Bool-cases (range_eq s.slice_range r)) [
    | inl e ↦ (
      s,
      unfold reduce_range in ground arith,
      record { is_valid = v; has_range = e; bits_are = λ p i. refl },
    )
    | inr e ↦ elim (Bool-cases (empty r)) [
      | inl n ↦ (
        record { slice_range = no_range; contents = none },
        unfold reduce_range in ground arith,
        record {
          is_valid = unfold contents_valid empty in refl;
          has_range = unfold range_eq empty in ground arith;
          bits_are = λ p i. unfold empty in ground arith;
        },
      )
      | inr n ↦
          let (low, inner, high) = contains-bounds s.slice_range r k n in
          let (c, f, w) = valid-contents s v (unfold empty in ground arith) in
          let width_old = delta-eq s.slice_range.last s.slice_range.first (omega arith) in
          let width_new = delta-eq r.last r.first (omega arith) in
          (
            record {
              slice_range = r;
              contents = some (
                  F.create_trunc (shift_down F big_endian s.slice_range r c)
                    (delta r.last r.first));
            },
            unfold reduce_range in ground (arith, f),
            record {
              is_valid =
                  unfold contents_valid get_width empty in
                  ground (
                    arith,
                    width-shift_down s.slice_range r c,
                    F.width-trunc (shift_down F big_endian s.slice_range r c)
                        (delta r.last r.first),
                  );
              has_range = unfold range_eq empty in ground arith;
              bits_are = λ p i.
                  unfold bit_at in
                  ground (arith, f, bit-shift_down s.slice_range r c p low high w i);
            },
          )
    ]
  ]
