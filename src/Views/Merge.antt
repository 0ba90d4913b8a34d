-- ===== src/Views/Merge.antt =====
-- How `ViewAsBits` of src/ConstantConversion.cpp collects the bits of the parts of a constant: by
-- `Displace` and `Merge` of `BitSlice`.
use dragonegg.Base.{
  ℕ, ◌+◌, ◌-◌, ◌≤◌, ◌≡◌, ◌⊎◌, inl, inr, sym, ◌∙◌, arith, Bool, true, false, ◌&&◌, ◌||◌, Bool-cases,
  subst,
}
use dragonegg.Base.Int.{ℤ, pos, ◌+ℤ◌, ◌-ℤ◌, ◌≤ℤ◌, ◌<ℤ◌, +ℤ_parts, -ℤ_parts, eq_of_parts}
use dragonegg.Base.Results.{ok, ok_inj}
use dragonegg.Range.{Range, empty, range_eq, intersects, displace, join, get_width}
use dragonegg.Range.Members.{In}
use dragonegg.Bits.{
  Folder, BitSlice, delta, contents_valid, merge, displace_slice, bit_index, bit_at,
}
use dragonegg.Bits.Extend.{has_bit}
use dragonegg.Bits.Hull.{merge-bit_at}

In-has_bit : (r : Range) (p : ℤ) → In p r → has_bit r p ≡ true
In-has_bit r p h = ground arith

out-has_bit : (r : Range) (p : ℤ) → ¬ (In p r) → has_bit r p ≡ false
out-has_bit r p h = ground arith

-- A difference does not change when both sides move.
delta_moved : (a b o : ℤ) → delta (a +ℤ o) (b +ℤ o) ≡ delta a b
unfolding ◌-ℤ◌
delta_moved a b o = ground (arith, +ℤ_parts a o, +ℤ_parts b o)

In-join_left : (r s : Range) (p : ℤ) → In p r → In p (join r s)
unfolding join empty
In-join_left r s p h = ground arith

In-join_right : (r s : Range) (p : ℤ) → In p s → In p (join r s)
unfolding join empty
In-join_right r s p h = ground arith

In-same : (r s : Range) (p : ℤ) → range_eq r s ≡ true → In p s → In p r
unfolding range_eq empty
In-same r s p h i = ground arith

In-same_back : (r s : Range) (p : ℤ) → range_eq r s ≡ true → In p r → In p s
unfolding range_eq empty
In-same_back r s p h i = ground arith

-- Every position of the range is from the first number on and below the second.
abbrev pub Inside : ℕ → ℕ → Range → Type 0
Inside a b r = (p : ℤ) → In p r → (pos a ≤ℤ p) × (p <ℤ pos b)

Inside-disjoint : (a b c : ℕ) (r s : Range) → Inside a b r → Inside b c s → intersects r s ≡ false
unfolding intersects empty
Inside-disjoint a b c r s h k = ground (
  arith,
  h (r.last -ℤ pos 1),
  -ℤ_parts r.last (pos 1),
  k s.first,
  h r.first,
  k (s.last -ℤ pos 1),
  -ℤ_parts s.last (pos 1),
)

Inside-join :
    (a b c : ℕ) (r s : Range) → a ≤ b → b ≤ c → Inside a b r → Inside b c s → Inside a c (join r s)
unfolding join empty
Inside-join a b c r s ab bc h k p i = ground (
  arith,
  h p,
  k p,
  h (r.last -ℤ pos 1),
  -ℤ_parts r.last (pos 1),
  k s.first,
  h r.first,
  k (s.last -ℤ pos 1),
  -ℤ_parts s.last (pos 1),
)

pub Inside-displace : (w o : ℕ) (r : Range) → Inside 0 w r → Inside o (o + w) (displace r (pos o))
unfolding displace empty
Inside-displace w o r h p i =
    ground
      (arith, +ℤ_parts r.first (pos o), +ℤ_parts r.last (pos o), h (p -ℤ pos o), -ℤ_parts p (pos o))

pub Inside-wider : (a b c : ℕ) (r : Range) → b ≤ c → Inside a b r → Inside a c r
Inside-wider a b c r k h p i = let (x, y) = h p i in (x, omega arith)

pub In-displace : (r : Range) (q o : ℤ) → In q r → In (q +ℤ o) (displace r o)
unfolding displace empty
In-displace r q o h = ground (arith, +ℤ_parts r.first o, +ℤ_parts r.last o, +ℤ_parts q o)

-- A position counted from an offset.
from_offset : (p o : ℕ) → o ≤ p → pos (p - o) +ℤ pos o ≡ pos p
from_offset p o h =
    eq_of_parts (pos (p - o) +ℤ pos o) (pos p) (omega (arith, +ℤ_parts (pos (p - o)) (pos o)))

In-first : (r : Range) → empty r ≡ false → In r.first r
unfolding empty
In-first r e = ground arith

module _ {K : Type 0} (F : Folder K) (big_endian : Bool) where
  -- The slice with the contents of another, moved.
  pub contents_valid-displace :
      (s : BitSlice K) (o : ℤ)
      → contents_valid F big_endian s ≡ true
      → contents_valid F big_endian (displace_slice F big_endian s o) ≡ true
  unfolding contents_valid displace_slice displace empty get_width
  contents_valid-displace s o h = ground (
    arith,
    delta_moved s.slice_range.last s.slice_range.first o,
    +ℤ_parts s.slice_range.first o,
    +ℤ_parts s.slice_range.last o,
  )

  pub bit_at-displace :
      (s : BitSlice K) (o p : ℤ)
      → In p s.slice_range
      → bit_at F big_endian (displace_slice F big_endian s o) (p +ℤ o) ≡ bit_at F big_endian s p
  unfolding bit_at displace_slice displace empty bit_index
  bit_at-displace s o p h =
      ground (arith, delta_moved s.slice_range.last p o, delta_moved p s.slice_range.first o)

  displaced-at :
      (e : BitSlice K) (p o : ℕ) (b : Bool)
      → o ≤ p
      → In (pos (p - o)) e.slice_range
      → bit_at F big_endian e (pos (p - o)) ≡ b
      → In (pos p) (displace_slice F big_endian e (pos o)).slice_range
        × (bit_at F big_endian (displace_slice F big_endian e (pos o)) (pos p) ≡ b)
  displaced-at e p o b h i f =
      let at = from_offset p o h in
      (
        unfold displace_slice in
            subst (λ (x : ℤ). In x (displace e.slice_range (pos o))) at
              (In-displace e.slice_range (pos (p - o)) (pos o) i),
        subst (λ (x : ℤ). bit_at F big_endian (displace_slice F big_endian e (pos o)) x ≡ b) at
            (bit_at-displace e (pos o) (pos (p - o)) i ∙ f),
      )

  -- What merging gives, for all positions at once.
  abbrev Merged : BitSlice K → BitSlice K → BitSlice K → Type 0
  Merged s t u =
      (contents_valid F big_endian u ≡ true)
      × (range_eq u.slice_range (join s.slice_range t.slice_range) ≡ true)
      × ((p : ℤ)
          → In p (join s.slice_range t.slice_range)
          → bit_at F big_endian u p ≡ (
              has_bit s.slice_range p && bit_at F big_endian s p
              || has_bit t.slice_range p && bit_at F big_endian t p))

  merge-left :
      (s t : BitSlice K)
      → contents_valid F big_endian s ≡ true
      → empty t.slice_range ≡ true
      → (u : BitSlice K) × (merge F big_endian s t ≡ ok u) × Merged s t u
  merge-left s t v e = (
    s,
    unfold merge in ground arith,
    (v, unfold join range_eq empty in ground arith, λ p i. unfold join empty in ground arith),
  )

  merge-Merged :
      (s t : BitSlice K)
      → contents_valid F big_endian s ≡ true
      → contents_valid F big_endian t ≡ true
      → intersects s.slice_range t.slice_range ≡ false
      → (u : BitSlice K) × (merge F big_endian s t ≡ ok u) × Merged s t u
  merge-Merged s t v w d = elim (Bool-cases (empty t.slice_range)) [
    | inl e ↦ merge-left s t v e
    | inr e ↦
        let in_hull =
          In-join_right s.slice_range t.slice_range t.slice_range.first
            (In-first t.slice_range e) in
        let (u, m, v_u, r, b) = merge-bit_at F big_endian s t t.slice_range.first v w d in_hull in
        (
          u,
          m,
          (
            v_u,
            r,
            λ p i.
                let (u2, m2, v2, r2, b2) = merge-bit_at F big_endian s t p v w d i in
                subst
                  (λ (x : BitSlice K). bit_at F big_endian x p ≡ (
                    has_bit s.slice_range p && bit_at F big_endian s p
                    || has_bit t.slice_range p && bit_at F big_endian t p))
                  (ok_inj (sym m2 ∙ m)) b2,
          ),
        )
  ]

  -- A valid slice inside the first `w` bits with every wanted bit at its position.
  pub record Views (w : ℕ) (wanted : ℕ → Bool → Type 0) (s : BitSlice K) : Type 0 where
    pub is_valid : contents_valid F big_endian s ≡ true
    pub inside : Inside 0 w s.slice_range
    pub covers :
        (p : ℕ) (b : Bool)
        → wanted p b
        → In (pos p) s.slice_range × (bit_at F big_endian s (pos p) ≡ b)

  -- The wanted bits of a part that lies at an offset.
  abbrev pub At : ℕ → (ℕ → Bool → Type 0) → ℕ → Bool → Type 0
  At offset wanted p b = (offset ≤ p) × wanted (p - offset) b

  -- A part behind the known bits is merged at its place, and nothing wanted is lost.
  pub merge-Views :
      (offset w : ℕ) (s e : BitSlice K) (known part all : ℕ → Bool → Type 0)
      → Views offset known s
      → Views w part e
      → ((p : ℕ) (b : Bool) → all p b → known p b ⊎ At offset part p b)
      → (u : BitSlice K) × (merge F big_endian s (displace_slice F big_endian e (pos offset))
          ≡ ok u)
        × Views (offset + w) all u
  merge-Views offset w s e known part all vs ve split =
      let t = displace_slice F big_endian e (pos offset) in
      let t_inside : Inside offset (offset + w) t.slice_range =
        unfold displace_slice in Inside-displace w offset e.slice_range ve.inside in
      let (u, m, (v, r, bits)) =
        merge-Merged s t vs.is_valid (contents_valid-displace e (pos offset) ve.is_valid)
          (Inside-disjoint 0 offset (offset + w) s.slice_range t.slice_range vs.inside t_inside) in
      (
        u,
        m,
        record {
          is_valid = v;
          inside = λ p i.
              Inside-join 0 offset (offset + w) s.slice_range t.slice_range (omega arith)
                (omega arith) vs.inside t_inside p
                (In-same_back u.slice_range (join s.slice_range t.slice_range) p r i);
          covers = λ p b a. elim (split p b a) [
            | inl k ↦
                let (i, f) = vs.covers p b k in
                let j = In-join_left s.slice_range t.slice_range (pos p) i in
                (
                  In-same u.slice_range (join s.slice_range t.slice_range) (pos p) r j,
                  ground (
                    arith,
                    bits (pos p) j,
                    f,
                    In-has_bit s.slice_range (pos p) i,
                    out-has_bit t.slice_range (pos p) (λ x.
                        let (y, z) = t_inside (pos p) x in
                        let (y2, z2) = vs.inside (pos p) i in omega arith),
                  ),
                )
            | inr (le, k) ↦
                let (i, f) = ve.covers (p - offset) b k in
                let (i2, f2) = displaced-at e p offset b le i f in
                let j = In-join_right s.slice_range t.slice_range (pos p) i2 in
                (
                  In-same u.slice_range (join s.slice_range t.slice_range) (pos p) r j,
                  ground (
                    arith,
                    bits (pos p) j,
                    f2,
                    In-has_bit t.slice_range (pos p) i2,
                    out-has_bit s.slice_range (pos p)
                        (λ x. let (y, z) = vs.inside (pos p) x in omega (arith, le)),
                  ),
                )
          ];
        },
      )
