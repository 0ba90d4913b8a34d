-- ===== src/Records/Elements.antt =====
-- What `ConvertRecordTypeRecursive` of src/TypeConversion.cpp returns for fields that lie in a type of
-- known size: a struct in which the contents of every range of the layout stand at the range's start.
use dragonegg.Base.{
  ℕ, ◌+◌, ◌%◌, ◌^◌, ◌≤◌, ◌<◌, ◌≡◌, ◌⊎◌, refl, sym, ◌∙◌, subst, arith, inl, inr, Bool, true, false,
  not, ◌&&◌, ◌||◌, Bool-cases, List, [], ◌∷◌, ◌++◌, ltb, ◌==◌,
}
use dragonegg.Base.Int.{ℤ, pos, pos_part, neg_part_zero}
use dragonegg.Base.Results.{ok, ok_inj}
use dragonegg.Ir.{IrType, struct_of}
use dragonegg.Range.{empty}
use dragonegg.Intervals.Sane.{All, All-map, SaneFrom, SaneFrom-lower}
use dragonegg.Intervals.Align.{AllAligned}
use dragonegg.Records.{
  RecordType, type_size, positioned, field_layout, infinite, alignment, needs_pack, elements,
  tail_padding, convert_record,
}
use dragonegg.Records.Fields.{Within, field_fits, field_layout-Within}
use dragonegg.Records.Placement.{
  start, end_of, StandsAt, end_of-append, StandsAt-append_left, StandsAt-append_right, gap-start,
  padding-end_of,
}
use dragonegg.Records.Contents.{
  DataLayout, LayoutRules, TypedRange, typed_intervals, extract_contents, width-range,
  extract_contents-fits,
}

module _ (d : DataLayout) where
  -- The contents of a range stand at its start.
  abbrev pub InPlace : Bool → ℕ → List IrType → TypedRange → Type 0
  InPlace packed previous elts r =
      (ty : IrType) × (extract_contents d r ≡ ok ty)
      × StandsAt d packed previous elts (pos_part r.bits.first) ty

  -- What stands behind the padding and an element stands in the whole.
  behind :
      (packed : Bool) (previous at : ℕ) (pad : List IrType) (ty : IrType) (elts : List IrType)
      → start d packed (end_of d packed previous pad) ty ≡ at
      → (first : ℕ) (u : IrType) → StandsAt d packed (at + d.alloc_bits ty) elts first u
      → StandsAt d packed previous (pad ++ ty ∷ elts) first u
  unfolding StandsAt
  behind packed previous at pad ty elts e first u h =
      StandsAt-append_right d packed previous pad (ty ∷ elts) first u
        (inr (subst (λ (n : ℕ). StandsAt d packed (n + d.alloc_bits ty) elts first u) (sym e) h))

  -- The start of a range suits the alignment of its contents.
  abbrev Suits : TypedRange → Type 0
  Suits r =
      (ty : IrType) → extract_contents d r ≡ ok ty → pos_part r.bits.first % alignment d ty ≡ 0

  module _ (l : LayoutRules d) (size : ℕ) (small : size < 2 ^ 35) where
    -- The contents of a range of whole bytes in the type exist and end in it.
    range_contents :
        (p : ℤ) (r : TypedRange) (rs : List TypedRange)
        → SaneFrom typed_intervals p (r ∷ rs)
        → AllAligned typed_intervals 8 (r ∷ rs)
        → Within size r
        → (ty : IrType) × (extract_contents d r ≡ ok ty)
          × (pos_part r.bits.first + d.alloc_bits ty ≤ pos_part r.bits.last)
    unfolding empty
    range_contents p r rs s a w =
        let wide = width-range r.bits w.0 s.1 in
        let (ty, e, k) =
          extract_contents-fits d l r w.2.0 w.2.1 (ground arith) (omega (arith, wide, a.0))
            (omega (arith, wide, neg_part_zero r.bits.last a.0.1.0)) in
        (ty, e, omega (arith, wide))

    packed_anyway : (rs : List TypedRange) → All (λ r. (true ≡ true) ⊎ Suits r) rs
    packed_anyway [] = tt
    packed_anyway (r ∷ rs) = (inl refl, packed_anyway rs)

    needs_pack-Suits :
        (max_align : ℕ) (p : ℤ) (rs : List TypedRange)
        → SaneFrom typed_intervals p rs
        → AllAligned typed_intervals 8 rs
        → All (Within size) rs
        → (packed : Bool) × (needs_pack d max_align rs ≡ ok packed)
          × All (λ r. (packed ≡ true) ⊎ Suits r) rs
    unfolding needs_pack
    needs_pack-Suits max_align p [] s a w = (false, refl, tt)
    needs_pack-Suits max_align p (r ∷ rs) s a w =
        let (ty, e, k) = range_contents p r rs s a w.0 in
        let (packed, f, q) = needs_pack-Suits max_align r.bits.last rs s.2 a.1 w.1 in
        elim (Bool-cases
          (ltb max_align (alignment d ty) || not (pos_part r.bits.first % alignment d ty == 0))) [
            | inl c ↦ (true, rw e (rw c refl), (inl refl, packed_anyway rs))
            | inr c ↦ (
              packed,
              rw e (rw (c, f) refl),
              (
                inr (λ u g. let same : u ≡ ty = ok_inj (sym g ∙ e) in rw same (ground (arith, c))),
                q,
              ),
            )
          ]

    -- The elements for the rest of the layout, behind an offset at or before its start.
    elements-InPlace :
        (packed : Bool) (previous p : ℕ) (rs : List TypedRange)
        → previous ≤ p
        → p ≤ size
        → previous % 8 ≡ 0
        → SaneFrom typed_intervals (pos p) rs
        → AllAligned typed_intervals 8 rs
        → All (Within size) rs
        → All (λ r. (packed ≡ true) ⊎ Suits r) rs
        → (elts : List IrType) × (e : ℕ) × (elements d packed previous rs ≡ ok (elts, e))
          × (end_of d packed previous elts ≡ e)
          × (e ≤ size)
          × (e % 8 ≡ 0)
          × All (InPlace packed previous elts) rs
    unfolding elements end_of StandsAt
    elements-InPlace packed previous p [] h k m s a w q =
        ([], previous, refl, refl, omega arith, m, tt)
    elements-InPlace packed previous p (r ∷ rs) h k m s a w q =
        let (ty, c, fit) = range_contents (pos p) r rs s a w.0 in
        let first = pos_part r.bits.first in
        let low = neg_part_zero r.bits.first a.0.0.0 in
        let high = neg_part_zero r.bits.last a.0.1.0 in
        let whole = l.whole_alloc ty in
        let (pad, g, at) =
          gap-start d l packed previous first ty (omega (arith, low)) m a.0.0.1
            (omega (arith, low, high, fit)) (elim q.0 [ inl t ↦ inl t | inr t ↦ inr (t ty c) ]) in
        let (elts, e, f, en, es, em, i) =
          elements-InPlace packed (first + d.alloc_bits ty) (pos_part r.bits.last) rs fit
            (omega (arith, low, high)) (omega (arith, whole))
            (SaneFrom-lower typed_intervals r.bits.last (pos (pos_part r.bits.last)) rs
              (omega (arith, high)) s.2)
            a.1 w.1 q.1 in
        let wrap : (first + d.alloc_bits ty) % 2 ^ 64 ≡ first + d.alloc_bits ty =
          omega (arith, low, high, fit) in
        let order : ltb first previous ≡ false = ground (arith, low) in
        (
          pad ++ ty ∷ elts,
          e,
          rw c (rw (order, wrap) (rw (g, f) refl)),
          end_of-append d packed previous pad (ty ∷ elts)
              ∙ subst (λ (n : ℕ). end_of d packed (n + d.alloc_bits ty) elts ≡ e) (sym at) en,
          es,
          em,
          (
            (
              ty,
              c,
              StandsAt-append_right d packed previous pad (ty ∷ elts) first ty (inl (at, refl)),
            ),
            All-map (InPlace packed (first + d.alloc_bits ty) elts)
                (InPlace packed previous (pad ++ ty ∷ elts))
                (λ x j. (j.0, j.1, behind packed previous first pad ty elts at _ j.0 j.2)) rs i,
          ),
        )

    -- The padding behind the last element.
    tail_padding-end_of :
        (packed : Bool) (e : ℕ)
        → e ≤ size
        → e % 8 ≡ 0
        → size % 8 ≡ 0
        → (pad : List IrType) × (tail_padding d size e ≡ ok pad) × (end_of d packed e pad ≡ size)
    unfolding tail_padding end_of
    tail_padding-end_of packed e h k m =
        let (pad, f, en) = padding-end_of d l packed e size h k m small in
        elim (Bool-cases (not (size == infinite) && ltb e size)) [
          | inl c ↦ (pad, rw c f, en)
          | inr c ↦ ([], rw c refl, ground (arith, c))
        ]

  -- For a type of known size, of whole bytes and below 2 ^ 35 bits, whose fields of known position lie
  -- in it and have a size or a type with one, when the type's placeholder is opaque, and a data layout with LLVM's rules, the conversion fails no assertion: it gives a struct that
  -- ends where the type ends and has, for every range of the layout of the fields, the range's contents
  -- at the range's first bit.
  pub convert_record-InPlace :
      (l : LayoutRules d) (t : RecordType)
      → type_size t < 2 ^ 35
      → type_size t % 8 ≡ 0
      → All (λ f. field_fits d t f ≡ true) (positioned t.fields)
      → (layout : List TypedRange) × (packed : Bool) × (elts : List IrType) × (field_layout d t
          ≡ ok layout)
        × (convert_record d true t ≡ ok (struct_of packed elts))
        × (end_of d packed 0 elts ≡ type_size t)
        × All (InPlace packed 0 elts) layout
  unfolding convert_record
  convert_record-InPlace l t small whole fits =
      let size = type_size t in
      let (layout, f, s, a, w) = field_layout-Within d t fits whole (omega arith) in
      let (packed, n, q) = needs_pack-Suits l size small t.align_bits (pos 0) layout s a w in
      let (elts, e, m, en, es, em, i) =
        elements-InPlace l size small packed 0 0 layout (omega arith) (omega arith) refl s a w q in
      let (pad, k, done) = tail_padding-end_of l size small packed e es em whole in
      (
        layout,
        packed,
        elts ++ pad,
        f,
        rw f (rw n (rw m (rw k refl))),
        end_of-append d packed 0 elts pad ∙ rw en done,
        All-map (InPlace packed 0 elts) (InPlace packed 0 (elts ++ pad))
            (λ x j. (j.0, j.1, StandsAt-append_left d packed 0 elts pad _ j.0 j.2)) layout i,
      )
