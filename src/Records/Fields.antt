-- ===== src/Records/Fields.antt =====
-- The loop over the fields in `ConvertRecordTypeRecursive` of src/TypeConversion.cpp: what it makes of
-- fields that lie in the type.
use mathlib.Core.List.{reverse, reverse_aux}
use dragonegg.Base.{
  ◌<◌, ℕ, ◌+◌, ◌%◌, ◌^◌, ◌≡◌, refl, arith, inl, inr, Bool, true, ◌&&◌, ◌||◌, Bool-cases, Option,
  some, List, [], ◌∷◌, ltb, leb,
}
use dragonegg.Base.Int.{negsuc, ◌+ℤ◌, pos, ◌≤ℤ◌}
use dragonegg.Base.Results.{ok}
use dragonegg.Ir.{IrType}
use dragonegg.Range.{empty}
use dragonegg.Intervals.{is_sane, add_interval, align_boundaries}
use dragonegg.Intervals.Sane.{All, All-map, SaneFrom, is_sane-IsSane}
use dragonegg.Intervals.Add.{add_interval-is_sane}
use dragonegg.Intervals.Align.{AllAligned, SaneFrom-zero}
use dragonegg.Intervals.Wrapped.{Represents, align_boundaries-IsAligned, align_boundaries-Bounded}
use dragonegg.Intervals.Bounded.{Bounded, JoinKeeps, add_interval-Bounded}
use dragonegg.Records.{
  RecordField, RecordType, is_known, to_uint64, type_size, positioned, field_width, field_interval,
  add_fields, field_layout,
}
use dragonegg.Records.Contents.{DataLayout, TypedRange, typed_range, typed_intervals, join_typed}

-- A type is present.
abbrev pub HasType : Option IrType → Type 0
HasType o = (u : IrType) × (o ≡ some u)

-- Between zero and a size, with a type.
abbrev pub Within : ℕ → TypedRange → Type 0
Within size = Bounded typed_intervals (pos 0) (pos size) HasType

All-reverse_aux {ℓ} :
    {T : Type 0} (P : T → Type ℓ) (xs ys : List T) → All P xs → All P ys → All P (reverse_aux xs ys)
All-reverse_aux P [] ys h k = k
All-reverse_aux P (x ∷ xs) ys h k = All-reverse_aux P xs (x ∷ ys) h.1 (h.0, k)

pub All-reverse {ℓ} : {T : Type 0} (P : T → Type ℓ) (xs : List T) → All P xs → All P (reverse xs)
All-reverse P xs h = All-reverse_aux P xs [] h tt

-- Joining two ranges leaves a type.
join_typed-HasType : (a size : ℕ) → JoinKeeps typed_intervals a (pos size) HasType
unfolding join_typed
join_typed-HasType a size s t h k o = elim (Bool-cases (empty t.bits)) [
  | inl e ↦ rw e h
  | inr e ↦ elim (Bool-cases (empty s.bits)) [ inl f ↦ rw (e, f) k | inr f ↦ rw (e, f) (_, refl) ]
]

module _ (d : DataLayout) (t : RecordType) where
  -- The field starts in the type, has a size, or a type with one, and ends in it unless the type is a qualified union.
  unfoldable pub field_fits : ℕ × RecordField → Bool
  field_fits (first, f) =
      leb first (type_size t)
      && (is_known f.decl_bits || f.is_sized)
      && (leb ((first + field_width d (type_size t) first f) % 2 ^ 64) (type_size t)
          || t.is_qual_union)

  -- Such a field is recorded without a failing assertion, in the type and with its own type.
  field_interval-Within :
      (f : ℕ × RecordField)
      → field_fits f ≡ true
      → (r : TypedRange) × (field_interval d t f ≡ ok r) × Within (type_size t) r
  unfolding field_fits field_interval
  field_interval-Within (first, f) h =
      let last = (first + field_width d (type_size t) first f) % 2 ^ 64 in
      elim (Bool-cases (ltb (type_size t) last)) [
        | inl e ↦ (
          typed_range first (type_size t) f.field_ir,
          ground (arith, e, h),
          (omega arith, ground arith, (f.field_ir, refl)),
        )
        | inr e ↦ (
          typed_range first last f.field_ir,
          ground (arith, e, h),
          (omega arith, ground (arith, e), (f.field_ir, refl)),
        )
      ]

  -- Recording fields that fit gives a sane layout of typed ranges in the type.
  add_fields-Within :
      (fs : List (ℕ × RecordField)) (layout : List TypedRange)
      → All (λ f. field_fits f ≡ true) fs
      → is_sane typed_intervals layout ≡ true
      → All (Within (type_size t)) layout
      → (l : List TypedRange) × (add_fields d t fs layout ≡ ok l)
        × (is_sane typed_intervals l ≡ true)
        × All (Within (type_size t)) l
  unfolding add_fields
  add_fields-Within [] layout h s b = (layout, refl, s, b)
  add_fields-Within (f ∷ fs) layout h s b =
      let (r, e, w) = field_interval-Within f h.0 in
      rw e (
        add_fields-Within fs (add_interval typed_intervals r layout) h.1
          (add_interval-is_sane typed_intervals r layout s)
          (add_interval-Bounded typed_intervals (pos 0) (pos (type_size t)) HasType r layout w b))

  to_uint64-Represents : type_size t < 2 ^ 63 → Represents (to_uint64 d) 8 (pos (type_size t))
  unfolding ◌+ℤ◌
  to_uint64-Represents h (pos n) k l = ground (arith, l)
  to_uint64-Represents h (negsuc n) k l = absurd (omega arith)

  -- For a type of whole bytes, the layout's boundaries are whole bytes within the type.
  pub field_layout-Within :
      All (λ f. field_fits f ≡ true) (positioned t.fields)
      → type_size t % 8 ≡ 0
      → type_size t < 2 ^ 63
      → (l : List TypedRange) × (field_layout d t ≡ ok l)
        × SaneFrom typed_intervals (pos 0) l
        × AllAligned typed_intervals 8 l
        × All (Within (type_size t)) l
  unfolding field_layout is_sane
  field_layout-Within h w small =
      let size = type_size t in
      let fs = reverse (positioned t.fields) in
      let (l, e, s, b) = add_fields-Within fs [] (All-reverse _ (positioned t.fields) h) refl tt in
      let low = All-map (Within size) (λ r. pos 0 ≤ℤ r.bits.first) (λ r k. k.0) l b in
      let (s', a) =
        align_boundaries-IsAligned typed_intervals (to_uint64 d) 8 (pos size) HasType (omega arith)
          (omega arith, w) (to_uint64-Represents small) (join_typed-HasType 8 size) l s b in
      let b' =
        align_boundaries-Bounded typed_intervals (to_uint64 d) 8 (pos size) HasType (omega arith)
          (omega arith, w) (to_uint64-Represents small) (join_typed-HasType 8 size) (pos 0) l
          (SaneFrom-zero typed_intervals l ((is_sane-IsSane typed_intervals l).0 s) low) b in
      let aligned = align_boundaries typed_intervals (to_uint64 d) 8 l in
      let low' = All-map (Within size) (λ r. pos 0 ≤ℤ r.bits.first) (λ r k. k.0) aligned b' in
      (
        aligned,
        rw e refl,
        SaneFrom-zero typed_intervals aligned ((is_sane-IsSane typed_intervals aligned).0 s') low',
        a,
        b',
      )
