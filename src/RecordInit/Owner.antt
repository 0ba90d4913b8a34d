-- ===== src/RecordInit/Owner.antt =====
-- Which initial value every bit of a record gets in `ConvertRecordCONSTRUCTOR` of
-- src/ConstantConversion.cpp, overlapping fields of unions included.
use mathlib.Core.List.{reverse, reverse_aux, reverse_aux-eq, reverse-reverse}
use dragonegg.Base.{
  ◌≡◌, refl, ◌∙◌, ap, Bool, true, Option, some, List, [], ◌∷◌, ◌++◌, if◌then◌else◌,
}
use dragonegg.Base.Int.{ℤ}
use dragonegg.Base.Results.{Result, ok}
use dragonegg.Views.{Sizes, Constants}
use dragonegg.Interpret.{Makers}
use dragonegg.Intervals.{is_sane, add_interval}
use dragonegg.Intervals.Add.{add_interval-is_sane}
use dragonegg.Intervals.Owner.{has, owner, add_interval-owner}
use dragonegg.RecordInit.{
  FieldContents, RecordFacts, FieldEntry, content_intervals, zero_fields, initial_contents, add_all,
  unaligned_layout,
}

module _ {K : Type 0} (S : Sizes) (F : Constants K) (G : Makers K) (big_endian : Bool) where
  add_all-owner :
      (p : ℤ) (xs layout before : List (FieldContents K))
      → is_sane (content_intervals S F G big_endian) layout ≡ true
      → owner (content_intervals S F G big_endian) p layout
        ≡ owner (content_intervals S F G big_endian) p before
      → owner (content_intervals S F G big_endian) p (add_all S F G big_endian xs layout)
        ≡ owner (content_intervals S F G big_endian) p (reverse_aux xs before)
  unfolding add_all owner
  add_all-owner p [] layout before s h = h
  add_all-owner p (x ∷ xs) layout before s h =
      let I = content_intervals S F G big_endian in
      add_all-owner p xs (add_interval I x layout) (x ∷ before) (add_interval-is_sane I x layout s)
        (add_interval-owner I p x layout s
          ∙ ap (λ (o : Option (Result (Option K))). if has I p x then some (I.content x) else o) h)

  add_all-is_sane :
      (xs layout : List (FieldContents K))
      → is_sane (content_intervals S F G big_endian) layout ≡ true
      → is_sane (content_intervals S F G big_endian) (add_all S F G big_endian xs layout) ≡ true
  unfolding add_all
  add_all-is_sane [] layout s = s
  add_all-is_sane (x ∷ xs) layout s =
      let I = content_intervals S F G big_endian in
      add_all-is_sane xs (add_interval I x layout) (add_interval-is_sane I x layout s)

  nil-is_sane : is_sane (content_intervals S F G big_endian) [] ≡ true
  unfolding is_sane
  nil-is_sane = refl

  -- When the fields' zeros and the initial values can be made, the layout is a list of disjoint
  -- intervals in order in which every bit shows the last initial value given for it, or else the
  -- zero of the first field that has it, or else nothing.
  pub unaligned_layout-owner :
      (t : RecordFacts) (es : List (FieldEntry K)) (zeros values : List (FieldContents K))
      → (if t.default_initialize then zero_fields S F G big_endian t.type_bits t.chain else ok [])
        ≡ ok zeros
      → initial_contents S F G big_endian t.type_bits t.chain 0 es ≡ ok values
      → (layout : List (FieldContents K)) × (unaligned_layout S F G big_endian t es ≡ ok layout)
        × (is_sane (content_intervals S F G big_endian) layout ≡ true)
        × ((p : ℤ)
            → owner (content_intervals S F G big_endian) p layout
              ≡ owner (content_intervals S F G big_endian) p (reverse values ++ zeros))
  unfolding unaligned_layout
  unaligned_layout-owner t es zeros values z v =
      let I = content_intervals S F G big_endian in
      let first = add_all S F G big_endian (reverse zeros) [] in
      let sane = add_all-is_sane (reverse zeros) [] nil-is_sane in
      (
        add_all S F G big_endian values first,
        rw (z, v) refl,
        add_all-is_sane values first sane,
        λ p.
            add_all-owner p values first zeros sane (
              add_all-owner p (reverse zeros) [] [] nil-is_sane refl
              ∙ ap (owner I p) (reverse-reverse zeros))
            ∙ ap (owner I p) (reverse_aux-eq values zeros),
      )
