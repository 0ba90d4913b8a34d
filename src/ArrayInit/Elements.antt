-- ===== src/ArrayInit/Elements.antt =====
-- The elements that `ConvertArrayCONSTRUCTOR` of src/ConstantConversion.cpp makes: below 2^32 of them all
-- are initialized, and each is what following it through the constructor gives.
use native.Mathlib.Nat.{mod-lt, mod-eq_of_lt}
use dragonegg.Base.{
  Option-cases, ◌%◌, ℕ, suc, ◌-◌, ◌^◌, ◌<◌, ◌≡◌, refl, ap, inl, inr, arith, Bool-cases, Option,
  some, List, [], ◌∷◌, map, leb, ◌==◌, if◌then◌else◌, length,
}
use dragonegg.Base.Int.{ℤ, pos_part, ◌-ℤ◌}
use dragonegg.Base.Results.{Result-cases, ok, ok_inj}
use dragonegg.Records.Contents.{DataLayout}
use dragonegg.ArrayInit.{
  initialized, Index, no_index, index, index_range, zero_indexed, Entry, ArrayFacts, ValueMaker,
  filled_range, next_index, resize, write_elements, fill_range, pad_element, place_entries,
  or_default, initial_elements, array_elements,
}
use dragonegg.ArrayInit.Places.{value_at-resize, length-write_elements, length-initial}

module _ {K : Type 0} (d : DataLayout) (G : ValueMaker K) where
  -- The number of elements stays below 2^32.
  fill_range-short :
      (first last : ℕ) (v : K) (xs ys : List (Option K))
      → last < 2 ^ 32
      → length xs < 2 ^ 32
      → fill_range first last v xs ≡ ok ys
      → (length ys < 2 ^ 32) × (suc last < 2 ^ 32)
  unfolding fill_range
  fill_range-short first last v xs ys l k h = elim (Bool-cases (last == 2 ^ 32 - 1)) [
    | inl c ↦ absurd (ground (arith, h, c))
    | inr c ↦
        let start = (if leb (length xs) last then resize (suc last) xs else xs) in
        let same : write_elements first (suc last - first) v start ≡ ys =
          ok_inj (ground (arith, h, c)) in
        let long = length-write_elements first (suc last - first) v start in
        let above : suc last < 2 ^ 32 = ground (arith, c, l) in
        let short : length start < 2 ^ 32 = elim (Bool-cases (leb (length xs) last)) [
          | inl f ↦
              rw f (omega (arith, (value_at-resize (suc last) 0 xs (ground (arith, f))).1, above))
          | inr f ↦ rw f k
        ] in
        (omega (arith, ap length same, long, short), above)
  ]

  filled_range-short :
      (lower : ℤ) (next : ℕ) (x : Index) (r : ℕ × ℕ)
      → next < 2 ^ 32
      → filled_range lower next x ≡ ok r
      → (r.0 < 2 ^ 32) × (r.1 < 2 ^ 32)
  unfolding filled_range zero_indexed
  filled_range-short lower next no_index r l h = ground (arith, l, h)
  filled_range-short lower next (index i) r l h =
      let low = mod-lt (pos_part (i -ℤ lower)) {m = 2 ^ 32} (omega arith) in ground (arith, low, h)
  filled_range-short lower next (index_range i j) r l h =
      let low = mod-lt (pos_part (i -ℤ lower)) {m = 2 ^ 32} (omega arith) in
      let high = mod-lt (pos_part (j -ℤ lower)) {m = 2 ^ 32} (omega arith) in
      ground (arith, low, high, h)

  pub place_entries-short :
      (elt_size : ℕ) (lower : ℤ) (es : List (Entry K)) (next : ℕ) (xs ys : List (Option K))
      → next < 2 ^ 32
      → length xs < 2 ^ 32
      → place_entries d G elt_size lower es next xs ≡ ok ys
      → length ys < 2 ^ 32
  unfolding place_entries
  place_entries-short elt_size lower [] next xs ys l k h = omega (arith, k, ap length (ok_inj h))
  place_entries-short elt_size lower (e ∷ es) next xs ys l k h =
      elim (Result-cases (pad_element d G elt_size e.elt_value)) [
        | inr u ↦ absurd cc
        | inl (v, p) ↦ elim (Result-cases (filled_range lower next e.elt_index)) [
          | inr u ↦ absurd cc
          | inl (r, q) ↦ elim (Result-cases (fill_range r.0 r.1 v xs)) [
            | inr u ↦ absurd cc
            | inl (zs, f) ↦
                let (low, high) = filled_range-short lower next e.elt_index r l q in
                let (short, above) = fill_range-short r.0 r.1 v xs zs high k f in
                place_entries-short elt_size lower es (next_index r.0 r.1) zs ys (ground arith)
                  short (ground (arith, h, p, q, f))
          ]
        ]
      ]

  initialized-all :
      (v : K) (xs : List (Option K))
      → initialized d G v (length xs) xs ≡ ok (map (or_default d G v) xs)
  unfolding initialized
  initialized-all v [] = refl
  initialized-all v (x ∷ xs) = rw (initialized-all v xs) refl

  -- With fewer than 2^32 elements all of them are initialized.
  pub array_elements-small :
      (f : ArrayFacts) (es : List (Entry K)) (ys : List (Option K))
      → ((n : ℕ) → f.type_elts ≡ some n → n < 2 ^ 32)
      → place_entries d G
          (d.alloc_bits f.elt_type)
          f.lower_bound
          es
          0
          (initial_elements d G f.type_elts)
        ≡ ok ys
      → array_elements d G f es ≡ ok (map (or_default d G (G.default_value f.elt_type)) ys)
  unfolding array_elements
  array_elements-small f es ys small p =
      let start : length (initial_elements d G f.type_elts) < 2 ^ 32 =
        elim (Option-cases f.type_elts) [
          | inl e ↦ rw e (omega arith)
          | inr (n, e) ↦ omega (arith, length-initial d G f.type_elts n e, small n e)
        ] in
      let short =
        place_entries-short (d.alloc_bits f.elt_type) f.lower_bound es 0
          (initial_elements d G f.type_elts) ys (omega arith) start p in
      let whole : length ys % 2 ^ 32 ≡ length ys = mod-eq_of_lt short in
      rw (p, whole) (from_elements (G.default_value f.elt_type) ys)
    where
      from_elements :
          (v : K) (zs : List (Option K))
          → (if length zs == 0 then ok [] else initialized d G v (length zs) zs)
            ≡ ok (map (or_default d G v) zs)
      from_elements v [] = refl
      from_elements v (z ∷ zs) = ground (arith, initialized-all v (z ∷ zs))
