-- ===== src/Records/Placement.antt =====
-- Where the elements of the struct that `ConvertRecordTypeRecursive` of src/TypeConversion.cpp makes
-- stand by LLVM's rule for structs: in order, each at the next multiple of its alignment, or right
-- behind the previous one in a packed struct.
use native.Mathlib.Nat.{add-mul-div_right, div-add-mod', div-eq_of_lt}
use dragonegg.Base.{
  ℕ, ◌+◌, ◌-◌, ◌*◌, ◌/◌, ◌%◌, ◌^◌, ◌≤◌, ◌<◌, ◌≡◌, ◌⊎◌, refl, ap, sym, ◌∙◌, arith, inl, inr, Bool,
  true, false, ◌&&◌, Bool-cases, List, [], ◌∷◌, ◌++◌, ltb, if◌then◌else◌,
}
use dragonegg.Base.Results.{ok}
use dragonegg.Ir.{IrType}
use dragonegg.Records.{alignment, needs_padding, padding, gap}
use dragonegg.Records.Contents.{DataLayout, LayoutRules, unit_type}

module _ (d : DataLayout) where
  -- The next place for an element behind an offset.
  unfoldable pub start : Bool → ℕ → IrType → ℕ
  start packed previous t =
      if packed then previous else (previous + alignment d t - 1) / alignment d t * alignment d t

  -- The end of the last of some elements behind an offset.
  unfoldable pub end_of : Bool → ℕ → List IrType → ℕ
  end_of packed previous [] = previous
  end_of packed previous (t ∷ ts) = end_of packed (start packed previous t + d.alloc_bits t) ts

  -- One of the elements is of a type and starts at an offset.
  unfoldable pub StandsAt : Bool → ℕ → List IrType → ℕ → IrType → Type 0
  StandsAt packed previous [] first ty = ⊥
  StandsAt packed previous (t ∷ ts) first ty =
      ((start packed previous t ≡ first) × (t ≡ ty))
      ⊎ StandsAt packed (start packed previous t + d.alloc_bits t) ts first ty

  pub end_of-append :
      (packed : Bool) (previous : ℕ) (xs ys : List IrType)
      → end_of packed previous (xs ++ ys) ≡ end_of packed (end_of packed previous xs) ys
  unfolding end_of
  end_of-append packed previous [] ys = refl
  end_of-append packed previous (x ∷ xs) ys =
      end_of-append packed (start packed previous x + d.alloc_bits x) xs ys

  pub StandsAt-append_left :
      (packed : Bool) (previous : ℕ) (xs ys : List IrType) (first : ℕ) (ty : IrType)
      → StandsAt packed previous xs first ty
      → StandsAt packed previous (xs ++ ys) first ty
  unfolding StandsAt
  StandsAt-append_left packed previous [] ys first ty h = absurd h
  StandsAt-append_left packed previous (x ∷ xs) ys first ty (inl h) = inl h
  StandsAt-append_left packed previous (x ∷ xs) ys first ty (inr h) =
      inr (StandsAt-append_left packed (start packed previous x + d.alloc_bits x) xs ys first ty h)

  pub StandsAt-append_right :
      (packed : Bool) (previous : ℕ) (xs ys : List IrType) (first : ℕ) (ty : IrType)
      → StandsAt packed (end_of packed previous xs) ys first ty
      → StandsAt packed previous (xs ++ ys) first ty
  unfolding StandsAt end_of
  StandsAt-append_right packed previous [] ys first ty h = h
  StandsAt-append_right packed previous (x ∷ xs) ys first ty h =
      inr (StandsAt-append_right packed (start packed previous x + d.alloc_bits x) xs ys first ty h)

  -- A multiple of the alignment is rounded up to itself.
  round_up_multiple : (a n : ℕ) → 0 < a → n % a ≡ 0 → (n + a - 1) / a * a ≡ n
  round_up_multiple a n h k =
      ap (λ m. (m + a - 1) / a * a) (sym exact)
      ∙ ap (λ m. m / a * a) shift
      ∙ ap (λ m. m * a) (add-mul-div_right (a - 1) (n / a) h)
      ∙ ap (λ m. (m + n / a) * a) (div-eq_of_lt (omega arith))
      ∙ ap (λ m. m * a) no_more
      ∙ exact
    where
      no_more : 0 + n / a ≡ n / a
      no_more = omega arith

      shift : n / a * a + a - 1 ≡ (a - 1) + n / a * a
      shift = omega arith

      exact : n / a * a ≡ n
      exact = omega (arith, div-add-mod' n a, k)

  module _ (l : LayoutRules d) where
    alignment_positive : (t : IrType) → (0 < alignment d t) × (alignment d t < 2 ^ 32)
    alignment_positive t = omega (arith, l.positive_align t, l.small_align t)

    alignment-unit_type : (n : ℕ) → alignment d (unit_type n) ≡ 8
    alignment-unit_type n = omega (arith, l.unit_align n)

    start_aligned :
        (packed : Bool) (first : ℕ) (ty : IrType)
        → (packed ≡ true) ⊎ (first % alignment d ty ≡ 0)
        → start packed first ty ≡ first
    unfolding start
    start_aligned packed first ty h = ground (
      arith,
      h,
      λ (k : first % alignment d ty ≡ 0).
          round_up_multiple (alignment d ty) first (alignment_positive ty).0 k,
    )

    -- Padding fills the bits between two offsets.
    pub padding-end_of :
        (packed : Bool) (previous first : ℕ)
        → previous ≤ first
        → previous % 8 ≡ 0
        → first % 8 ≡ 0
        → first < 2 ^ 35
        → (pad : List IrType) × (padding d previous first ≡ ok pad)
          × (end_of packed previous pad ≡ first)
    unfolding padding end_of
    padding-end_of packed previous first h p f k =
        let n = (first - previous) / 8 in
        (
          unit_type n ∷ [],
          ground arith,
          omega (
            arith,
            l.unit_bits n (omega arith),
            start_aligned packed previous (unit_type n) (inr (rw (alignment-unit_type n) p)),
          ),
        )

    -- Without padding, the alignment takes care of the gap.
    start_unpadded :
        (packed : Bool) (previous first : ℕ) (ty : IrType)
        → previous < 2 ^ 35
        → needs_padding d packed previous first ty ≡ false
        → start packed previous ty ≡ first
    unfolding start needs_padding
    start_unpadded packed previous first ty k c =
        let e : (previous + alignment d ty - 1) % 2 ^ 64 ≡ previous + alignment d ty - 1 =
          omega (arith, alignment_positive ty) in
        ground (arith, e)

    -- Behind the gap, the element starts where its range does.
    pub gap-start :
        (packed : Bool) (previous first : ℕ) (ty : IrType)
        → previous ≤ first
        → previous % 8 ≡ 0
        → first % 8 ≡ 0
        → first < 2 ^ 35
        → (packed ≡ true) ⊎ (first % alignment d ty ≡ 0)
        → (pad : List IrType) × (gap d packed previous first ty ≡ ok pad)
          × (start packed (end_of packed previous pad) ty ≡ first)
    unfolding gap needs_padding start end_of
    gap-start packed previous first ty h p f k a =
        let (pad, e, w) = padding-end_of packed previous first h p f k in
        elim (Bool-cases (ltb previous first && needs_padding d packed previous first ty)) [
          | inl c ↦ (pad, rw c e, rw w (start_aligned packed first ty a))
          | inr c ↦ (
            [],
            rw c refl,
            elim (Bool-cases (ltb previous first)) [
              | inl b ↦ start_unpadded packed previous first ty (omega arith) (ground (arith, c, b))
              | inr b ↦
                  (let same : previous ≡ first = ground (arith, b) in
                    rw same (start_aligned packed first ty a))
            ],
          )
        ]
