-- ===== src/ArrayInit/Places.antt =====
-- Where `ConvertArrayCONSTRUCTOR` of src/ConstantConversion.cpp puts the initial values: the array that it
-- grows and writes against following a single element through the constructor.
use dragonegg.Base.{
  ℕ, zero, suc, ◌+◌, ◌-◌, ◌^◌, ◌≤◌, ◌<◌, ◌≡◌, refl, sym, ◌∙◌, ap, inl, inr, arith, false, ◌&&◌,
  Bool-cases, Option, none, some, List, [], ◌∷◌, ◌++◌, map, ltb, leb, ◌==◌, if◌then◌else◌, length,
  set, take, replicate, get_or, get_elem?, length-set, length-replicate, subst,
}
use dragonegg.Base.Int.{ℤ}
use dragonegg.Base.Results.{Result, Result-cases, ok, ok_inj, unreachable, ◌>>=◌}
use dragonegg.Records.Contents.{DataLayout}
use dragonegg.ArrayInit.{
  Entry, ValueMaker, filled_range, next_index, resize, write_elements, fill_range, pad_element,
  place_entries, or_default, initial_elements,
}

module _ {A : Type 0} where
  fill_range-last :
      (first last : ℕ) (v : A) (xs ys : List (Option A))
      → fill_range first last v xs ≡ ok ys
      → (last == 2 ^ 32 - 1) ≡ false
  unfolding fill_range
  fill_range-last first last v xs ys h = ground (arith, h)

  abbrev pub value_at : ℕ → List (Option A) → Option A
  value_at i xs = get_or xs i none

  value_at-set :
      (xs : List (Option A)) (i j : ℕ) (v : Option A)
      → i < length xs
      → value_at j (set xs i v) ≡ (if i == j then v else value_at j xs)
  value_at-set [] i j v h = absurd (omega (arith, h))
  value_at-set (x ∷ xs) zero zero v h = ground arith
  value_at-set (x ∷ xs) zero (suc j) v h = ground arith
  value_at-set (x ∷ xs) (suc i) zero v h = ground arith
  value_at-set (x ∷ xs) (suc i) (suc j) v h =
      ground (arith, value_at-set xs i j v (omega (arith, h)))

  pub length-write_elements :
      (first count : ℕ) (v : A) (xs : List (Option A))
      → length (write_elements first count v xs) ≡ length xs
  unfolding write_elements
  length-write_elements first zero v xs = refl
  length-write_elements first (suc count) v xs =
      length-write_elements (suc first) count v (set xs first (some v))
      ∙ length-set xs first (some v)

  value_at-write_elements :
      (first count j : ℕ) (v : A) (xs : List (Option A))
      → first + count ≤ length xs
      → value_at j (write_elements first count v xs)
        ≡ (if leb first j && ltb j (first + count) then some v else value_at j xs)
  unfolding write_elements
  value_at-write_elements first zero j v xs h = ground arith
  value_at-write_elements first (suc count) j v xs h = ground (
    arith,
    value_at-write_elements (suc first) count j v (set xs first (some v))
        (omega (arith, h, length-set xs first (some v))),
    value_at-set xs first j (some v) (omega (arith, h)),
  )

  value_at-replicate : (n j : ℕ) → value_at j (replicate n none) ≡ none
  value_at-replicate zero j = refl
  value_at-replicate (suc n) zero = refl
  value_at-replicate (suc n) (suc j) = value_at-replicate n j

  pub value_at-padded :
      (n m j : ℕ) (xs : List (Option A))
      → length xs ≤ n
      → n ≡ length xs + m
      → (value_at j (take n xs ++ replicate m none) ≡ value_at j xs)
        × (length (take n xs ++ replicate m none) ≡ n)
  value_at-padded zero m j [] h e =
      (value_at-replicate m j, omega (arith, length-replicate {A = Option A} m none, e))
  value_at-padded (suc n) m j [] h e =
      (value_at-replicate m j, omega (arith, length-replicate {A = Option A} m none, e))
  value_at-padded zero m j (x ∷ xs) h e = absurd (omega (arith, h))
  value_at-padded (suc n) m zero (x ∷ xs) h e =
      (refl, ap suc (value_at-padded n m zero xs (omega (arith, h)) (omega (arith, e))).1)
  value_at-padded (suc n) m (suc j) (x ∷ xs) h e =
      let (v, l) = value_at-padded n m j xs (omega (arith, h)) (omega (arith, e)) in (v, ap suc l)

  pub value_at-resize :
      (n j : ℕ) (xs : List (Option A))
      → length xs ≤ n
      → (value_at j (resize n xs) ≡ value_at j xs) × (length (resize n xs) ≡ n)
  value_at-resize n j xs h = value_at-padded n (n - length xs) j xs h (omega (arith, h))

  -- Filling in a range gives its elements the value and leaves the others, in an array that does
  -- not shrink.
  abbrev Filled : ℕ → ℕ → ℕ → A → List (Option A) → List (Option A) → Type 0
  Filled first last j v xs ys =
      (value_at j ys ≡ (if leb first j && leb j last then some v else value_at j xs))
      × (length xs ≤ length ys)

  written-Filled :
      (first last j : ℕ) (v : A) (xs zs : List (Option A))
      → last < length zs
      → length xs ≤ length zs
      → value_at j zs ≡ value_at j xs
      → Filled first last j v xs (write_elements first (suc last - first) v zs)
  written-Filled first last j v xs zs h k e = elim (Bool-cases (leb first last)) [
    | inl c ↦ (
      ground (arith, value_at-write_elements first (suc last - first) j v zs (ground arith), e),
      omega (arith, length-write_elements first (suc last - first) v zs, k),
    )
    | inr c ↦ (
      ground (arith, nothing first (suc last - first) v zs (ground arith), e),
      omega (arith, length-write_elements first (suc last - first) v zs, k),
    )
  ]
    where
      nothing : (a n : ℕ) (w : A) (ws : List (Option A)) → n ≡ 0 → write_elements a n w ws ≡ ws
      nothing a zero w ws z = unfold write_elements in refl
      nothing a (suc n) w ws z = absurd (omega (arith, z))

  fill_range-Filled :
      (first last j : ℕ) (v : A) (xs ys : List (Option A))
      → fill_range first last v xs ≡ ok ys
      → Filled first last j v xs ys
  unfolding fill_range
  fill_range-Filled first last j v xs ys h = elim (Bool-cases (last == 2 ^ 32 - 1)) [
    | inl c ↦ absurd (ground (arith, h, c))
    | inr c ↦ elim (Bool-cases (leb (length xs) last)) [
      | inl f ↦
          let (e, l) = value_at-resize (suc last) j xs (ground arith) in
          subst (Filled first last j v xs) (ok_inj (ground (arith, h, c, f))) (
            written-Filled first last j v xs (resize (suc last) xs) (omega (arith, l))
              (ground (arith, l)) e)
      | inr f ↦
          subst (Filled first last j v xs) (ok_inj (ground (arith, h, c, f)))
            (written-Filled first last j v xs xs (ground arith) (omega arith) refl)
    ]
  ]

-- Follows element `i` through the loop over the constructor's elements, with no array: `old` is its
-- value so far.
module _ {K : Type 0} (d : DataLayout) (G : ValueMaker K) where
  unfoldable pub initial_value : ℕ → ℤ → List (Entry K) → ℕ → ℕ → Option K → Result (Option K)
  initial_value elt_size lower [] next i old = ok old
  initial_value elt_size lower (e ∷ es) next i old = pad_element d G elt_size e.elt_value >>= λ v.
      filled_range lower next e.elt_index >>= λ r.
      if r.1 == 2 ^ 32 - 1
      then unreachable
      else initial_value elt_size lower es (if leb r.0 r.1 then suc r.1 else r.0) i
          (if leb r.0 i && leb i r.1 then some v else old)

  -- The value of one element after the loop, and the size that is not lost.
  pub place_entries-initial_value :
      (elt_size : ℕ) (lower : ℤ) (es : List (Entry K)) (next i : ℕ) (xs ys : List (Option K))
      → place_entries d G elt_size lower es next xs ≡ ok ys
      → (initial_value elt_size lower es next i (value_at i xs) ≡ ok (value_at i ys))
        × (length xs ≤ length ys)
  unfolding place_entries initial_value
  place_entries-initial_value elt_size lower [] next i xs ys h = (
    ap (λ (z : List (Option K)). ok (value_at i z)) (ok_inj h),
    omega (arith, ap length (ok_inj h)),
  )
  place_entries-initial_value elt_size lower (e ∷ es) next i xs ys h =
      elim (Result-cases (pad_element d G elt_size e.elt_value)) [
        | inr u ↦ absurd cc
        | inl (v, p) ↦ elim (Result-cases (filled_range lower next e.elt_index)) [
          | inr u ↦ absurd cc
          | inl (r, q) ↦ elim (Result-cases (fill_range r.0 r.1 v xs)) [
            | inr u ↦ absurd cc
            | inl (zs, f) ↦
                let (at, grown) = fill_range-Filled r.0 r.1 i v xs zs f in
                let (rest, l) =
                  place_entries-initial_value elt_size lower es (next_index r.0 r.1) i zs ys
                    (ground (arith, h, p, q, f)) in
                (rw (p, q, fill_range-last r.0 r.1 v xs zs f, sym at) rest, omega (arith, grown, l))
          ]
        ]
      ]

  pub value_at-initial : (o : Option ℕ) (i : ℕ) → value_at i (initial_elements d G o) ≡ none
  value_at-initial none i = refl
  value_at-initial (some n) i = value_at-replicate n i

  pub length-initial : (o : Option ℕ) (n : ℕ) → o ≡ some n → length (initial_elements d G o) ≡ n
  length-initial none n h = absurd cc
  length-initial (some m) n h = length-replicate {A = Option K} m none ∙ same h
    where
      same : {a b : ℕ} → some a ≡ some b → a ≡ b
      same e = cc

  pub get_elem?-map_default :
      (v : K) (ys : List (Option K)) (i : ℕ)
      → i < length ys
      → get_elem? (map (or_default d G v) ys) i ≡ some (or_default d G v (value_at i ys))
  get_elem?-map_default v [] i h = absurd (omega (arith, h))
  get_elem?-map_default v (y ∷ ys) zero h = refl
  get_elem?-map_default v (y ∷ ys) (suc i) h = get_elem?-map_default v ys i (omega (arith, h))

  -- When an element can be followed to the end, the loop comes to its end, too.
  pub place_entries-returns :
      (elt_size : ℕ) (lower : ℤ) (es : List (Entry K)) (next i : ℕ) (old o : Option K)
      (xs : List (Option K))
      → initial_value elt_size lower es next i old ≡ ok o
      → (ys : List (Option K)) × (place_entries d G elt_size lower es next xs ≡ ok ys)
  unfolding place_entries initial_value fill_range
  place_entries-returns elt_size lower [] next i old o xs h = (xs, refl)
  place_entries-returns elt_size lower (e ∷ es) next i old o xs h =
      elim (Result-cases (pad_element d G elt_size e.elt_value)) [
        | inr u ↦ absurd cc
        | inl (v, p) ↦ elim (Result-cases (filled_range lower next e.elt_index)) [
          | inr u ↦ absurd cc
          | inl (r, q) ↦ elim (Bool-cases (r.1 == 2 ^ 32 - 1)) [
            | inl c ↦ absurd (ground (arith, h, p, q, c))
            | inr c ↦
                let filled : List (Option K) =
                  write_elements r.0 (suc r.1 - r.0) v
                    (if leb (length xs) r.1 then resize (suc r.1) xs else xs) in
                let (ys, k) =
                  place_entries-returns elt_size lower es (next_index r.0 r.1) i
                    (if leb r.0 i && leb i r.1 then some v else old) o filled
                    (ground (arith, h, p, q, c)) in
                (ys, rw (p, q, c) k)
          ]
        ]
      ]
