-- ===== src/Asm/Registers/Only.antt =====
-- The scan of a register class in `CanonicalizeConstraint` of src/Convert.cpp.
use dragonegg.Base.{
  ℕ, zero, suc, ◌+◌, ◌≤◌, ◌<◌, ◌≡◌, ◌↔◌, refl, sym, ap, ◌∙◌, arith, inl, inr, true, false,
  Bool-cases, Option, none, some, ◌==◌,
}
use dragonegg.Asm.Registers.{RegisterRules, scan_class, only_register}

module _ (r : RegisterRules) where
  -- A register is in a class, below a bound, and no other from some register on is.
  abbrev OnlyFrom : ℕ → ℕ → ℕ → ℕ → Type 0
  OnlyFrom c from to j =
      (from ≤ j)
      × (j < to)
      × (r.in_class c j ≡ true)
      × ((i : ℕ) → from ≤ i → i < to → r.in_class c i ≡ true → i ≡ j)

  scan_class-found :
      (c left j k i : ℕ)
      → scan_class r c left j (some k) ≡ some i
      → (i ≡ k) × ((n : ℕ) → j ≤ n → n < j + left → r.in_class c n ≡ false)
  unfolding scan_class
  scan_class-found c zero j k i h = (ground (arith, h), λ n a b. absurd (omega arith))
  scan_class-found c (suc left) j k i h =
      let out : r.in_class c j ≡ false = ground (arith, h) in
      let (e, f) = scan_class-found c left (suc j) k i (ground (arith, h, out)) in
      (
        e,
        λ n a b. elim (Bool-cases (j == n)) [
          | inl g ↦ let same : j ≡ n = ground (arith, g) in rw (sym same) out
          | inr g ↦ f n (ground (arith, g)) (omega arith)
        ],
      )

  scan_class-OnlyFrom :
      (c left j i : ℕ) → scan_class r c left j none ≡ some i → OnlyFrom c j (j + left) i
  unfolding scan_class
  scan_class-OnlyFrom c zero j i h = absurd cc
  scan_class-OnlyFrom c (suc left) j i h = elim (Bool-cases (r.in_class c j)) [
    | inl e ↦
        let (same, f) = scan_class-found c left (suc j) j i (ground (arith, e, h)) in
        (
          omega arith,
          omega arith,
          rw same e,
          λ n a b m. elim (Bool-cases (j == n)) [
            | inl g ↦ ground (arith, g, same)
            | inr g ↦ absurd (ground (arith, g, m, f n))
          ],
        )
    | inr e ↦
        let (a, b, m, u) = scan_class-OnlyFrom c left (suc j) i (ground (arith, e, h)) in
        (
          omega arith,
          omega arith,
          m,
          λ n k l q. elim (Bool-cases (j == n)) [
            | inl g ↦
                let same : j ≡ n = ground (arith, g) in
                absurd
                  (let out : r.in_class c n ≡ false = rw (sym same) e in ground (arith, out, q))
            | inr g ↦ u n (ground (arith, g)) (omega arith) q
          ],
        )
  ]

  scan_class-others :
      (c left j : ℕ) (found : Option ℕ)
      → ((n : ℕ) → j ≤ n → n < j + left → r.in_class c n ≡ false)
      → scan_class r c left j found ≡ found
  unfolding scan_class
  scan_class-others c zero j found h = refl
  scan_class-others c (suc left) j found h =
      rw (h j (omega arith) (omega arith))
        (scan_class-others c left (suc j) found (λ n a b. h n (omega arith) (omega arith)))

  OnlyFrom-scan_class :
      (c left j i : ℕ) → OnlyFrom c j (j + left) i → scan_class r c left j none ≡ some i
  unfolding scan_class
  OnlyFrom-scan_class c zero j i h = absurd (omega arith)
  OnlyFrom-scan_class c (suc left) j i h = elim (Bool-cases (r.in_class c j)) [
    | inl e ↦
        let same : j ≡ i = h.3 j (omega arith) (omega arith) e in
        rw e (
          scan_class-others c left (suc j) (some j) (λ n a b. elim (Bool-cases (r.in_class c n)) [
            | inl m ↦
                absurd (let other : n ≡ i = h.3 n (omega arith) (omega arith) m in omega arith)
            | inr m ↦ m
          ])
          ∙ ap some same)
    | inr e ↦
        let later : (j == i) ≡ false = elim (Bool-cases (j == i)) [
          | inl g ↦
              let same : j ≡ i = ground (arith, g) in
              absurd (let m : r.in_class c j ≡ true = rw same h.2 in ground (arith, e, m))
          | inr g ↦ g
        ] in
        rw e (
          OnlyFrom-scan_class c left (suc j) i (
            ground (arith, later),
            omega arith,
            h.2,
            λ n a b m. h.3 n (omega arith) (omega arith) m,
          ))
  ]

  -- The scan of a class gives a register exactly if it is the class's only one.
  pub only_register_lem :
      (c j : ℕ)
      → (only_register r c ≡ some j) ↔ (
          (j < r.first_pseudo_register)
          × (r.in_class c j ≡ true)
          × ((i : ℕ) → i < r.first_pseudo_register → r.in_class c i ≡ true → i ≡ j))
  only_register_lem c j = (
    λ h.
        let (a, b, e, u) = scan_class-OnlyFrom c r.first_pseudo_register 0 j h in
        (omega arith, e, λ i k m. u i (omega arith) (omega arith) m),
    λ (b, e, u).
        OnlyFrom-scan_class c r.first_pseudo_register 0 j
          (omega arith, omega arith, e, λ i a k m. u i (omega arith) m),
  )
