-- ===== src/Intervals/Align.antt =====
-- `AlignBoundaries` of include/dragonegg/ADT/IntervalList.h: every boundary becomes a multiple of
-- the alignment, and the list stays sane.
use native.Mathlib.Nat.{zero-mod, mod-lt, mod-le, div-add-mod, mul-mod_right, mul-le-mul_left}
use native.Mathlib.Decide.{dec_le}
use dragonegg.Base.{
  ℕ, zero, suc, ◌+◌, ◌-◌, ◌*◌, ◌/◌, ◌%◌, ◌≤◌, ◌<◌, ◌≡◌, ◌⊎◌, inl, inr, refl, ap, subst, ◌∙◌, sym,
  true, List, [], ◌∷◌, arith, length, Bool-cases,
}
use dragonegg.Base.Int.{ℤ, pos, negsuc, ◌≤ℤ◌, ◌<ℤ◌, ◌+ℤ◌, ◌-ℤ◌, pos_part, eq_of_parts, ltb_ℤ}
use dragonegg.Range.{range, empty, range_eq, join, intersects}
use dragonegg.Intervals.{
  Interval, first_of_interval, last_of_interval, is_sane, round_down, round_up, exact,
  merge_following, align_round, align_from, align_boundaries,
}
use dragonegg.Intervals.Sane.{All, SaneFrom, IsSane, SaneFrom-IsSane, is_sane-IsSane}

-- A non-negative multiple.
abbrev pub IsAligned : ℕ → ℤ → Type 0
IsAligned a z = (pos 0 ≤ℤ z) × (pos_part z % a ≡ 0)

round_down_nat : (a n : ℕ) → (n - n % a) % a ≡ 0
round_down_nat a n = ap (λ (t : ℕ). t % a) quotient ∙ mul-mod_right a (n / a)
  where
    quotient : n - n % a ≡ a * (n / a)
    quotient = omega (arith, div-add-mod n a)

round_down_above : (a n m : ℕ) → m % a ≡ 0 → m ≤ n → m ≤ n - n % a
round_down_above a n m k l = elim (dec_le (m / a) (n / a)) [
  | yes h ↦ omega (arith, div-add-mod n a, div-add-mod m a, mul-le-mul_left a h)
  | no h ↦ grind (
    arith,
    div-add-mod n a,
    div-add-mod m a,
    mod-lt n {m = a},
    mul-le-mul_left {m = n / a + 1} {n = m / a} a (omega arith),
  )
]

-- Rounding a non-negative boundary down: a multiple, not above it, and above all lower multiples.
pub round_down-IsAligned :
    (a : ℕ) (z : ℤ) → pos 0 ≤ℤ z → IsAligned a (round_down a z) × (round_down a z ≤ℤ z)
unfolding round_down ◌-ℤ◌
round_down-IsAligned a (pos n) h = ground (arith, round_down_nat a n, mod-le n a)
round_down-IsAligned a (negsuc n) h = absurd (omega arith)

round_down-above : (a : ℕ) (q z : ℤ) → IsAligned a q → q ≤ℤ z → q ≤ℤ round_down a z
unfolding round_down ◌-ℤ◌
round_down-above a (pos m) (pos n) h k =
    ground (arith, round_down_above a n m h.1 (omega arith), mod-le n a)
round_down-above a (pos m) (negsuc n) h k = absurd (omega arith)
round_down-above a (negsuc m) z h k = absurd (omega arith)

pub round_up-IsAligned :
    (a : ℕ) (z : ℤ)
    → 0 < a
    → pos 0 ≤ℤ z
    → IsAligned a (round_up exact a z) × (z ≤ℤ round_up exact a z)
unfolding round_up round_down ◌-ℤ◌ ◌+ℤ◌
round_up-IsAligned a (pos n) h k =
    ground (arith, round_down_nat a (n + a - 1), mod-lt (n + a - 1) {m = a} h, mod-le (n + a - 1) a)
round_up-IsAligned a (negsuc n) h k = absurd (omega arith)

-- No multiple above a boundary is below its rounded end.
round_up_least : (a n m : ℕ) → 0 < a → m % a ≡ 0 → n ≤ m → n + a - 1 - (n + a - 1) % a ≤ m
round_up_least a n m h k l = elim (dec_le ((n + a - 1) / a) (m / a)) [
  | yes q ↦ omega (arith, div-add-mod (n + a - 1) a, div-add-mod m a, mul-le-mul_left a q)
  | no q ↦ grind (
    arith,
    div-add-mod (n + a - 1) a,
    div-add-mod m a,
    mul-le-mul_left {m = m / a + 1} {n = (n + a - 1) / a} a (omega arith),
  )
]

pub round_up-below :
    (a : ℕ) (b z : ℤ) → 0 < a → IsAligned a b → pos 0 ≤ℤ z → z ≤ℤ b → round_up exact a z ≤ℤ b
unfolding round_up round_down ◌-ℤ◌ ◌+ℤ◌
round_up-below a (pos m) (pos n) h al k l =
    ground (arith, round_up_least a n m h al.1 (omega arith), mod-le (n + a - 1) a)
round_up-below a (pos m) (negsuc n) h al k l = absurd (omega arith)
round_up-below a (negsuc m) z h al k l = absurd (omega arith)

module _ {T C : Type 0} (I : Interval T C) where
  -- The grown interval keeps its start and ends where the last merged one ended; what follows
  -- starts at the rounded end or later.
  abbrev pub Merged : ℤ → T → List T → T × List T → Type 0
  Merged rounded x xs (g, next) =
      (first_of_interval I g ≡ first_of_interval I x)
      × (last_of_interval I x ≤ℤ last_of_interval I g)
      × SaneFrom I rounded next
      × SaneFrom I (last_of_interval I g) next
      × (length next ≤ length xs)
      × ((length next < length xs) ⊎ (last_of_interval I g ≡ last_of_interval I x))

  -- Two intervals in order join into one that spans both.
  pub join_with-range :
      (x y : T)
      → first_of_interval I x <ℤ last_of_interval I x
      → last_of_interval I x ≤ℤ first_of_interval I y
      → first_of_interval I y <ℤ last_of_interval I y
      → I.get_range (I.join_with x y) ≡ range (first_of_interval I x) (last_of_interval I y)
  unfolding intersects join empty
  join_with-range x y h k l = I.get_range-join_with x y (ground arith) (ground arith) ∙ ground arith

  pub merge_following-Merged :
      (rounded : ℤ) (x : T) (xs : List T)
      → first_of_interval I x <ℤ last_of_interval I x
      → SaneFrom I (last_of_interval I x) xs
      → Merged rounded x xs (merge_following I rounded x xs)
  unfolding merge_following
  merge_following-Merged rounded x [] h s = (refl, omega arith, tt, tt, omega arith, inr refl)
  merge_following-Merged rounded x (y ∷ ys) h s =
      let e = join_with-range x y h s.0 s.1 in
      ground (
        arith,
        e,
        merge_following-Merged rounded (I.join_with x y) ys (ground (arith, e))
            (subst (λ t. SaneFrom I t ys) (sym (ap (λ r. r.last) e)) s.2),
      )

  abbrev pub AllAligned : ℕ → List T → Type 0
  AllAligned a = All (λ x. IsAligned a (first_of_interval I x) × IsAligned a (last_of_interval I x))

  abbrev Aligns : ℕ → ℤ → List T → Type 0
  Aligns a q xs = SaneFrom I q xs × AllAligned a xs

  -- One interval stretched to multiples, with an aligned rest behind it.
  stretch :
      (a : ℕ) (q : ℤ) (x g : T) (rest : List T)
      → 0 < a
      → IsAligned a q
      → q ≤ℤ first_of_interval I x
      → first_of_interval I x <ℤ last_of_interval I x
      → Aligns a (round_up exact a (last_of_interval I x)) rest
      → Aligns a q (
          I.change_to g
            (range (round_down a (first_of_interval I x)) (round_up exact a (last_of_interval I x)))
          ∷ rest)
  stretch a q x g rest h al k l r =
      let e =
        I.get_range-change_to g (
          range (round_down a (first_of_interval I x)) (round_up exact a (last_of_interval I x))) in
      ground (
        arith,
        e,
        round_down-IsAligned a (first_of_interval I x),
        round_down-above a q (first_of_interval I x) al k,
        round_up-IsAligned a (last_of_interval I x) h,
      )

  -- The chopped-off end, from the rounded boundary on.
  pub chopped-SaneFrom :
      (a : ℕ) (rounded : ℤ) (g : T) (next : List T)
      → rounded <ℤ last_of_interval I g
      → SaneFrom I (last_of_interval I g) next
      → SaneFrom I rounded (I.change_to g (range rounded (last_of_interval I g)) ∷ next)
  chopped-SaneFrom a rounded g next h s =
      ground (arith, I.get_range-change_to g (range rounded (last_of_interval I g)))

  -- An interval equal to its aligned range has aligned ends.
  kept :
      (a : ℕ) (q : ℤ) (x : T)
      → 0 < a
      → IsAligned a q
      → q ≤ℤ first_of_interval I x
      → first_of_interval I x <ℤ last_of_interval I x
      → range_eq
          (I.get_range x)
          (range (round_down a (first_of_interval I x)) (round_up exact a (last_of_interval I x)))
        ≡ true
      → IsAligned a (first_of_interval I x) × IsAligned a (last_of_interval I x)
  unfolding range_eq
  kept a q x h al k l e = ground (
    arith,
    round_down-IsAligned a (first_of_interval I x),
    round_up-IsAligned a (last_of_interval I x) h,
    eq_of_parts (round_down a (first_of_interval I x)) (first_of_interval I x),
    eq_of_parts (round_up exact a (last_of_interval I x)) (last_of_interval I x),
  )

  -- One round of the loop, whatever it is that aligns the intervals behind it.
  align_step :
      (a : ℕ) (q : ℤ) (x : T) (xs : List T) (later : List T → List T)
      → 0 < a
      → IsAligned a q
      → SaneFrom I q (x ∷ xs)
      → ((p : ℤ) (ys : List T)
          → IsAligned a p
          → SaneFrom I p ys
          → length ys ≤ length xs
          → Aligns a p (later ys))
      → Aligns a q (align_round I exact a x xs later)
  unfolding align_round
  align_step a q x xs later h al s r =
      let up = round_up exact a (last_of_interval I x) in
      let m = merge_following I up x xs in
      let merged : Merged up x xs m = merge_following-Merged up x xs s.1 s.2 in
      let above = round_up-IsAligned a (last_of_interval I x) h (omega arith) in
      let aligned = range (round_down a (first_of_interval I x)) up in
      elim (Bool-cases (range_eq (I.get_range x) aligned)) [
        | inl e ↦
            let ends = kept a q x h al s.0 s.1 e in
            rw e (
              (
                (s.0, s.1, (r (last_of_interval I x) xs ends.1 s.2 (omega arith)).0),
                (ends, (r (last_of_interval I x) xs ends.1 s.2 (omega arith)).1),
              ))
        | inr e ↦ elim (Bool-cases (ltb_ℤ up (last_of_interval I m.0))) [
          | inl f ↦
              rw (e, f)
                (stretch a q x m.0 _ h al s.0 s.1 (
                  r up _ above.0 (chopped-SaneFrom a up m.0 m.1 (ground arith) merged.3)
                    (ground arith)))
          | inr f ↦
              rw (e, f) (stretch a q x m.0 _ h al s.0 s.1 (r up m.1 above.0 merged.2 merged.4))
        ]
      ]

  align_from-Aligns :
      (a fuel : ℕ) (q : ℤ) (xs : List T)
      → 0 < a
      → IsAligned a q
      → SaneFrom I q xs
      → length xs ≤ fuel
      → Aligns a q (align_from I exact a fuel xs)
  unfolding align_from
  align_from-Aligns a zero q [] h al s l = (tt, tt)
  align_from-Aligns a zero q (x ∷ xs) h al s l = absurd (omega arith)
  align_from-Aligns a (suc fuel) q [] h al s l = (tt, tt)
  align_from-Aligns a (suc fuel) q (x ∷ xs) h al s l =
      align_step a q x xs (align_from I exact a fuel) h al s
        (λ p ys b t k. align_from-Aligns a fuel p ys h b t (omega arith))

  pub SaneFrom-zero :
      (xs : List T)
      → IsSane I xs
      → All (λ x. pos 0 ≤ℤ first_of_interval I x) xs
      → SaneFrom I (pos 0) xs
  SaneFrom-zero [] s n = tt
  SaneFrom-zero (x ∷ xs) s n = (n.0, s.1, s.2)

  -- With bounds that have all integers.
  pub exact_boundaries-IsAligned :
      (a : ℕ) (xs : List T)
      → 0 < a
      → is_sane I xs ≡ true
      → All (λ x. pos 0 ≤ℤ first_of_interval I x) xs
      → (is_sane I (align_boundaries I exact a xs) ≡ true)
        × AllAligned a (align_boundaries I exact a xs)
  unfolding align_boundaries
  exact_boundaries-IsAligned a xs h s n =
      let sane = SaneFrom-zero xs ((is_sane-IsSane I xs).0 s) n in
      let (t, al) =
        align_from-Aligns a (length xs) (pos 0) xs h (omega arith, zero-mod a) sane (omega arith) in
      ((is_sane-IsSane I _).1 (SaneFrom-IsSane I (pos 0) _ t), al)
