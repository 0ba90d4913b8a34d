-- ===== src/ArrayInit/Cover.antt =====
-- The promise of `ConvertArrayCONSTRUCTOR` of src/ConstantConversion.cpp that an initializer is at least as
-- big as the type that it is for.
use dragonegg.Base.{
  sym, ℕ, zero, suc, ◌+◌, ◌-◌, ◌*◌, ◌/◌, ◌%◌, ◌^◌, ◌≤◌, ◌<◌, ◌≡◌, refl, ◌∙◌, ap, inl, inr, arith,
  Bool, true, false, ◌&&◌, Bool-cases, Option, some, none, List, [], ◌∷◌, ◌++◌, map, ltb, leb, ◌==◌,
  if◌then◌else◌, length, get_elem?, subst, length-map,
}
use dragonegg.Base.Int.{ℤ}
use dragonegg.Base.Results.{Result-cases, ok, ok_inj}
use dragonegg.Ir.{IrType}
use dragonegg.Records.Contents.{DataLayout, LayoutRules, unit_type}
use dragonegg.ArrayInit.{
  Entry, ArrayFacts, ValueMaker, size_of, filled_range, next_index, pad_element, place_entries,
  or_default, initial_elements, array_elements, tail_units,
}
use dragonegg.ArrayInit.Elements.{array_elements-small}
use dragonegg.ArrayInit.Places.{
  value_at, initial_value, place_entries-initial_value, value_at-initial,
}

-- The sizes of the constants together.
abbrev pub total_size : {K : Type 0} → DataLayout → ValueMaker K → List K → ℕ
total_size d G [] = 0
total_size d G (k ∷ ks) = size_of d G k + total_size d G ks

-- What LLVM documents of the constants made: a default value has its type, and a struct is at least
-- as big as its elements together.
pub record MakerSizes {K : Type 0} (d : DataLayout) (G : ValueMaker K) : Type 0 where
  pub type_of-default_value : (t : IrType) → G.type_of (G.default_value t) ≡ t
  pub struct-size :
      (packed : Bool) (ks : List K) → total_size d G ks ≤ size_of d G (G.anonymous_struct packed ks)

module _ {K : Type 0} (d : DataLayout) (l : LayoutRules d) (G : ValueMaker K)
    (N : MakerSizes d G) where
  unit_default : (n : ℕ) → n < 2 ^ 32 → size_of d G (G.default_value (unit_type n)) ≡ 8 * n
  unit_default n h = ap d.alloc_bits (N.type_of-default_value (unit_type n)) ∙ l.unit_bits n h

  pad_element-size :
      (elt_size : ℕ) (v w : K)
      → elt_size < 2 ^ 32
      → pad_element d G elt_size v ≡ ok w
      → elt_size ≤ size_of d G w
  unfolding pad_element
  pad_element-size elt_size v w small h =
      let units = (elt_size - size_of d G v) % 2 ^ 32 / 8 in
      let pad = G.default_value (unit_type units) in
      let padded = N.struct-size false (v ∷ pad ∷ []) in
      elim (Bool-cases (ltb elt_size (size_of d G v))) [
        | inl c ↦ absurd (ground (arith, h, c))
        | inr c ↦ elim (Bool-cases (ltb (size_of d G v) elt_size)) [
          | inr e ↦
              let same : v ≡ w = ok_inj (ground (arith, h, c, e)) in
              subst (λ (k : K). elt_size ≤ size_of d G k) same (ground (arith, e))
          | inl e ↦ elim (Bool-cases ((elt_size - size_of d G v) % 2 ^ 32 % 8 == 0)) [
            | inr f ↦ absurd (ground (arith, h, c, e, f))
            | inl f ↦
                let whole : (elt_size - size_of d G v) % 2 ^ 32 % 8 ≡ 0 = ground (arith, f) in
                let smaller : size_of d G v < elt_size = ground (arith, e) in
                let made : G.anonymous_struct false (v ∷ pad ∷ []) ≡ w =
                  ok_inj (ground (arith, h, c, e, f)) in
                subst (λ (k : K). elt_size ≤ size_of d G k) made
                  (omega (arith, small, padded, unit_default units (omega arith), whole, smaller))
          ]
        ]
      ]

  initial_value-size :
      (elt_size : ℕ) (lower : ℤ) (es : List (Entry K)) (next i : ℕ) (old : Option K) (v : K)
      → elt_size < 2 ^ 32
      → ((w : K) → old ≡ some w → elt_size ≤ size_of d G w)
      → initial_value d G elt_size lower es next i old ≡ ok (some v)
      → elt_size ≤ size_of d G v
  unfolding initial_value
  initial_value-size elt_size lower [] next i old v small known h = known v (ok_inj h)
  initial_value-size elt_size lower (e ∷ es) next i old v small known h =
      elim (Result-cases (pad_element d G elt_size e.elt_value)) [
        | inr u ↦ absurd cc
        | inl (w, p) ↦ elim (Result-cases (filled_range lower next e.elt_index)) [
          | inr u ↦ absurd cc
          | inl (r, q) ↦ elim (Bool-cases (r.1 == 2 ^ 32 - 1)) [
            | inl c ↦ absurd (ground (arith, h, p, q, c))
            | inr c ↦
                initial_value-size elt_size lower es (next_index r.0 r.1) i
                  (if leb r.0 i && leb i r.1 then some w else old) v small
                  (λ x k.
                    chosen (leb r.0 i && leb i r.1) w x old known
                      (pad_element-size elt_size e.elt_value w small p) k)
                  (ground (arith, h, p, q, c))
          ]
        ]
      ]
    where
      chosen :
          (b : Bool) (w x : K) (before : Option K)
          → ((y : K) → before ≡ some y → elt_size ≤ size_of d G y)
          → elt_size ≤ size_of d G w
          → (if b then some w else before) ≡ some x
          → elt_size ≤ size_of d G x
      chosen true w x before k m e = subst (λ (z : K). elt_size ≤ size_of d G z) (the_same e) m
        where
          the_same : {a b : K} → some a ≡ some b → a ≡ b
          the_same e = cc
      chosen false w x before k m e = k x e

  total_size-least :
      (size : ℕ) (ks : List K)
      → ((i : ℕ) (k : K) → get_elem? ks i ≡ some k → size ≤ size_of d G k)
      → length ks * size ≤ total_size d G ks
  total_size-least size [] h = omega arith
  total_size-least size (k ∷ ks) h =
      omega
        (arith, h 0 k refl, total_size-least size ks (λ i. h (suc i)), suc_times (length ks) size)
    where
      suc_times : (n m : ℕ) → suc n * m ≡ n * m + m
      suc_times n m = omega arith

  total_size-append :
      (ks ls : List K) → total_size d G (ks ++ ls) ≡ total_size d G ks + total_size d G ls
  total_size-append [] ls = omega arith
  total_size-append (k ∷ ks) ls = omega (arith, total_size-append ks ls)

  -- Elements that are each as big as an element of the type, with the padding behind them.
  tail_units-cover :
      (elt_size type_size : ℕ) (ks : List K)
      → elt_size % 8 ≡ 0
      → type_size % 8 ≡ 0
      → type_size < 2 ^ 32
      → length ks * elt_size ≤ total_size d G ks
      → (padding : List K) × (tail_units d G elt_size type_size (length ks) ≡ ok padding)
        × (type_size ≤ total_size d G (ks ++ padding))
  unfolding tail_units
  tail_units-cover elt_size type_size ks whole_elt whole_type small h =
      let n = length ks * elt_size in
      let units = (type_size - n) % 2 ^ 32 / 8 in
      elim (Bool-cases (ltb n type_size)) [
        | inr c ↦
            ([], rw c refl, omega (arith, h, total_size-append ks [], not_below n type_size c))
        | inl c ↦
            let less : n < type_size = ground (arith, c) in
            let whole : (type_size - n) % 2 ^ 32 % 8 ≡ 0 =
              omega (arith, times_whole (length ks) elt_size whole_elt, whole_type, less, small) in
            let pad = G.default_value (unit_type units) in
            (
              pad ∷ [],
              ground (arith, c, whole),
              omega (
                arith,
                h,
                less,
                small,
                whole,
                total_size-append ks (pad ∷ []),
                unit_default units (omega arith),
              ),
            )
      ]
    where
      times_whole : (n m : ℕ) → m % 8 ≡ 0 → n * m % 8 ≡ 0
      times_whole zero m h = omega arith
      times_whole (suc n) m h = omega (arith, times_whole n m h, suc_times n m, h)
        where
          suc_times : (a b : ℕ) → suc a * b ≡ a * b + b
          suc_times a b = omega arith

      not_below : (a b : ℕ) → ltb a b ≡ false → b ≤ a
      not_below a b h = ground (arith, h)

  element-default :
      (v : K) (ys : List (Option K)) (i : ℕ) (k : K)
      → get_elem? (map (or_default d G v) ys) i ≡ some k
      → or_default d G v (value_at i ys) ≡ k
  element-default v [] i k h = absurd cc
  element-default v (y ∷ ys) zero k h = cc
  element-default v (y ∷ ys) (suc i) k h = element-default v ys i k h

  each-size :
      (f : ArrayFacts) (es : List (Entry K)) (i : ℕ) (k : K) (o : Option K)
      → d.alloc_bits f.elt_type < 2 ^ 32
      → initial_value d G (d.alloc_bits f.elt_type) f.lower_bound es 0 i none ≡ ok o
      → or_default d G (G.default_value f.elt_type) o ≡ k
      → d.alloc_bits f.elt_type ≤ size_of d G k
  each-size f es i k none small h e =
      let same : size_of d G (G.default_value f.elt_type) ≡ d.alloc_bits f.elt_type =
        ap d.alloc_bits (N.type_of-default_value f.elt_type) in
      omega (arith, same, ap (size_of d G) e)
  each-size f es i k (some w) small h e =
      subst (λ (z : K). d.alloc_bits f.elt_type ≤ size_of d G z) e
        (initial_value-size (d.alloc_bits f.elt_type) f.lower_bound es 0 i none w small
          (λ z m. absurd cc) h)

  -- The elements and the padding behind them are together at least as big as the type, for types
  -- below 2^32 bits and of fewer than 2^32 elements: when the code comes to the elements, it also comes to the padding.
  pub array_elements-cover :
      (f : ArrayFacts) (es : List (Entry K)) (ks : List K)
      → d.alloc_bits f.elt_type < 2 ^ 32
      → d.alloc_bits f.init_type < 2 ^ 32
      → ((n : ℕ) → f.type_elts ≡ some n → n < 2 ^ 32)
      → array_elements d G f es ≡ ok ks
      → (padding : List K) × (tail_units d G
            (d.alloc_bits f.elt_type)
            (d.alloc_bits f.init_type)
            (length ks)
          ≡ ok padding)
        × (d.alloc_bits f.init_type ≤ total_size d G (ks ++ padding))
  unfolding array_elements
  array_elements-cover f es ks small_elt small few h =
      let size = d.alloc_bits f.elt_type in
      let start = initial_elements d G f.type_elts in
      let v = G.default_value f.elt_type in
      elim (Result-cases (place_entries d G size f.lower_bound es 0 start)) [
        | inr u ↦ absurd cc
        | inl (ys, p) ↦
            let e : map (or_default d G v) ys ≡ ks =
              ok_inj (sym (array_elements-small d G f es ys few p) ∙ h) in
            let long = length-map ys (or_default d G v) in
            let each : (i : ℕ) (k : K)
                → get_elem? (map (or_default d G v) ys) i ≡ some k
                → size ≤ size_of d G k =
              λ i k g.
                let (at, _) =
                  place_entries-initial_value d G size f.lower_bound es 0 i start ys p in
                each-size f es i k (value_at i ys) small_elt
                  (subst
                    (λ (o : Option K).
                      initial_value d G size f.lower_bound es 0 i o ≡ ok (value_at i ys))
                    (value_at-initial d G f.type_elts i) at)
                  (element-default v ys i k g) in
            tail_units-cover size (d.alloc_bits f.init_type) ks (l.whole_alloc f.elt_type)
              (l.whole_alloc f.init_type) small
              (total_size-least size ks (
                subst
                  (λ (z : List K). (i : ℕ) (k : K) → get_elem? z i ≡ some k → size ≤ size_of d G k)
                  e each))
      ]
