-- ===== src/Views/Bounds.antt =====
-- `ViewAsBits` of src/ConstantConversion.cpp up to its switch: the range is cut to the size of the type, beyond
-- which no bit is in memory.
use dragonegg.Base.{
  ℕ, zero, suc, ◌+◌, ◌-◌, ◌*◌, ◌≤◌, ◌<◌, ◌≡◌, ◌⊎◌, inl, inr, refl, sym, arith, Bool, true, false,
  ◌&&◌, ◌||◌, Option, some, Bool-cases, subst, ltb, leb, lt→ltb, if◌then◌else◌, get_elem?,
}
use dragonegg.Base.Int.{pos, ◌≤ℤ◌, ◌<ℤ◌}
use dragonegg.Base.Results.{Result, ok}
use dragonegg.Ir.{IrType, IrTypes, pointer, vector, array, struct, nil, cons, to_list}
use dragonegg.Range.{Range, range, empty, meet}
use dragonegg.Range.Members.{In, meet-In, empty-In}
use dragonegg.Bits.{BitSlice, contents_valid}
use dragonegg.Views.{Sizes, Constants, no_bits, sanitized, view_case, memory_bit, field_bit}
use dragonegg.Views.Merge.{Views}
use dragonegg.Views.Parts.{Seen, Views-weaken}
use dragonegg.Views.Rules.{SizeRules, is_viewable}

cut-bounds :
    (r : Range) (w : ℕ)
    → empty (meet r (range (pos 0) (pos w))) ≡ false
    → ((meet r (range (pos 0) (pos w))).first <ℤ (meet r (range (pos 0) (pos w))).last)
      × (pos 0 ≤ℤ (meet r (range (pos 0) (pos w))).first)
      × ((meet r (range (pos 0) (pos w))).last ≤ℤ pos w)
      × (0 < w)
unfolding meet empty
cut-bounds r w h = (ground arith, ground arith, ground arith, ground arith)

In-cut : (r : Range) (w p : ℕ) → In (pos p) r → p < w → In (pos p) (meet r (range (pos 0) (pos w)))
In-cut r w p h k = (meet-In r (range (pos 0) (pos w)) (pos p)).1 (h, (omega arith, omega arith))

pub and_left : (x y : Bool) → (x && y) ≡ true → x ≡ true
and_left x y h = ground arith

pub and_right : (x y : Bool) → (x && y) ≡ true → y ≡ true
and_right x y h = ground arith

pub or_third : (x y z : Bool) → ((x || y) || z) ≡ true → x ≡ false → y ≡ false → z ≡ true
or_third x y z h k l = ground arith

pub factor_positive : (n a : ℕ) → 0 < n * a → 0 < a
factor_positive n zero h = omega arith
factor_positive n (suc a) h = omega arith

pub if_some :
    (test : Bool) (x y : Option Bool) (b : Bool)
    → (if test then x else y) ≡ some b
    → ((test ≡ true) × (x ≡ some b)) ⊎ (y ≡ some b)
if_some true x y b h = inl (refl, h)
if_some false x y b h = inr h

-- The types are the end of a struct's list of field types from an index on.
abbrev pub Suffix : IrTypes → IrTypes → ℕ → Type 0
Suffix all ts i = (j : ℕ) → get_elem? (to_list ts) j ≡ get_elem? (to_list all) (i + j)

pub Suffix-all : (all : IrTypes) → Suffix all all 0
Suffix-all all j =
    subst (λ (x : ℕ). get_elem? (to_list all) j ≡ get_elem? (to_list all) x) (omega arith) refl

pub Suffix-first :
    (all : IrTypes) (t : IrType) (ts : IrTypes) (i : ℕ)
    → Suffix all (cons t ts) i
    → get_elem? (to_list all) i ≡ some t
Suffix-first all t ts i h =
    subst (λ (x : ℕ). get_elem? (to_list all) x ≡ some t) (omega arith) (sym (h 0))

pub Suffix-next :
    (all : IrTypes) (t : IrType) (ts : IrTypes) (i : ℕ)
    → Suffix all (cons t ts) i
    → Suffix all ts (suc i)
Suffix-next all t ts i h j =
    subst (λ (x : ℕ). get_elem? (to_list ts) j ≡ get_elem? (to_list all) x) (omega arith)
      (h (suc j))

module _ {K : Type 0} (S : Sizes) (F : Constants K) (big_endian : Bool) (L : SizeRules S) where
  abbrev pub Viewed : IrType → K → (Range → Result (BitSlice K)) → Type 0
  Viewed t c view =
      (r : Range)
      → (e : BitSlice K) × (view r ≡ ok e)
        × Views F.integers big_endian (S.store_bits t) (Seen r (memory_bit S F big_endian t c)) e

  -- A bit of the fields is one of the first or one of the others.
  pub field_bit-split :
      (t : IrType) (ts : IrTypes) (whole : IrType) (c : K) (p : ℕ) (b : Bool) (i : ℕ)
      → field_bit S F big_endian (cons t ts) whole c p i ≡ some b
      → ((S.element_offset whole i * 8 ≤ p)
          × (p < S.element_offset whole i * 8 + S.store_bits t)
          × (memory_bit S F big_endian t (F.extract_value c i) (p - S.element_offset whole i * 8)
              ≡ some b))
        ⊎ (field_bit S F big_endian ts whole c p (suc i) ≡ some b)
  unfolding field_bit
  field_bit-split t ts whole c p b i h =
      let o = S.element_offset whole i * 8 in
      elim (if_some (leb o p && ltb p (o + S.store_bits t))
        (memory_bit S F big_endian t (F.extract_value c i) (p - o))
        (field_bit S F big_endian ts whole c p (suc i)) b h) [
          | inl (e, f) ↦ inl (ground arith, ground arith, f)
          | inr f ↦ inr f
        ]

  pub field_bit-nil :
      (whole : IrType) (c : K) (p i : ℕ) (b : Bool)
      → ¬ (field_bit S F big_endian nil whole c p i ≡ some b)
  unfolding field_bit
  field_bit-nil whole c p i b h = cc

  field_bit-bound :
      (q : Bool) (all ts : IrTypes) (c : K) (p : ℕ) (b : Bool) (i : ℕ)
      → Suffix all ts i
      → field_bit S F big_endian ts (struct q all) c p i ≡ some b
      → p < S.store_bits (struct q all)
  field_bit-bound q all nil c p b i e h = absurd (field_bit-nil (struct q all) c p i b h)
  field_bit-bound q all (cons t ts) c p b i e h =
      elim (field_bit-split t ts (struct q all) c p b i h) [
        | inl (f, g, _) ↦ omega (arith, f, g, L.field-inside q all i t (Suffix-first all t ts i e))
        | inr f ↦ field_bit-bound q all ts c p b (suc i) (Suffix-next all t ts i e) f
      ]

  memory_bit-bound :
      (t : IrType) (c : K) (p : ℕ) (b : Bool)
      → is_viewable S t ≡ true
      → memory_bit S F big_endian t c p ≡ some b
      → p < S.store_bits t
  unfolding memory_bit is_viewable
  memory_bit-bound (pointer t) c p b v h = ground arith
  memory_bit-bound (array t n) c p b v h = ground (arith, L.array-store t n)
  memory_bit-bound (vector t n) c p b v h = ground arith
  memory_bit-bound (struct q ts) c p b v h = field_bit-bound q ts ts c p b 0 (Suffix-all ts) h
  memory_bit-bound t c p b v h = ground (arith, L.primitive-le-store t)

  -- A range cut to the size of the type, for the case of the type.
  abbrev pub Cased : IrType → K → Type 0
  Cased t c =
      (m : Range)
      → m.first <ℤ m.last
      → pos 0 ≤ℤ m.first
      → m.last ≤ℤ pos (S.store_bits t)
      → 0 < S.store_bits t
      → (e : BitSlice K) × (view_case S F big_endian t c m ≡ ok e)
        × Views F.integers big_endian (S.store_bits t) (Seen m (memory_bit S F big_endian t c)) e

  pub nothing-Views :
      (w : ℕ) (wanted : ℕ → Bool → Type 0)
      → ((p : ℕ) (b : Bool) → ¬ (wanted p b))
      → Views F.integers big_endian w wanted no_bits
  nothing-Views w wanted h = record {
    is_valid = unfold contents_valid empty in refl;
    inside = λ p k. absurd (omega (arith, k));
    covers = λ p b k. absurd (h p b k);
  }

  pub sanitized-Viewed :
      (t : IrType) (c : K)
      → is_viewable S t ≡ true
      → Cased t c
      → Viewed t c (sanitized S F big_endian t (view_case S F big_endian t c))
  unfolding sanitized
  sanitized-Viewed t c v cased r =
      let w = S.store_bits t in
      let m = meet r (range (pos 0) (pos w)) in
      elim (Bool-cases (empty r)) [
        | inl e ↦ (
          no_bits,
          rw e refl,
          nothing-Views w (Seen r (memory_bit S F big_endian t c))
              (λ p b (i, h). unfold empty in ground arith),
        )
        | inr e ↦ elim (Bool-cases (empty m)) [
          | inl f ↦ (
            no_bits,
            rw (e, f) refl,
            nothing-Views w (Seen r (memory_bit S F big_endian t c)) (λ p b (i, h).
                (empty-In m).0 f (pos p) (In-cut r w p i (memory_bit-bound t c p b v h))),
          )
          | inr f ↦
              let (low, first, last, large) = cut-bounds r w f in
              let (s, g, vs) = cased m low first last large in
              (
                s,
                rw (e, f, lt→ltb 0 w large) g,
                Views-weaken S F big_endian w w (Seen m (memory_bit S F big_endian t c))
                    (Seen r (memory_bit S F big_endian t c)) s (omega arith)
                    (λ p b (i, h). (In-cut r w p i (memory_bit-bound t c p b v h), h)) vs,
              )
        ]
      ]
