-- ===== src/Views/Fields.antt =====
-- The loop of `ViewAsBits` of src/ConstantConversion.cpp over the fields of a struct.
use dragonegg.Base.{
  ℕ, suc, ◌+◌, ◌-◌, ◌*◌, ◌/◌, ◌≤◌, ◌<◌, ◌≡◌, ◌⊎◌, inl, inr, refl, arith, Bool, true, ◌||◌, Option,
  some, Bool-cases, Option-cases, ltb, leb, get_elem?,
}
use dragonegg.Base.Int.{pos, pos_part, neg_part_zero, ◌≤ℤ◌}
use dragonegg.Base.Results.{ok}
use dragonegg.Ir.{IrType, IrTypes, struct, nil, cons, to_list}
use dragonegg.Range.{Range, empty}
use dragonegg.Range.Members.{In, empty-In}
use dragonegg.Bits.{BitSlice}
use dragonegg.Views.{
  Sizes, Constants, sanitized, view_case, view_fields, memory_bit, field_bit, needed_bits,
}
use dragonegg.Views.Merge.{Views}
use dragonegg.Views.Parts.{Seen, Views-weaken, add_part-Views, needed_bits-In}
use dragonegg.Views.Rules.{SizeRules}
use dragonegg.Views.Bounds.{
  Suffix, Suffix-first, Suffix-next, or_third, Viewed, field_bit-split, field_bit-nil,
}

module _ {K : Type 0} (S : Sizes) (F : Constants K) (big_endian : Bool) (L : SizeRules S) where
  -- What is known so far fits before the field at an index.
  abbrev Room : IrTypes → Bool → ℕ → ℕ → Type 0
  Room all q i low =
      (low ≤ S.store_bits (struct q all))
      × ((t : IrType)
          → get_elem? (to_list all) i ≡ some t
          → low ≤ S.element_offset (struct q all) i * 8)

  -- A field that the loop skips has no bit in the range.
  skipped :
      (q : Bool) (all ts : IrTypes) (t : IrType) (r : Range) (i p : ℕ)
      → Suffix all (cons t ts) i
      → pos 0 ≤ℤ r.first
      → ((ltb i (S.element_containing (struct q all) (pos_part r.first / 8))
            || leb (1 + S.element_containing (struct q all) ((pos_part r.last - 1) / 8)) i)
          || empty (
              needed_bits S F big_endian
                (S.store_bits t)
                (S.element_offset (struct q all) i * 8)
                r))
        ≡ true
      → In (pos p) r
      → S.element_offset (struct q all) i * 8 ≤ p
      → ¬ (p < S.element_offset (struct q all) i * 8 + S.store_bits t)
  skipped q all ts t r i p e z h k f g =
      let a = S.element_containing (struct q all) (pos_part r.first / 8) in
      let b = S.element_containing (struct q all) ((pos_part r.last - 1) / 8) in
      let here = Suffix-first all t ts i e in
      let low = neg_part_zero r.first z in
      let none_needed =
        (empty-In (
          needed_bits S F big_endian (S.store_bits t) (S.element_offset (struct q all) i * 8)
            r)).0 in
      let inside =
        needed_bits-In S F big_endian (S.store_bits t) (S.element_offset (struct q all) i * 8) p r f
          g k in
      let last = (L.containing-field q all i ((pos_part r.last - 1) / 8) t here).1 in
      elim (Bool-cases (ltb i a)) [
        | inl c ↦ elim (Option-cases (get_elem? (to_list all) (suc i))) [
          | inl n ↦ let u = L.containing-last q all i (pos_part r.first / 8) n in ground arith
          | inr (u, n) ↦
              let x = (L.containing-field q all (suc i) (pos_part r.first / 8) u n).0 in
              let y = L.field-next q all i t u here n in omega (arith, x (ground arith), y, k.0, g)
        ]
        | inr c ↦ elim (Bool-cases (leb (1 + b) i)) [
          | inl d ↦ let x : i ≤ b = last (omega (arith, k.1, f)) in ground arith
          | inr d ↦
              none_needed
                (or_third (ltb i a) (leb (1 + b) i)
                  (empty (
                    needed_bits S F big_endian (S.store_bits t)
                      (S.element_offset (struct q all) i * 8) r))
                  h c d)
                (pos (p - S.element_offset (struct q all) i * 8)) inside
        ]
      ]

  Room-next :
      (all : IrTypes) (q : Bool) (i : ℕ) (t : IrType)
      → get_elem? (to_list all) i ≡ some t
      → Room all q (suc i) (S.element_offset (struct q all) i * 8 + S.store_bits t)
  Room-next all q i t h = (L.field-inside q all i t h, λ u k. L.field-next q all i t u h k)

  Room-skip :
      (all : IrTypes) (q : Bool) (i low : ℕ) (t : IrType)
      → get_elem? (to_list all) i ≡ some t
      → Room all q i low
      → Room all q (suc i) low
  Room-skip all q i low t h (k, l) = (k, λ u m. omega (arith, l t h, L.field-next q all i t u h m))

  abbrev pub FieldsSeen : IrTypes → IrType → K → Range → ℕ → (ℕ → Bool → Type 0) → ℕ → Bool → Type 0
  FieldsSeen ts whole c r i known p b =
      known p b ⊎ Seen r (λ x. field_bit S F big_endian ts whole c x i) p b

  -- What was known, or a bit of the part at an offset.
  abbrev Widened : ℕ → ℕ → Range → (ℕ → Option Bool) → (ℕ → Bool → Type 0) → ℕ → Bool → Type 0
  Widened o width r bit known p b =
      known p b ⊎ ((o ≤ p) × (p < o + width) × In (pos p) r × (bit (p - o) ≡ some b))

  -- Every field from an index on is viewed as it should be.
  abbrev pub ViewedFrom : IrTypes → K → ℕ → Type 0
  ViewedFrom nil c i = Unit
  ViewedFrom (cons t ts) c i =
      Viewed S F big_endian L t (F.extract_value c i)
        (sanitized S F big_endian t (view_case S F big_endian t (F.extract_value c i)))
      × ViewedFrom ts c (suc i)

  pub view_fields-Views :
      (q : Bool) (all ts : IrTypes) (c : K) (r : Range) (i low : ℕ) (s : BitSlice K)
      (known : ℕ → Bool → Type 0)
      → Suffix all ts i
      → ViewedFrom ts c i
      → pos 0 ≤ℤ r.first
      → Room all q i low
      → Views F.integers big_endian low known s
      → (e : BitSlice K) × (view_fields S F big_endian ts
            (struct q all)
            c
            r
            (S.element_containing (struct q all) (pos_part r.first / 8))
            (1 + S.element_containing (struct q all) ((pos_part r.last - 1) / 8))
            i
            s
          ≡ ok e)
        × Views F.integers big_endian
            (S.store_bits (struct q all))
            (FieldsSeen ts (struct q all) c r i known)
            e
  unfolding view_fields
  view_fields-Views q all nil c r i low s known e a z (room, _) v = (
    s,
    refl,
    Views-weaken S F big_endian low (S.store_bits (struct q all)) known
        (FieldsSeen nil (struct q all) c r i known) s room
        (λ p b k. elim k [
          | inl x ↦ x
          | inr (x, y) ↦ absurd (field_bit-nil S F big_endian L (struct q all) c p i b y)
        ])
        v,
  )
  view_fields-Views q all (cons t ts) c r i low s known e a z room v =
      let whole = struct q all in
      let o = S.element_offset whole i * 8 in
      let needed = needed_bits S F big_endian (S.store_bits t) o r in
      let first = S.element_containing whole (pos_part r.first / 8) in
      let last = 1 + S.element_containing whole ((pos_part r.last - 1) / 8) in
      let here = Suffix-first all t ts i e in
      elim (Bool-cases ((ltb i first || leb last i) || empty needed)) [
        | inl h ↦
            let (u, m, vu) =
              view_fields-Views q all ts c r (suc i) low s known (Suffix-next all t ts i e) a.1 z
                (Room-skip all q i low t here room) v in
            (
              u,
              rw h m,
              Views-weaken S F big_endian (S.store_bits whole) (S.store_bits whole)
                  (FieldsSeen ts whole c r (suc i) known) (FieldsSeen (cons t ts) whole c r i known)
                  u (omega arith)
                  (λ p b k. elim k [
                    | inl x ↦ inl x
                    | inr (x, y) ↦ elim (field_bit-split S F big_endian L t ts whole c p b i y) [
                      | inl (f, g, _) ↦ absurd (skipped q all ts t r i p e z h x f g)
                      | inr f ↦ inr (x, f)
                    ]
                  ])
                  vu,
            )
        | inr h ↦
            let bit : ℕ → Option Bool = memory_bit S F big_endian t (F.extract_value c i) in
            let (x, g, vx) = a.0 needed in
            let (u, m, vu) =
              add_part-Views S F big_endian
                (sanitized S F big_endian t (view_case S F big_endian t (F.extract_value c i))) o
                (S.store_bits t) r s x bit known (Widened o (S.store_bits t) r bit known)
                (Views-weaken S F big_endian low o known known s (room.1 t here) (λ p b k. k) v) g
                vx (λ p b k. k) in
            let (w, n, vw) =
              view_fields-Views q all ts c r (suc i) (o + S.store_bits t) u
                (Widened o (S.store_bits t) r bit known) (Suffix-next all t ts i e) a.1 z
                (Room-next all q i t here) vu in
            (
              w,
              rw (h, m) n,
              Views-weaken S F big_endian (S.store_bits whole) (S.store_bits whole)
                  (FieldsSeen ts whole c r (suc i) (Widened o (S.store_bits t) r bit known))
                  (FieldsSeen (cons t ts) whole c r i known) w (omega arith)
                  (λ p b k. elim k [
                    | inl y ↦ inl (inl y)
                    | inr (y, l) ↦ elim (field_bit-split S F big_endian L t ts whole c p b i l) [
                      | inl (f, j, d) ↦ inl (inr (f, j, y, d))
                      | inr f ↦ inr (y, f)
                    ]
                  ])
                  vw,
            )
      ]
