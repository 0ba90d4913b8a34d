-- ===== src/RecordInit/Elements.antt =====
-- The end of `ConvertRecordCONSTRUCTOR` of src/ConstantConversion.cpp: the struct for the layout of the
-- initial values.
use dragonegg.Base.{
  ℕ, ◌+◌, ◌-◌, ◌*◌, ◌/◌, ◌%◌, ◌^◌, Bool, true, false, not, ◌&&◌, ◌||◌, List, [], ◌∷◌, ◌++◌, ltb,
  ◌==◌, if◌then◌else◌, length,
}
use dragonegg.Base.Int.{ℤ, pos, negsuc, pos_part}
use dragonegg.Base.Results.{Result, ok, unreachable, ◌>>=◌}
use dragonegg.Ir.{IrType, struct, is_pointer, to_list}
use dragonegg.Views.{Sizes, Constants}
use dragonegg.Intervals.{align_boundaries}
use dragonegg.Records.Contents.{unit_type}
use dragonegg.Interpret.{Makers, same_type}
use dragonegg.RecordInit.{
  to_int, FieldContents, RecordFacts, FieldEntry, content_intervals, extract_constant,
  unaligned_layout,
}

module _ {K : Type 0} (S : Sizes) (F : Constants K) (G : Makers K) (big_endian : Bool) where
  -- The loop that finds out whether a packed struct is needed: `align` is the data layout's.
  unfoldable pub values_need_pack :
      (IrType → ℕ) → (K → IrType → K) → ℕ → List (FieldContents K) → Result Bool
  values_need_pack align zext max_align [] = ok false
  values_need_pack align zext max_align (f ∷ fs) =
      let rest = values_need_pack align zext max_align fs in
      extract_constant S F G big_endian zext f >>= λ c.
      let a = align (F.type_of c) * 8 % 2 ^ 32 in
      if ltb max_align a || not (pos_part f.bits.first % a == 0) then ok true else rest

  -- The padding before an element, if any. `default` is `getDefaultValue`.
  unfoldable pub value_padding : (IrType → K) → Bool → ℕ → ℕ → ℕ → Result (List K)
  value_padding default packed previous first a =
      if not (ltb previous first)
      then ok []
      else if not packed && (first == (previous + a - 1) % 2 ^ 32 / a * a)
      then ok []
      else if not ((first - previous) % 8 == 0)
      then unreachable
      else ok (default (unit_type ((first - previous) / 8)) ∷ [])

  -- The loop that makes the elements, with the end of the last one.
  unfoldable pub value_elements :
      (IrType → ℕ)
      → (K → IrType → K)
      → (IrType → K)
      → Bool
      → ℕ
      → List (FieldContents K)
      → Result (List K × ℕ)
  value_elements align zext default packed previous [] = ok ([], previous)
  value_elements align zext default packed previous (f ∷ fs) =
      extract_constant S F G big_endian zext f >>= λ c.
      let first = pos_part f.bits.first in
      let rest =
        value_elements align zext default packed ((first + S.alloc_bits (F.type_of c)) % 2 ^ 32)
          fs in
      if ltb first previous
      then unreachable
      else (value_padding default packed previous first (align (F.type_of c) * 8 % 2 ^ 32)
          >>= λ pad. rest >>= λ (elts, end_of_previous). ok (pad ++ c ∷ elts, end_of_previous))

  -- The elements fixed up for the types of a struct's fields, in place: pointers are cast to the
  -- field's type, and at another mismatch the code gives up.
  unfoldable pub fixed_up : (K → IrType → K) → List IrType → List K → Bool × List K
  fixed_up cast (t ∷ ts) (k ∷ ks) =
      let rest = fixed_up cast ts ks in
      if same_type (F.type_of k) t
      then (rest.0, k ∷ rest.1)
      else if is_pointer (F.type_of k) && is_pointer t
      then (rest.0, cast k t ∷ rest.1)
      else (false, k ∷ ks)
  fixed_up cast ts ks = (true, ks)

  -- The computed elements as a constant of the type if possible, else as an anonymous struct.
  unfoldable pub as_record : (K → IrType → K) → (Bool → List K → K) → IrType → Bool → List K → K
  as_record cast anonymous (struct p ts) packed elts =
      let (types_match, fixed) = fixed_up cast (to_list ts) elts in
      if not ((if p then packed else not packed) && (length (to_list ts) == length elts))
      then anonymous packed elts
      else if types_match
      then G.struct_of (struct p ts) fixed
      else anonymous packed fixed
  as_record cast anonymous t packed elts = anonymous packed elts

  -- An integer as an `int`.
  abbrev pub as_int : ℤ → ℤ
  as_int (pos n) = to_int n
  as_int (negsuc n) = to_int (2 ^ 32 - 1 - n % 2 ^ 32)

  -- `ConvertRecordCONSTRUCTOR` of a type with an LLVM type and an alignment in bits.
  unfoldable pub convert_record_constructor :
      (IrType → ℕ)
      → (K → IrType → K)
      → (K → IrType → K)
      → (IrType → K)
      → (Bool → List K → K)
      → IrType
      → ℕ
      → RecordFacts
      → List (FieldEntry K)
      → Result K
  convert_record_constructor align zext cast default anonymous ty type_align t es =
      unaligned_layout S F G big_endian t es >>= λ unaligned.
      let layout = align_boundaries (content_intervals S F G big_endian) as_int 8 unaligned in
      values_need_pack align zext type_align layout >>= λ packed.
      value_elements align zext default packed 0 layout >>= λ (elts, end_of_previous).
      value_padding default true end_of_previous t.type_bits 8 >>= λ pad.
      ok (as_record cast anonymous ty packed (elts ++ pad))
