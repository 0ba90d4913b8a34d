-- ===== src/RecordInit.antt =====
-- `FieldContents` and `ConvertRecordCONSTRUCTOR` of src/ConstantConversion.cpp: the constant for a record or
-- a union of which some fields have initial values. A field's value is what
-- `ConvertInitializerWithCast` returned for it. A failed assertion of `JoinWith` is kept in the
-- contents, whose extraction then fails.
pub mod Owner
pub mod Elements
use mathlib.Core.List.{reverse}
use dragonegg.Base.{
  ℕ, zero, suc, ◌+◌, ◌-◌, ◌*◌, ◌/◌, ◌%◌, ◌^◌, ◌≡◌, refl, arith, Bool, true, false, not, ◌&&◌, ◌||◌,
  Option, none, some, List, [], ◌∷◌, ◌++◌, ltb, leb, ◌==◌, if◌then◌else◌, length, drop, get_elem?,
}
use dragonegg.Base.Int.{ℤ, pos, pos_part, ◌-ℤ◌, eqb_ℤ}
use dragonegg.Base.Results.{Result, ok, unreachable, ◌>>=◌}
use dragonegg.Ir.{IrType, int, pointer, struct, is_pointer, to_list}
use dragonegg.Range.{Range, range, empty, join, intersects, get_width}
use dragonegg.Bits.{BitSlice, merge, get_bits}
use dragonegg.Views.{Sizes, Constants}
use dragonegg.Intervals.{Interval, add_interval, align_boundaries}
use dragonegg.Records.Contents.{unit_type, whole_bytes}
use dragonegg.Interpret.{Makers, interpret_as_type, same_type}

pub record FieldContents (K : Type 0) : Type 0 where
  pub bits : Range
  pub constant : Result (Option K)
  pub starts : ℤ

-- A number of bits as an `int`.
abbrev pub to_int : ℕ → ℤ
to_int n = pos ((n + 2 ^ 31) % 2 ^ 32) -ℤ pos (2 ^ 31)

-- `FieldContents::get`, which takes an `int` for either end.
abbrev pub field_contents : {K : Type 0} → ℕ → ℕ → K → FieldContents K
field_contents first last c = record {
  bits = range (to_int first) (to_int last);
  constant = ok (some c);
  starts = to_int first;
}

-- A constant, which a range that is not empty has.
abbrev pub needed : {K : Type 0} → Option K → Result K
needed none = unreachable
needed (some c) = ok c

module _ {K : Type 0} (S : Sizes) (F : Constants K) (G : Makers K) (big_endian : Bool) where
  -- `getAsBits`.
  unfoldable pub as_bits : FieldContents K → Result (Option K)
  as_bits f =
      if empty f.bits
      then ok none
      else (f.constant >>= needed >>= λ c.
          interpret_as_type S F G big_endian c (int (pos_part (get_width f.bits)))
            (f.bits.first -ℤ f.starts)
          >>= λ k. ok (some k))

  -- The two ranges' bits pasted together.
  unfoldable pub pasted : FieldContents K → FieldContents K → Result (Option K)
  pasted s t = as_bits s >>= λ a. as_bits t >>= λ b.
      merge F.integers big_endian (record { slice_range = s.bits; contents = a })
        (record { slice_range = t.bits; contents = b })
      >>= λ both. get_bits F.integers big_endian both (join s.bits t.bits)

  -- `JoinWith`.
  unfoldable pub join_contents : FieldContents K → FieldContents K → FieldContents K
  join_contents s t = if empty t.bits then s else if empty s.bits then t else record {
    bits = join s.bits t.bits;
    constant = pasted s t;
    starts = (join s.bits t.bits).first;
  }

  pub get_range-join_contents :
      (s t : FieldContents K)
      → intersects s.bits t.bits ≡ false
      → empty t.bits ≡ false
      → (join_contents s t).bits ≡ join s.bits t.bits
  unfolding join_contents join
  get_range-join_contents s t h k = ground arith

  -- Field contents as the intervals of a layout.
  abbrev pub content_intervals : Interval (FieldContents K) (Result (Option K))
  content_intervals = record {
    get_range = λ (f : FieldContents K). f.bits;
    change_to = λ (f : FieldContents K) (r : Range). record f { bits = r };
    join_with = join_contents;
    content = λ (f : FieldContents K). f.constant;
    get_range-change_to = λ t r. refl;
    content-change_to = λ t r. refl;
    get_range-join_with = get_range-join_contents;
  }

  -- `isSafeToReturnContentsDirectly`, for the constant.
  unfoldable pub is_direct : FieldContents K → K → Bool
  is_direct f c =
      if not (empty f.bits) && not (eqb_ℤ f.bits.first f.starts)
      then false
      else if not (S.primitive_bits (F.type_of c) % 8 == 0)
      then false
      else leb (S.alloc_bits (F.type_of c)) (pos_part (get_width f.bits))

  -- An array of bytes; that its size suits is asserted.
  unfoldable pub bytes_of : FieldContents K → K → Result K
  bytes_of f c =
      interpret_as_type S F G big_endian c (unit_type (pos_part (get_width f.bits) / 8))
        (f.bits.first -ℤ f.starts)
      >>= λ k. if is_direct (record f { starts = f.bits.first }) k then ok k else unreachable

  -- What is made of a constant that cannot be returned as it is. `zext` is
  -- `CreateZExtOrBitCast`.
  unfoldable pub rounded_or_bytes : (K → IrType → K) → FieldContents K → K → Result K
  rounded_or_bytes zext f c =
      let rounded = zext c (int (whole_bytes (S.primitive_bits (F.type_of c)))) in
      if S.primitive_bits (F.type_of c) % 8 == 0
      then bytes_of f c
      else if is_direct f rounded
      then ok rounded
      else bytes_of f rounded

  -- `extractContents`. That it remembers its answer has no effect, as it is called on copies.
  unfoldable pub extract_constant : (K → IrType → K) → FieldContents K → Result K
  extract_constant zext f =
      if not (pos_part (get_width f.bits) % 8 == 0)
      then unreachable
      else (f.constant >>= λ o. direct o)
    where
      direct : Option K → Result K
      direct none = if empty f.bits then ok (G.undef_value (unit_type 0)) else unreachable
      direct (some c) =
          if is_direct f c
          then ok c
          else if empty f.bits
          then ok (G.undef_value (unit_type 0))
          else rounded_or_bytes zext f c

-- A `FIELD_DECL` of the type's chain: its first bit if its position is known, `DECL_SIZE` if it is
-- constant, and its LLVM type with the size of that, if it has one.
pub record FieldFacts : Type 0 where
  pub first_bit : Option ℕ
  pub decl_bits : Option ℕ
  pub field_type : IrType
  pub is_sized : Bool

-- The other things in the chain, such as methods, are `none`.
abbrev pub Chain : Type 0
Chain = List (Option FieldFacts)

pub record RecordFacts : Type 0 where
  pub chain : Chain
  -- the LLVM type's alloc size in bits
  pub type_bits : ℕ
  pub default_initialize : Bool

-- An element of the constructor: the position of its field in the chain, if given.
pub record FieldEntry (K : Type 0) : Type 0 where
  pub field_index : Option ℕ
  pub value : K

-- The first field of a chain and the number of things before it.
unfoldable pub first_field : Chain → Result (ℕ × FieldFacts)
first_field [] = unreachable
first_field (none ∷ c) = first_field c >>= λ r. ok (suc r.0, r.1)
first_field (some f ∷ c) = ok (0, f)

-- The field of an entry and its position in the chain, counting on from `next` if none is given.
unfoldable pub entry_field : Chain → ℕ → Option ℕ → Result (ℕ × FieldFacts)
entry_field chain next none = first_field (drop next chain) >>= λ r. ok (next + r.0, r.1)
entry_field chain next (some i) = elim (get_elem? chain i) [
  | none ↦ unreachable
  | some o ↦ elim o [ none ↦ unreachable | some f ↦ ok (i, f) ]
]

module _ {K : Type 0} (S : Sizes) (F : Constants K) (G : Makers K) (big_endian : Bool) where
  -- The width of a field that is default initialized; a field without a size is not.
  unfoldable pub zero_width : ℕ → ℕ → FieldFacts → Option ℕ
  zero_width type_bits first f = elim f.decl_bits [
    | some w ↦ some w
    | none ↦
        let size = S.alloc_bits f.field_type in
        if not f.is_sized
        then none
        else if ltb type_bits ((first + size) % 2 ^ 64)
        then some (type_bits - first)
        else some size
  ]

  -- The zeros for a field, at its bits.
  unfoldable pub zero_field : ℕ → FieldFacts → Result (Option (FieldContents K))
  zero_field type_bits f = elim f.first_bit [
    | none ↦ ok none
    | some first ↦
        if ltb type_bits first then unreachable else elim (zero_width type_bits first f) [
          | none ↦ ok none
          | some w ↦
              ok (some (field_contents first ((first + w) % 2 ^ 64) (G.null_value f.field_type)))
        ]
  ]

  -- The fields' zeros, in order.
  unfoldable pub zero_fields : ℕ → Chain → Result (List (FieldContents K))
  zero_fields type_bits [] = ok []
  zero_fields type_bits (none ∷ c) = zero_fields type_bits c
  zero_fields type_bits (some f ∷ c) = zero_field type_bits f >>= λ z.
      zero_fields type_bits c >>= λ zs. elim z [ none ↦ ok zs | some x ↦ ok (x ∷ zs) ]

  -- The contents for an initial value.
  unfoldable pub value_contents : ℕ → FieldFacts → K → Result (FieldContents K)
  value_contents type_bits f v = elim f.first_bit [
    | none ↦ unreachable
    | some first ↦
        let w : ℕ = elim f.decl_bits [ some n ↦ n | none ↦ S.alloc_bits (F.type_of v) ] in
        if ltb type_bits first
        then unreachable
        else ok (field_contents first ((first + w) % 2 ^ 64) v)
  ]

  -- The contents for the initial values, in order.
  unfoldable pub initial_contents :
      ℕ → Chain → ℕ → List (FieldEntry K) → Result (List (FieldContents K))
  initial_contents type_bits chain next [] = ok []
  initial_contents type_bits chain next (e ∷ es) = entry_field chain next e.field_index >>= λ r.
      value_contents type_bits r.1 e.value >>= λ x.
      initial_contents type_bits chain (suc r.0) es >>= λ xs. ok (x ∷ xs)

  -- `AddInterval` of contents one after another.
  unfoldable pub add_all : List (FieldContents K) → List (FieldContents K) → List (FieldContents K)
  add_all [] layout = layout
  add_all (x ∷ xs) layout = add_all xs (add_interval (content_intervals S F G big_endian) x layout)

  -- The layout before its boundaries are aligned: the zeros are added backwards, then the values.
  unfoldable pub unaligned_layout :
      RecordFacts → List (FieldEntry K) → Result (List (FieldContents K))
  unaligned_layout t es =
      (if t.default_initialize then zero_fields t.type_bits t.chain else ok []) >>= λ zeros.
      initial_contents t.type_bits t.chain 0 es >>= λ values.
      ok (add_all values (add_all (reverse zeros) []))
