-- ===== src/Views.antt =====
-- `ViewAsBits` of src/ConstantConversion.cpp: a constant of any type as one big integer. Constants,
-- the folder that takes them apart and the data layout are parameters, with what LLVM documents of
-- them as laws; the bits of a constant in memory are defined from its type, with no ranges.
pub mod Merge
pub mod Parts
pub mod Rules
pub mod Bounds
pub mod Fields
pub mod Sound
use dragonegg.Base.{
  ℕ, zero, suc, ◌+◌, ◌-◌, ◌*◌, ◌/◌, ◌%◌, ◌≤◌, ◌<◌, ◌≡◌, ◌↔◌, Bool, true, false, not, ◌&&◌, ◌||◌,
  Option, none, some, ltb, leb, ◌==◌, if◌then◌else◌,
}
use dragonegg.Base.Int.{ℤ, pos, pos_part, neg_ℤ}
use dragonegg.Base.Results.{Result, ok, unreachable, ◌>>=◌}
use dragonegg.Ir.{
  IrType, IrTypes, float, double, x86_fp80, fp128, ppc_fp128, x86_mmx, int, pointer, vector, array,
  struct, nil, cons,
}
use dragonegg.Range.{Range, range, no_range, empty, displace, meet}
use dragonegg.Bits.{Folder, BitSlice, merge, displace_slice}

-- What the data layout says of sizes, in bits, and of the fields of structs, in bytes.
pub record Sizes : Type 0 where
  pub store_bits : IrType → ℕ
  pub alloc_bits : IrType → ℕ
  pub primitive_bits : IrType → ℕ
  -- `getElementOffset` and `getElementContainingOffset` of the layout of a struct type
  pub element_offset : IrType → ℕ → ℕ
  pub element_containing : IrType → ℕ → ℕ

-- The constants and the operations of LLVM's folder that take one apart.
pub record Constants (K : Type 0) : Type 0 where
  pub integers : Folder K
  pub type_of : K → IrType
  -- `CreatePtrToInt` to the integer type of a pointer's size
  pub ptr_to_int : K → K
  -- `CreateBitCast` to an integer type of the same width
  pub bit_cast : K → ℕ → K
  pub extract_value : K → ℕ → K
  pub extract_element : K → ℕ → K

abbrev pub no_bits : {K : Type 0} → BitSlice K
no_bits = record { slice_range = no_range; contents = none }

-- A scalar whose bits are those of an integer of the same width.
abbrev pub is_scalar : IrType → Bool
is_scalar (int w) = true
is_scalar float = true
is_scalar double = true
is_scalar x86_fp80 = true
is_scalar fp128 = true
is_scalar ppc_fp128 = true
is_scalar x86_mmx = true
is_scalar t = false

module _ {K : Type 0} (S : Sizes) (F : Constants K) (big_endian : Bool) where
  -- Where the bits of a scalar are: behind the padding on big-endian machines, else before it.
  abbrev pub scalar_range : IrType → Range
  scalar_range t =
      if big_endian
      then range (pos (S.store_bits t - S.primitive_bits t)) (pos (S.store_bits t))
      else range (pos 0) (pos (S.primitive_bits t))

  -- Views the part at an offset and adds its bits to the ones that are known.
  unfoldable pub add_part :
      (Range → Result (BitSlice K)) → ℕ → Range → BitSlice K → Result (BitSlice K)
  add_part view offset needed bits = view needed >>= λ part.
      merge F.integers big_endian bits (displace_slice F.integers big_endian part (pos offset))

  -- The bits of a part that the range asks for, counted from the start of the part.
  unfoldable pub needed_bits : ℕ → ℕ → Range → Range
  needed_bits width offset r = meet (range (pos 0) (pos width)) (displace r (neg_ℤ (pos offset)))

  -- The loop over `count` elements of an array or a vector from index `i` on.
  unfoldable pub view_elements :
      (ℕ → Range → Result (BitSlice K)) → ℕ → Range → ℕ → ℕ → BitSlice K → Result (BitSlice K)
  view_elements view stride r zero i bits = ok bits
  view_elements view stride r (suc count) i bits =
      if empty (needed_bits stride (i * stride) r)
      then unreachable
      else (add_part (view i) (i * stride) (needed_bits stride (i * stride) r) bits >>= λ more.
          view_elements view stride r count (suc i) more)

  -- The case of arrays and of vectors.
  unfoldable pub view_array :
      (ℕ → Range → Result (BitSlice K)) → ℕ → ℕ → Range → Result (BitSlice K)
  view_array view stride n r =
      let first_elt = pos_part r.first / stride in
      let last_elt = (pos_part r.last + stride - 1) / stride in
      if not (ltb 0 stride) || not (leb last_elt n)
      then unreachable
      else view_elements view stride r (last_elt - first_elt) first_elt no_bits

  -- `ViewAsBits` up to the switch: the range is sanitized for what is done by the type.
  unfoldable pub sanitized : IrType → (Range → Result (BitSlice K)) → Range → Result (BitSlice K)
  sanitized t by_type r =
      let store = S.store_bits t in
      if empty r
      then ok no_bits
      else if empty (meet r (range (pos 0) (pos store)))
      then ok no_bits
      else if not (ltb 0 store)
      then unreachable
      else by_type (meet r (range (pos 0) (pos store)))

  unfoldable mutual
    -- The switch on the type, with the sanitized range.
    pub view_case : IrType → K → Range → Result (BitSlice K)
    view_case (pointer t) c r = ok (record {
      slice_range = range (pos 0) (pos (S.store_bits (pointer t)));
      contents = some (F.ptr_to_int c);
    })
    view_case (array t n) c r =
        view_array (λ i. sanitized t (view_case t (F.extract_value c i))) (S.alloc_bits t) n r
    view_case (vector t n) c r =
        view_array (λ i. sanitized t (view_case t (F.extract_element c i))) (S.alloc_bits t) n r
    view_case (struct packed ts) c r =
        view_fields ts (struct packed ts) c r
          (S.element_containing (struct packed ts) (pos_part r.first / 8))
          (1 + S.element_containing (struct packed ts) ((pos_part r.last - 1) / 8)) 0 no_bits
    view_case t c r =
        if is_scalar t
        then ok (record {
          slice_range = scalar_range t;
          contents = some (F.bit_cast c (S.primitive_bits t));
        })
        else unreachable

    -- The loop over the fields of the struct type `whole` with indices in [first, last); `i` is
    -- the index of the first of the given ones.
    pub view_fields : IrTypes → IrType → K → Range → ℕ → ℕ → ℕ → BitSlice K → Result (BitSlice K)
    view_fields nil whole c r first last i bits = ok bits
    view_fields (cons t ts) whole c r first last i bits =
        let offset = S.element_offset whole i * 8 in
        let needed = needed_bits (S.store_bits t) offset r in
        (if ltb i first || leb last i || empty needed
          then ok bits
          else add_part (sanitized t (view_case t (F.extract_value c i))) offset needed bits)
        >>= λ more. view_fields ts whole c r first last (suc i) more

  unfoldable pub view_as_bits : K → Range → Result (BitSlice K)
  view_as_bits c r = sanitized (F.type_of c) (view_case (F.type_of c) c) r

  unfoldable mutual
    -- The bit that a constant of the type has at a position of its place in memory, if it has
    -- one there: padding has none.
    pub memory_bit : IrType → K → ℕ → Option Bool
    memory_bit (pointer t) c p =
        let w = S.store_bits (pointer t) in
        if ltb p w
        then some (F.integers.bit (F.ptr_to_int c) (if big_endian then w - 1 - p else p))
        else none
    memory_bit (array t n) c p =
        let i = p / S.alloc_bits t in
        let bit = memory_bit t (F.extract_value c i) (p % S.alloc_bits t) in
        if ltb p (n * S.alloc_bits t) then bit else none
    memory_bit (vector t n) c p =
        let i = p / S.alloc_bits t in
        let bit = memory_bit t (F.extract_element c i) (p % S.alloc_bits t) in
        if ltb p (n * S.alloc_bits t) then bit else none
    memory_bit (struct packed ts) c p = field_bit ts (struct packed ts) c p 0
    memory_bit t c p =
        let pad = if big_endian then S.store_bits t - S.primitive_bits t else 0 in
        let w = S.primitive_bits t in
        if is_scalar t && leb pad p && ltb p (pad + w)
        then some
            (F.integers.bit (F.bit_cast c w) (if big_endian then S.store_bits t - 1 - p else p))
        else none

    -- The bit that the field at the position has.
    pub field_bit : IrTypes → IrType → K → ℕ → ℕ → Option Bool
    field_bit nil whole c p i = none
    field_bit (cons t ts) whole c p i =
        let offset = S.element_offset whole i * 8 in
        let bit = memory_bit t (F.extract_value c i) (p - offset) in
        let rest = field_bit ts whole c p (suc i) in
        if leb offset p && ltb p (offset + S.store_bits t) then bit else rest
