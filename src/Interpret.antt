-- ===== src/Interpret.antt =====
-- `InterpretAsType` of src/ConstantConversion.cpp: the bits of a constant, from a bit on, as a constant
-- of another type. What LLVM makes constants of other types with is the parameter `Makers`.
pub mod Bit
pub mod Parts
pub mod Scalars
pub mod Sound
pub mod Types
use dragonegg.Base.{
  ℕ, zero, suc, ◌+◌, ◌-◌, ◌*◌, ◌≡◌, Bool, true, false, ◌&&◌, Option, none, some, List, [], ◌∷◌,
  ◌==◌, if◌then◌else◌,
}
use dragonegg.Base.Int.{ℤ, pos, ◌+ℤ◌, neg_ℤ}
use dragonegg.Base.Results.{Result, ok, unreachable, ◌>>=◌}
use dragonegg.Ir.{
  IrType, IrTypes, void, opaque, float, double, x86_fp80, fp128, ppc_fp128, x86_mmx, int, pointer,
  vector, array, struct, nil, cons,
}
use dragonegg.Range.{range}
use dragonegg.Bits.{get_bits, displace_slice}
use dragonegg.Views.{Sizes, Constants, view_as_bits, scalar_range}

-- Equality of types, which LLVM compares by their addresses as it makes every type once.
unfoldable mutual
  pub same_type : IrType → IrType → Bool
  same_type void void = true
  same_type float float = true
  same_type double double = true
  same_type x86_fp80 x86_fp80 = true
  same_type fp128 fp128 = true
  same_type ppc_fp128 ppc_fp128 = true
  same_type x86_mmx x86_mmx = true
  same_type opaque opaque = true
  same_type (int v) (int w) = v == w
  same_type (pointer t) (pointer u) = same_type t u
  same_type (vector t m) (vector u n) = same_type t u && (m == n)
  same_type (array t m) (array u n) = same_type t u && (m == n)
  same_type (struct p ts) (struct q us) =
      (if p then q else if q then false else true) && same_types ts us
  same_type t u = false

  pub same_types : IrTypes → IrTypes → Bool
  same_types nil nil = true
  same_types (cons t ts) (cons u us) = same_type t u && same_types ts us
  same_types ts us = false

-- The constants that are made, and the two tests for a constant that needs no bits.
pub record Makers (K : Type 0) : Type 0 where
  pub is_undef : K → Bool
  pub is_null : K → Bool
  pub undef_value : IrType → K
  pub null_value : IrType → K
  -- `CreateIntToPtr`, and `CreateBitCast` from an integer type
  pub int_to_ptr : K → IrType → K
  pub from_integer : K → IrType → K
  pub array_of : IrType → List K → K
  pub struct_of : IrType → List K → K
  pub vector_of : IrType → List K → K

-- The constant that `getBits` returns; it returns null only for an empty range.
abbrev pub not_null : {K : Type 0} → Option K → Result K
not_null none = unreachable
not_null (some c) = ok c

-- The results in order, if there are all of them.
abbrev pub followed_by : {K : Type 0} → Result K → Result (List K) → Result (List K)
followed_by c cs = c >>= λ x. cs >>= λ xs. ok (x ∷ xs)

module _ {K : Type 0} (S : Sizes) (F : Constants K) (G : Makers K) (big_endian : Bool) (c : K) where
  -- The cases before the switch.
  unfoldable pub quickly : IrType → (ℤ → Result K) → ℤ → Result K
  quickly t by_type starting_bit =
      if same_type (F.type_of c) t
      then ok c
      else if G.is_undef c
      then ok (G.undef_value t)
      else if G.is_null c
      then ok (G.null_value t)
      else by_type starting_bit

  -- The case of integers.
  unfoldable pub interpret_integer : IrType → ℤ → Result K
  interpret_integer t starting_bit =
      view_as_bits S F big_endian c (range starting_bit (starting_bit +ℤ pos (S.store_bits t)))
      >>= λ bits.
          get_bits F.integers big_endian
            (displace_slice F.integers big_endian bits (neg_ℤ starting_bit))
            (scalar_range S F big_endian t)
          >>= not_null

  -- The elements of an array or a vector, `count` of them from index `i` on.
  unfoldable pub interpret_elements : (ℤ → Result K) → ℕ → ℤ → ℕ → ℕ → Result (List K)
  interpret_elements element stride starting_bit zero i = ok []
  interpret_elements element stride starting_bit (suc count) i =
      followed_by (element (starting_bit +ℤ pos (i * stride)))
        (interpret_elements element stride starting_bit count (suc i))

  unfoldable mutual
    -- The switch on the type.
    pub interpret_case : IrType → ℤ → Result K
    interpret_case (int w) b = interpret_integer (int w) b
    interpret_case (pointer t) b =
        quickly (int (S.store_bits (pointer t)))
          (interpret_integer (int (S.store_bits (pointer t)))) b
        >>= λ bits. ok (G.int_to_ptr bits (pointer t))
    interpret_case (array t n) b =
        interpret_elements (quickly t (interpret_case t)) (S.alloc_bits t) b n 0 >>= λ vals.
        ok (G.array_of (array t n) vals)
    interpret_case (struct packed ts) b = interpret_fields ts (struct packed ts) b 0 >>= λ vals.
        ok (G.struct_of (struct packed ts) vals)
    interpret_case (vector t n) b =
        interpret_elements (quickly t (interpret_case t)) (S.alloc_bits t) b n 0 >>= λ vals.
        ok (G.vector_of (vector t n) vals)
    interpret_case void b = unreachable
    interpret_case opaque b = unreachable
    interpret_case t b =
        quickly (int (S.primitive_bits t)) (interpret_integer (int (S.primitive_bits t))) b
        >>= λ bits. ok (G.from_integer bits t)

    -- The fields of the struct type `whole`; `i` is the index of the first of the given ones.
    pub interpret_fields : IrTypes → IrType → ℤ → ℕ → Result (List K)
    interpret_fields nil whole b i = ok []
    interpret_fields (cons t ts) whole b i =
        followed_by (quickly t (interpret_case t) (b +ℤ pos (S.element_offset whole i * 8)))
          (interpret_fields ts whole b (suc i))

  unfoldable pub interpret_as_type : IrType → ℤ → Result K
  interpret_as_type t starting_bit = quickly t (interpret_case t) starting_bit
