-- ===== src/Views/Rules.antt =====
-- What the theorems on `ViewAsBits` of src/ConstantConversion.cpp ask of LLVM: its documented sizes and places of
-- fields; and the constants and the types that have a view.
use dragonegg.Base.{
  ℕ, suc, ◌+◌, ◌*◌, ◌≤◌, ◌<◌, ◌≡◌, ◌↔◌, Bool, true, ◌&&◌, some, none, ltb, ◌==◌, get_elem?,
}
use dragonegg.Ir.{IrType, IrTypes, pointer, vector, array, struct, nil, cons, to_list}
use dragonegg.Views.{Sizes, Constants, is_scalar}

-- What LLVM documents of the sizes of types and of the places of the fields of a struct.
pub record SizeRules (S : Sizes) : Type 0 where
  pub store-le-alloc : (t : IrType) → S.store_bits t ≤ S.alloc_bits t
  pub primitive-le-store : (t : IrType) → S.primitive_bits t ≤ S.store_bits t
  pub array-store : (t : IrType) (n : ℕ) → S.store_bits (array t n) ≡ n * S.alloc_bits t
  pub field-inside :
      (p : Bool) (ts : IrTypes) (i : ℕ) (t : IrType)
      → get_elem? (to_list ts) i ≡ some t
      → S.element_offset (struct p ts) i * 8 + S.store_bits t ≤ S.store_bits (struct p ts)
  pub field-next :
      (p : Bool) (ts : IrTypes) (i : ℕ) (t u : IrType)
      → get_elem? (to_list ts) i ≡ some t
      → get_elem? (to_list ts) (suc i) ≡ some u
      → S.element_offset (struct p ts) i * 8 + S.store_bits t
        ≤ S.element_offset (struct p ts) (suc i) * 8
  -- the last field that starts at or before the byte
  pub containing-field :
      (p : Bool) (ts : IrTypes) (i b : ℕ) (t : IrType)
      → get_elem? (to_list ts) i ≡ some t
      → (i ≤ S.element_containing (struct p ts) b) ↔ (S.element_offset (struct p ts) i ≤ b)
  pub containing-last :
      (p : Bool) (ts : IrTypes) (i b : ℕ)
      → get_elem? (to_list ts) (suc i) ≡ none
      → S.element_containing (struct p ts) b ≤ i

module _ (S : Sizes) where
  -- The types that the switch has a case for, where the elements of a vector are stored with no
  -- padding between them.
  unfoldable mutual
    pub is_viewable : IrType → Bool
    is_viewable (pointer t) = true
    is_viewable (array t n) = is_viewable t
    is_viewable (vector t n) = is_viewable t && (S.store_bits (vector t n) == n * S.alloc_bits t)
    is_viewable (struct p ts) = are_viewable ts
    is_viewable t = is_scalar t && ltb 0 (S.primitive_bits t)

    pub are_viewable : IrTypes → Bool
    are_viewable nil = true
    are_viewable (cons t ts) = is_viewable t && are_viewable ts

-- The constant is one of the type: what it and its parts are cast to has the widths of the types.
unfoldable mutual
  pub HasType : {K : Type 0} → Sizes → Constants K → IrType → K → Type 0
  HasType S F (pointer t) c = F.integers.width (F.ptr_to_int c) ≡ S.store_bits (pointer t)
  HasType S F (array t n) c = (i : ℕ) → i < n → HasType S F t (F.extract_value c i)
  HasType S F (vector t n) c = (i : ℕ) → i < n → HasType S F t (F.extract_element c i)
  HasType S F (struct p ts) c = FieldsHaveTypes S F ts c 0
  HasType S F t c = F.integers.width (F.bit_cast c (S.primitive_bits t)) ≡ S.primitive_bits t

  pub FieldsHaveTypes : {K : Type 0} → Sizes → Constants K → IrTypes → K → ℕ → Type 0
  FieldsHaveTypes S F nil c i = Unit
  FieldsHaveTypes S F (cons t ts) c i =
      HasType S F t (F.extract_value c i) × FieldsHaveTypes S F ts c (suc i)
