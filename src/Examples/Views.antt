-- ===== src/Examples/Views.antt =====
-- Constants of all types for `ViewAsBits` and `InterpretAsType` of src/ConstantConversion.cpp, on a
-- little-endian machine whose structs have no padding.
use dragonegg.Base.{
  ℕ, zero, suc, ◌+◌, ◌-◌, ◌*◌, ◌/◌, ◌%◌, ◌≡◌, refl, arith, Bool, true, false, ◌||◌, some, ltb, leb,
  ◌==◌, if◌then◌else◌, List, get_or, [], ◌∷◌,
}
use dragonegg.Ir.{
  IrType, IrTypes, void, float, double, x86_fp80, fp128, ppc_fp128, x86_mmx, int, pointer, vector,
  array, struct, nil, cons,
}
use dragonegg.Bits.{Folder}
use dragonegg.Views.{Sizes, Constants, memory_bit, field_bit}
use dragonegg.Interpret.{Makers}

abbrev mutual
  pub bytes : IrType → ℕ
  bytes (int w) = (w + 7) / 8
  bytes float = 4
  bytes double = 8
  bytes x86_fp80 = 10
  bytes fp128 = 16
  bytes ppc_fp128 = 16
  bytes x86_mmx = 8
  bytes (pointer t) = 8
  bytes (array t n) = n * bytes t
  bytes (vector t n) = n * bytes t
  bytes (struct p ts) = total ts
  bytes t = 0

  pub total : IrTypes → ℕ
  total nil = 0
  total (cons t ts) = bytes t + total ts

abbrev pub primitive : IrType → ℕ
primitive (int w) = w
primitive float = 32
primitive double = 64
primitive x86_fp80 = 80
primitive fp128 = 128
primitive ppc_fp128 = 128
primitive x86_mmx = 64
primitive t = 0

abbrev pub offset : IrTypes → ℕ → ℕ
offset ts zero = 0
offset nil (suc i) = 0
offset (cons t ts) (suc i) = bytes t + offset ts i

abbrev pub containing : IrTypes → ℕ → ℕ
containing nil b = 0
containing (cons t nil) b = 0
containing (cons t (cons u us)) b =
    let rest = containing (cons u us) (b - bytes t) in if leb (bytes t) b then suc rest else 0

abbrev pub fields : IrType → IrTypes
fields (struct p ts) = ts
fields t = nil

abbrev pub byte_sizes : Sizes
byte_sizes = record {
  store_bits = λ (t : IrType). bytes t * 8;
  alloc_bits = λ (t : IrType). bytes t * 8;
  primitive_bits = primitive;
  element_offset = λ (t : IrType) (i : ℕ). offset (fields t) i;
  element_containing = λ (t : IrType) (b : ℕ). containing (fields t) b;
}

pub data Value : Type 0 where
  number : ℕ → (ℕ → Bool) → Value
  zeros : IrType → Value
  cast : IrType → Value → Value
  node : IrType → (ℕ → Value) → Value

abbrev pub zeros_width : IrType → ℕ
zeros_width (int w) = w
zeros_width t = 0

abbrev pub value_width : Value → ℕ
value_width (number w f) = w
value_width (zeros t) = zeros_width t
value_width v = 0

abbrev pub value_bit : Value → ℕ → Bool
value_bit (number w f) i = f i
value_bit v i = false

abbrev pub integer_of : Value → ℕ → Value
integer_of (number v f) w = number v f
integer_of (zeros t) w = zeros (int w)
integer_of (cast t v) w = v
integer_of (node t f) w = zeros (int w)

abbrev pub value_type : Value → IrType
value_type (number w f) = int w
value_type (zeros t) = t
value_type (cast t v) = t
value_type (node t f) = t

abbrev pub part_of : Value → ℕ → Value
part_of (node t f) i = f i
part_of (zeros t) i = zeros t
part_of v i = v

abbrev pub is_zeros : Value → Bool
is_zeros (zeros t) = true
is_zeros v = false

abbrev pub value_folder : Folder Value
value_folder = record {
  width = value_width;
  bit = value_bit;
  null_value = λ (w : ℕ). number w (λ i. false);
  undef_value = λ (w : ℕ). number w (λ i. true);
  create_zext =
      λ (c : Value) (w : ℕ). number w (λ i. if ltb i (value_width c) then value_bit c i else false);
  create_trunc = λ (c : Value) (w : ℕ). number w (value_bit c);
  create_shl = λ (c : Value) (n : ℕ).
      number (value_width c) (λ i. if ltb i n then false else value_bit c (i - n));
  create_lshr = λ (c : Value) (n : ℕ). number (value_width c) (λ i. value_bit c (i + n));
  create_or = λ (c d : Value). number (value_width c) (λ i. value_bit c i || value_bit d i);
  width-null_value = λ w. refl;
  width-undef_value = λ w. refl;
  width-zext = λ c w h. refl;
  width-trunc = λ c w h. refl;
  width-shl = λ c n. refl;
  width-lshr = λ c n. refl;
  width-or = λ c d h. refl;
  bit-null_value = λ w i. refl;
  bit-zext = λ c w i h. refl;
  bit-trunc = λ c w i h k. refl;
  bit-shl = λ c n i h k. refl;
  bit-lshr = λ c n i h k. refl;
  bit-or = λ c d i h. refl;
}

abbrev pub values : Constants Value
values = record {
  integers = value_folder;
  type_of = value_type;
  ptr_to_int = λ (c : Value). integer_of c 64;
  bit_cast = integer_of;
  extract_value = part_of;
  extract_element = part_of;
}

abbrev pub value_list : IrType → List Value → Value
value_list t ks = node t (λ i. get_or ks i (zeros void))

abbrev pub value_makers : Makers Value
value_makers = record {
  is_undef = λ (c : Value). false;
  is_null = is_zeros;
  undef_value = zeros;
  null_value = zeros;
  int_to_ptr = λ (k : Value) (t : IrType). cast t k;
  from_integer = λ (k : Value) (t : IrType). cast t k;
  array_of = value_list;
  struct_of = value_list;
  vector_of = value_list;
}

mutual
  unfolding memory_bit

  memory_bit-zeros :
      (t u : IrType) (p : ℕ) (x : Bool)
      → memory_bit byte_sizes values false t (zeros u) p ≡ some x
      → x ≡ false
  memory_bit-zeros (array t n) u p x h =
      let q = p % (bytes t * 8) in let first = memory_bit-zeros t u q x in ground (arith, first)
  memory_bit-zeros (vector t n) u p x h =
      let q = p % (bytes t * 8) in let first = memory_bit-zeros t u q x in ground (arith, first)
  memory_bit-zeros (struct q ts) u p x h = field_bit-zeros ts (struct q ts) u p x 0 h
  memory_bit-zeros t u p x h = ground arith

  field_bit-zeros :
      (ts : IrTypes) (whole u : IrType) (p : ℕ) (x : Bool) (i : ℕ)
      → field_bit byte_sizes values false ts whole (zeros u) p i ≡ some x
      → x ≡ false
  field_bit-zeros nil whole u p x i h = absurd cc
  field_bit-zeros (cons t ts) whole u p x i h =
      let first = memory_bit-zeros t u (p - offset (fields whole) i * 8) x in
      let rest = field_bit-zeros ts whole u p x (suc i) in ground (arith, first, rest)

-- A struct of a byte with bit 3 set and of two 16-bit numbers, all ones and all zeros.
abbrev pair_type : IrType
pair_type = struct true (cons (int 8) (cons (array (int 16) 2) nil))

abbrev pair : Value
pair =
    value_list pair_type
      (number 8 (λ i. i == 3) ∷ node (array (int 16) 2) (λ i. number 16 (λ j. i == 0)) ∷ [])

-- Reading an array of one 12-bit number from bit 4 of it.
abbrev odd_array : IrType
odd_array = array (int 12) 1
