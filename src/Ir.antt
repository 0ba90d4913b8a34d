-- ===== src/Ir.antt =====
-- The values of LLVM's `Type` that the plugin builds and inspects, with the discriminating
-- predicates that it calls on them. Widths, alignments and sizes that depend on the target's
-- data layout are parameters of the definitions that ask for them.
use dragonegg.Base.{ℕ, Bool, true, false, List, [], ◌∷◌, ◌==◌}

mutual
  pub data IrType : Type 0 where
    void float double x86_fp80 fp128 ppc_fp128 x86_mmx opaque : IrType
    int : ℕ → IrType
    pointer : IrType → IrType
    vector : IrType → ℕ → IrType
    array : IrType → ℕ → IrType
    struct : Bool → IrTypes → IrType

  pub data IrTypes : Type 0 where
    nil : IrTypes
    cons : IrType → IrTypes → IrTypes

abbrev pub to_list : IrTypes → List IrType
to_list nil = []
to_list (cons t ts) = t ∷ to_list ts

abbrev pub of_list : List IrType → IrTypes
of_list [] = nil
of_list (t ∷ ts) = cons t (of_list ts)

-- `StructType::get(Context, Elts, packed)`.
abbrev pub struct_of : Bool → List IrType → IrType
struct_of packed ts = struct packed (of_list ts)

abbrev pub is_void : IrType → Bool
is_void void = true
is_void t = false

abbrev pub is_vector : IrType → Bool
is_vector (vector t n) = true
is_vector t = false

abbrev pub is_pointer : IrType → Bool
is_pointer (pointer t) = true
is_pointer t = false

abbrev pub is_integer : IrType → Bool
is_integer (int w) = true
is_integer t = false

-- `isIntegerTy(w)`, and equality with `IntegerType::get(Context, w)`.
abbrev pub is_int_of : ℕ → IrType → Bool
is_int_of w (int v) = v == w
is_int_of w t = false

abbrev pub is_float : IrType → Bool
is_float float = true
is_float t = false

abbrev pub is_double : IrType → Bool
is_double double = true
is_double t = false

abbrev pub is_floating_point : IrType → Bool
is_floating_point float = true
is_floating_point double = true
is_floating_point x86_fp80 = true
is_floating_point fp128 = true
is_floating_point ppc_fp128 = true
is_floating_point t = false

abbrev pub is_struct : IrType → Bool
is_struct (struct packed ts) = true
is_struct t = false

abbrev pub is_array : IrType → Bool
is_array (array t n) = true
is_array t = false

abbrev pub is_int_or_int_vector : IrType → Bool
is_int_or_int_vector (int w) = true
is_int_or_int_vector (vector (int w) n) = true
is_int_or_int_vector t = false

-- A type whose values can be held in a register.
abbrev pub is_single_value : IrType → Bool
is_single_value (int w) = true
is_single_value (pointer t) = true
is_single_value (vector t n) = true
is_single_value x86_mmx = true
is_single_value t = is_floating_point t

-- The contained types, as `subtype_begin` and `subtype_end` range over them.
abbrev pub subtypes : IrType → List IrType
subtypes (struct packed ts) = to_list ts
subtypes (array t n) = t ∷ []
subtypes (vector t n) = t ∷ []
subtypes (pointer t) = t ∷ []
subtypes t = []
