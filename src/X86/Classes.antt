-- ===== src/X86/Classes.antt =====
-- What the register classes of a type decide in src/x86/Target.cpp: argument passing and returning
-- agree, and the registers counted are those of the classes.
use dragonegg.Base.{
  ℕ, ◌≡◌, ◌≢◌, refl, arith, Bool, true, false, ◌&&◌, List, [], ◌∷◌, Option, some, none,
}
use dragonegg.Base.Int.{ℤ}
use dragonegg.Base.Results.{Result, ok, unreachable, ◌>>=◌, Result-ok}
use dragonegg.Ir.{IrType, is_struct}
use dragonegg.X86.{
  RegClass, no_class, integer, integer_si, sse, sse_sf, sse_df, sse_up, x87, x87_up, complex_x87,
  Flags, Facts, mixed_loop, sse_pair,
}
use dragonegg.X86.Arguments.{mixed_by_classes, should_pass_as_fca, should_pass_64_in_mixed_regs}
use dragonegg.X86.Returns.{
  return_by_classes, return_loop, return_pair, get_multiple_return_reg_classes, suitable_classes,
  suitable_multiple_ret_value_type, scalar_by_classes, scalar_type_for_struct_return,
}

-- A class that is neither padding nor on the x87 stack.
unfoldable pub is_plain : RegClass → Bool
is_plain no_class = false
is_plain x87 = false
is_plain x87_up = false
is_plain complex_x87 = false
is_plain c = true

unfoldable pub all_plain : List RegClass → Bool
unfolding is_plain
all_plain [] = true
all_plain (c ∷ cs) = is_plain c && all_plain cs

pair-eq :
    (ty : IrType) (b : ℤ) (c : RegClass) → is_plain c ≡ true → sse_pair ty b c ≡ return_pair ty b c
unfolding sse_pair return_pair is_plain
pair-eq ty b no_class h = cc
pair-eq ty b x87 h = cc
pair-eq ty b c h = refl

loops-eq :
    (ty : IrType) (cs : List RegClass) (b : ℤ) (elts : List IrType)
    → all_plain cs ≡ true
    → mixed_loop ty b cs elts false ≡ (return_loop ty b cs elts >>= λ ts. ok (true, ts))
unfolding mixed_loop return_loop all_plain
loops-eq ty [] b elts h = refl
loops-eq ty (integer ∷ cs) b elts h = loops-eq ty cs _ _ h
loops-eq ty (integer_si ∷ cs) b elts h = loops-eq ty cs _ _ h
loops-eq ty (sse ∷ []) b elts h = ground arith
loops-eq ty (sse ∷ c ∷ []) b elts h = ground (arith, pair-eq ty b c)
loops-eq ty (sse ∷ c ∷ d ∷ cs) b elts h = refl
loops-eq ty (sse_sf ∷ cs) b elts h = loops-eq ty cs _ _ h
loops-eq ty (sse_df ∷ cs) b elts h = loops-eq ty cs _ _ h
loops-eq ty (sse_up ∷ cs) b elts h = refl
loops-eq ty (x87 ∷ cs) b elts h = cc
loops-eq ty (x87_up ∷ cs) b elts h = cc
loops-eq ty (complex_x87 ∷ cs) b elts h = cc
loops-eq ty (no_class ∷ cs) b elts h = cc

loops-eq_first :
    (ty : IrType) (b : ℤ) (c : RegClass) (cs : List RegClass)
    → all_plain (c ∷ cs) ≡ true
    → mixed_loop ty b (c ∷ cs) [] true ≡ (return_loop ty b (c ∷ cs) [] >>= λ ts. ok (true, ts))
unfolding mixed_loop return_loop all_plain
loops-eq_first ty b integer cs h = loops-eq ty cs _ _ h
loops-eq_first ty b integer_si cs h = loops-eq ty cs _ _ h
loops-eq_first ty b sse [] h = loops-eq ty (sse ∷ []) b [] h
loops-eq_first ty b sse (c ∷ []) h = loops-eq ty (sse ∷ c ∷ []) b [] h
loops-eq_first ty b sse (c ∷ d ∷ cs) h = refl
loops-eq_first ty b sse_sf cs h = loops-eq ty cs _ _ h
loops-eq_first ty b sse_df cs h = loops-eq ty cs _ _ h
loops-eq_first ty b sse_up cs h = refl
loops-eq_first ty b x87 cs h = cc
loops-eq_first ty b x87_up cs h = cc
loops-eq_first ty b complex_x87 cs h = cc
loops-eq_first ty b no_class cs h = cc

by_classes-eq :
    (ty : IrType) (b : ℤ) (cs : List RegClass) (elts : List IrType)
    → all_plain cs ≡ true
    → return_by_classes ty b cs ≡ ok elts
    → mixed_by_classes ty b cs ≡ ok (true, elts)
unfolding return_by_classes mixed_by_classes
by_classes-eq ty b [] elts h e = cc
by_classes-eq ty b (integer ∷ []) elts h e = cc
by_classes-eq ty b (integer_si ∷ []) elts h e = cc
by_classes-eq ty b (no_class ∷ []) elts h e = unfold all_plain in cc
by_classes-eq ty b (c ∷ cs) elts h e = rw (loops-eq_first ty b c cs h) (ground (arith, e))

-- For a type that is not passed as a first class aggregate, with neither padding nor x87 classes,
-- the registers that return it are the registers that pass it.
pub mixed_regs-multiple_return :
    (f : Flags) (t : Facts) (elts : List IrType)
    → should_pass_as_fca f t ≡ false
    → all_plain t.classes ≡ true
    → get_multiple_return_reg_classes t ≡ ok elts
    → should_pass_64_in_mixed_regs f t ≡ ok (true, elts)
unfolding should_pass_64_in_mixed_regs get_multiple_return_reg_classes
mixed_regs-multiple_return f t elts h k e = rw h (by_classes-eq t.ir t.bytes t.classes elts k e)

-- A class that the ABI can put beside a word of padding.
unfoldable pub is_beside_padding : RegClass → Bool
is_beside_padding x87 = false
is_beside_padding x87_up = false
is_beside_padding complex_x87 = false
is_beside_padding sse_up = false
is_beside_padding c = true

unfoldable pub all_beside_padding : List RegClass → Bool
unfolding is_beside_padding
all_beside_padding [] = true
all_beside_padding (c ∷ cs) = is_beside_padding c && all_beside_padding cs

scalar_by_classes-ne :
    (b : ℤ) (cs : List RegClass)
    → suitable_classes cs ≡ false
    → all_beside_padding cs ≡ true
    → scalar_by_classes b cs ≢ unreachable
unfolding suitable_classes scalar_by_classes all_beside_padding
scalar_by_classes-ne b [] h k = ground arith
scalar_by_classes-ne b (c ∷ []) h k = ground arith
scalar_by_classes-ne b (c ∷ d ∷ []) h k = ground arith
scalar_by_classes-ne b (c ∷ d ∷ e ∷ cs) h k = ground arith

unsuitable_classes :
    (f : Flags) (t : Facts)
    → f.target_64bit ≡ true
    → is_struct t.ir ≡ true
    → suitable_multiple_ret_value_type f t ≡ false
    → suitable_classes t.classes ≡ false
unfolding suitable_multiple_ret_value_type
unsuitable_classes f t h k s = ground arith

-- With the classes that `llvm_suitable_multiple_ret_value_type` turns away, a struct for a 64 bit
-- target always gets a scalar type, unless a word of padding stands beside an x87 or SSEUP class.
pub scalar_type-Returns :
    (f : Flags) (t : Facts)
    → f.target_64bit ≡ true
    → is_struct t.ir ≡ true
    → suitable_multiple_ret_value_type f t ≡ false
    → all_beside_padding t.classes ≡ true
    → (r : IrType × ℕ) × (scalar_type_for_struct_return f t ≡ ok (some r))
scalar_type-Returns f t h k s a =
    let (r, e) =
      Result-ok (scalar_by_classes t.bytes t.classes)
        (scalar_by_classes-ne t.bytes t.classes (unsuitable_classes f t h k s) a) in
    found (scalar_type_for_struct_return f t)
      (unfold scalar_type_for_struct_return in ground (arith, e))
      (unfold scalar_type_for_struct_return in ground (arith, e))
  where
    found :
        (o : Result (Option (IrType × ℕ)))
        → o ≢ unreachable
        → o ≢ ok none
        → (r : IrType × ℕ) × (o ≡ ok (some r))
    found (ok (some r)) p q = (r, refl)
    found (ok none) p q = absurd (q refl)
    found unreachable p q = absurd (p refl)
