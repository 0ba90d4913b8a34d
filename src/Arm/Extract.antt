-- ===== src/Arm/Extract.antt =====
-- `llvm_arm_extract_multiple_return_value` of src/arm/Target.cpp. Its helper for array elements
-- does what that of src/x86/Target.cpp does, so the stores are those of X86/Extract.antt; of a vector
-- of four floats all elements are taken here, and there is no case for a struct or for three floats.
use dragonegg.Base.{ℕ, suc, ◌+◌, List, [], ◌∷◌, ◌++◌, none, ltb, if◌then◌else◌}
use dragonegg.Base.Results.{Result, ok, unreachable, ◌>>=◌}
use dragonegg.Ir.{IrType, array, vector, is_single_value}
use dragonegg.X86.Extract.{Store, store, Progress, extract_elements, drop_one}

-- The elements that a source gives to an array.
unfoldable pub element_count : IrType → ℕ
element_count (vector t n) = n
element_count t = 1

-- `while (DElemNo < ArraySize)`, over the sources that are left. A source that is larger than what is
-- left of the array, which would be stored to what stands behind it, is unreachable here.
unfoldable pub fill_elements : ℕ → ℕ → ℕ → ℕ → List IrType → Result Progress
unfolding element_count
fill_elements size delem dno sno [] =
    if ltb delem size then unreachable else ok (record { stores = []; sno = sno; sources = [] })
fill_elements size delem dno sno (t ∷ ts) =
    let rest = fill_elements size (delem + element_count t) dno (suc sno) ts in
    if ltb delem size
    then (if ltb size (delem + element_count t)
        then unreachable
        else (rest >>= λ p. ok (record p {
          stores = extract_elements t (element_count t) 0 sno dno delem ++ p.stores;
        })))
    else ok (record { stores = []; sno = sno; sources = t ∷ ts })

abbrev fill_field : IrType → ℕ → ℕ → List IrType → Result Progress
fill_field (array t n) dno sno ts = fill_elements n 0 dno sno ts
fill_field t dno sno ts = unreachable

-- One destination field: a first class value takes a source, an array as many as fill it.
unfoldable pub extract_member : IrType → ℕ → ℕ → List IrType → Result Progress
extract_member d dno sno ts =
    if is_single_value d
    then ok (record { stores = store sno none dno none ∷ []; sno = suc sno; sources = drop_one ts })
    else fill_field d dno sno ts

-- `while (SNO < NumElements)`, over the destination fields from `dno` on.
unfoldable pub extract_members : List IrType → ℕ → ℕ → List IrType → Result (List Store)
unfolding extract_member
extract_members ds dno sno [] = ok []
extract_members [] dno sno (t ∷ ts) = unreachable
extract_members (d ∷ ds) dno sno (t ∷ ts) = extract_member d dno sno (t ∷ ts) >>= λ p.
    extract_members ds (suc dno) p.sno p.sources >>= λ rest. ok (p.stores ++ rest)

unfoldable pub extract_returned_value : List IrType → List IrType → Result (List Store)
unfolding extract_members
extract_returned_value srcs dests = extract_members dests 0 0 srcs
