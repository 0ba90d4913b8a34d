-- ===== src/Globals.antt =====
-- The module-wide lists of src/Backend.cpp: globals with a `used` attribute, static constructors and
-- destructors, and the strings of metadata. Globals are numbered; `DenseMap` and `SmallSetVector`
-- are lists.
pub mod Replace
pub mod Strings
use dragonegg.Base.{
  ℕ, zero, suc, ◌+◌, Bool, true, false, not, Option, none, some, List, [], ◌∷◌, ◌++◌, map, ◌==◌,
  if◌then◌else◌,
}
use dragonegg.Base.Int.{ℤ}

pub record ModuleLists : Type 0 where
  pub used_globals : List ℕ
  pub compiler_used_globals : List ℕ
  pub static_ctors : List (ℕ × ℤ)
  pub static_dtors : List (ℕ × ℤ)

-- `count` of a set.
unfoldable pub has_global : ℕ → List ℕ → Bool
has_global x [] = false
has_global x (y ∷ ys) = let rest = has_global x ys in if x == y then true else rest

unfoldable pub remove_global : ℕ → List ℕ → List ℕ
remove_global x [] = []
remove_global x (y ∷ ys) = let rest = remove_global x ys in if x == y then rest else y ∷ rest

-- `insert` adds at the end, unless the element is there.
unfoldable pub insert_global : ℕ → List ℕ → List ℕ
insert_global x ys = if has_global x ys then ys else ys ++ x ∷ []

-- `register_ctor_dtor`.
unfoldable pub register_ctor_dtor : ℕ → ℤ → Bool → ModuleLists → ModuleLists
register_ctor_dtor fn priority is_ctor s =
    if is_ctor
    then record s { static_ctors = s.static_ctors ++ (fn, priority) ∷ [] }
    else record s { static_dtors = s.static_dtors ++ (fn, priority) ∷ [] }

-- One set in `changeLLVMConstant`, and one list of functions.
unfoldable pub replace_global : ℕ → ℕ → List ℕ → List ℕ
replace_global old new xs =
    if has_global old xs then insert_global new (remove_global old xs) else xs

unfoldable pub replace_function : ℕ → ℕ → List (ℕ × ℤ) → List (ℕ × ℤ)
replace_function old new [] = []
replace_function old new ((f, priority) ∷ fs) =
    (if f == old then new else f, priority) ∷ replace_function old new fs

-- `changeLLVMConstant`. That the old global has no uses left is asserted of LLVM's value, not here.
unfoldable pub change_constant : ℕ → ℕ → ModuleLists → ModuleLists
change_constant old new s = record {
  used_globals = replace_global old new s.used_globals;
  compiler_used_globals = replace_global old new s.compiler_used_globals;
  static_ctors = replace_function old new s.static_ctors;
  static_dtors = replace_function old new s.static_dtors;
}

-- The cache of `ConvertMetadataStringToGV`: the globals made for the strings, which are numbered by
-- the constants that LLVM makes of them, and the number of the next global.
pub record StringCache : Type 0 where
  pub cached : List (ℕ × ℕ)
  pub next_global : ℕ

unfoldable pub find_string : ℕ → List (ℕ × ℕ) → Option ℕ
find_string init [] = none
find_string init ((i, g) ∷ es) =
    let rest = find_string init es in if init == i then some g else rest

-- `ConvertMetadataStringToGV`.
unfoldable pub metadata_string : ℕ → StringCache → ℕ × StringCache
metadata_string init s = elim (find_string init s.cached) [
  | some g ↦ (g, s)
  | none ↦ (
    s.next_global,
    record { cached = (init, s.next_global) ∷ s.cached; next_global = suc s.next_global },
  )
]

-- The calls for a list of strings, one after another.
unfoldable pub metadata_strings : List ℕ → StringCache → List ℕ × StringCache
metadata_strings [] s = ([], s)
metadata_strings (i ∷ is) s =
    let (g, s') = metadata_string i s in let (gs, s'') = metadata_strings is s' in (g ∷ gs, s'')
