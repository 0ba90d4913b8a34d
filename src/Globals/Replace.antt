-- ===== src/Globals/Replace.antt =====
-- `changeLLVMConstant` of src/Backend.cpp: one global takes the place of another.
use dragonegg.Base.{
  ℕ, ◌≡◌, refl, ap, arith, true, false, ◌||◌, List, [], ◌∷◌, ◌++◌, map, ◌==◌, if◌then◌else◌,
}
use dragonegg.Base.Int.{ℤ}
use dragonegg.Globals.{
  ModuleLists, has_global, remove_global, insert_global, replace_global, replace_function,
  change_constant,
}

has_global-remove :
    (x y : ℕ) (xs : List ℕ)
    → has_global x (remove_global y xs) ≡ (if x == y then false else has_global x xs)
unfolding has_global remove_global
has_global-remove x y [] = ground arith
has_global-remove x y (z ∷ zs) = ground (arith, has_global-remove x y zs)

has_global-append :
    (x y : ℕ) (xs : List ℕ)
    → has_global x (xs ++ y ∷ []) ≡ (if x == y then true else has_global x xs)
unfolding has_global
has_global-append x y [] = ground arith
has_global-append x y (z ∷ zs) = ground (arith, has_global-append x y zs)

has_global-same : (x y : ℕ) (xs : List ℕ) → (x == y) ≡ true → has_global x xs ≡ has_global y xs
has_global-same x y xs h = ap (λ (z : ℕ). has_global z xs) (ground arith)

has_global-insert :
    (x y : ℕ) (xs : List ℕ)
    → has_global x (insert_global y xs) ≡ (if x == y then true else has_global x xs)
unfolding insert_global
has_global-insert x y xs =
    ground (arith, has_global-append x y xs, λ (h : (x == y) ≡ true). has_global-same x y xs h)

-- In a set, the new global stands for itself and the old one, which is gone.
abbrev pub Takes : ℕ → ℕ → List ℕ → List ℕ → Type 0
Takes old new before after =
    (x : ℕ)
    → has_global x after ≡ (
        if x == old
        then false
        else if x == new
        then has_global new before || has_global old before
        else has_global x before)

replace_global-Takes :
    (old new : ℕ) (xs : List ℕ)
    → (old == new) ≡ false
    → Takes old new xs (replace_global old new xs)
unfolding replace_global
replace_global-Takes old new xs h x = ground (
  arith,
  h,
  has_global-insert x new (remove_global old xs),
  has_global-remove x old xs,
  λ (e : (x == old) ≡ true). has_global-same x old xs e,
  λ (e : (x == new) ≡ true). has_global-same x new xs e,
)

-- The functions that run with a priority, in order.
replace_function-map :
    (old new : ℕ) (fs : List (ℕ × ℤ))
    → replace_function old new fs ≡ map (λ (f : ℕ × ℤ). (if f.0 == old then new else f.0, f.1)) fs
unfolding replace_function
replace_function-map old new [] = refl
replace_function-map old new ((f, p) ∷ fs) =
    ap (λ (z : List (ℕ × ℤ)). (if f == old then new else f, p) ∷ z)
      (replace_function-map old new fs)

-- Replacing a global that is not the new one: from both sets the old one is gone, with the new one
-- there if either was, and all others as before; among the constructors and destructors the new
-- one has every place of the old, with its priority, and nothing else moves.
pub change_constant-Takes :
    (old new : ℕ) (s : ModuleLists)
    → (old == new) ≡ false
    → Takes old new s.used_globals (change_constant old new s).used_globals
      × Takes old new s.compiler_used_globals (change_constant old new s).compiler_used_globals
      × ((change_constant old new s).static_ctors
          ≡ map (λ (f : ℕ × ℤ). (if f.0 == old then new else f.0, f.1)) s.static_ctors)
      × ((change_constant old new s).static_dtors
          ≡ map (λ (f : ℕ × ℤ). (if f.0 == old then new else f.0, f.1)) s.static_dtors)
unfolding change_constant
change_constant-Takes old new s h = (
  replace_global-Takes old new s.used_globals h,
  replace_global-Takes old new s.compiler_used_globals h,
  replace_function-map old new s.static_ctors,
  replace_function-map old new s.static_dtors,
)
