-- ===== src/Arm/Words.antt =====
-- `llvm_arm_try_pass_aggregate_custom` of src/arm/Target.cpp: how many words it passes, and where
-- they stand.
use mathlib.Core.List.{append-nil}
use dragonegg.Base.{
  ℕ, ◌+◌, ◌≡◌, refl, arith, Bool, true, false, List, [], ◌∷◌, ◌++◌, none, if◌then◌else◌,
}
use dragonegg.Base.Results.{ok, ◌>>=◌}
use dragonegg.Ir.{IrType, int, pointer}
use dragonegg.Client.Log.{elts_of}
use dragonegg.Client.{Event, State, enter, exit, scalar}
use dragonegg.Arm.{count_num_words}

pub count-append :
    (xs ys : List IrType)
    → count_num_words (xs ++ ys)
      ≡ (count_num_words xs >>= λ n. count_num_words ys >>= λ m. ok (n + m))
unfolding count_num_words
count-append [] ys = ground arith
count-append (pointer t ∷ xs) ys = ground (arith, count-append xs ys)
count-append (int w ∷ xs) ys = ground (arith, count-append xs ys)
count-append (t ∷ xs) ys = refl

abbrev pub padding : Bool → List IrType
padding pad = if pad then int 32 ∷ [] else []

padding-count :
    (xs : List IrType) (pad : Bool) {n : ℕ}
    → count_num_words xs ≡ ok n
    → count_num_words (xs ++ padding pad) ≡ ok (n + (if pad then 1 else 0))
unfolding count_num_words
padding-count xs true h = ground (arith, count-append xs (int 32 ∷ []))
padding-count xs false h = ground (arith, append-nil xs)

module _ {Tree : Type 0} where
  -- The scalars that are handed over, without padding.
  unfoldable pub scalar_types : List (Event Tree) → List IrType
  scalar_types [] = []
  scalar_types (scalar t o r ∷ es) = t ∷ scalar_types es
  scalar_types (e ∷ es) = scalar_types es

  -- The calls for one field.
  abbrev field_events : IrType → ℕ → IrType → ℕ → List (Event Tree)
  field_events sty i t r = enter i sty ∷ scalar t none r ∷ exit ∷ []

  -- Calls that hand over exactly these scalars and no padding.
  abbrev pub Hands : List IrType → State Tree → State Tree → Type 0
  Hands ts s t =
      (added : List (Event Tree)) × (t.events ≡ s.events ++ added)
      × (scalar_types added ≡ ts)
      × (elts_of added ≡ ts)
