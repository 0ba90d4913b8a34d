-- ===== src/ArrayInit/Runs.antt =====
-- The struct that `ConvertArrayCONSTRUCTOR` of src/ConstantConversion.cpp returns for elements of several
-- types: its elements are the maximal runs of elements of one type.
use dragonegg.Base.{◌≡◌, Bool, true, false, List, [], ◌∷◌, ◌++◌}
use dragonegg.Intervals.Sane.{All}
use dragonegg.Records.Contents.{DataLayout}
use dragonegg.Interpret.{same_type}
use dragonegg.ArrayInit.{ValueMaker}

module _ {K : Type 0} (d : DataLayout) (G : ValueMaker K) where
  -- The elements of the runs, in order.
  abbrev pub all_elements : List (K × List K) → List K
  all_elements [] = []
  all_elements ((k, ks) ∷ runs) = (k ∷ ks) ++ all_elements runs

  -- The two constants have one type.
  abbrev pub alike : K → K → Bool
  alike k l = same_type (G.type_of l) (G.type_of k)

  -- Every run has one type, and the next run starts with another.
  abbrev pub IsMaximal : List (K × List K) → Type 0
  IsMaximal [] = Unit
  IsMaximal ((k, ks) ∷ []) = All (λ l. alike k l ≡ true) ks
  IsMaximal ((k, ks) ∷ (l, ls) ∷ runs) =
      All (λ x. alike k x ≡ true) ks × (alike k l ≡ false) × IsMaximal ((l, ls) ∷ runs)

  -- What follows the run is empty or starts with another type.
  abbrev StartsUnlike : K → List K → Type 0
  StartsUnlike k [] = Unit
  StartsUnlike k (l ∷ ls) = alike k l ≡ false
