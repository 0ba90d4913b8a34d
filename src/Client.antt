-- ===== src/Client.antt =====
-- include/dragonegg/ABI.h: the callbacks of `DefaultABIClient`, as a log of the calls that the ABI
-- code makes on its client, together with the vector of scalar argument types that it fills and
-- the attributes that it adds. A tree argument may be null.
pub mod Log
use dragonegg.Base.{ℕ, Bool, List, [], ◌∷◌, ◌++◌, Option}
use dragonegg.Ir.{IrType}

pub data Event (Tree : Type 0) : Type 0 where
  scalar_result : IrType → Event Tree
  result_as_scalar : IrType → ℕ → Event Tree
  result_as_aggregate : IrType → Event Tree
  aggregate_shadow_result : IrType → Bool → Event Tree
  scalar_shadow_result : IrType → Bool → Event Tree
  -- the type, the tree and the real size, 0 if it is that of the type
  scalar : IrType → Option Tree → ℕ → Event Tree
  invisible_reference : IrType → Tree → Event Tree
  by_val : IrType → Tree → Event Tree
  first_class : IrType → Tree → Event Tree
  enter : ℕ → IrType → Event Tree
  exit : Event Tree
  pad_event : IrType → Event Tree

pub record State (Tree : Type 0) : Type 0 where
  pub events : List (Event Tree)
  pub scalar_elts : List IrType
  -- the alignment of each `ByVal` attribute that was added
  pub byval_aligns : List ℕ

abbrev pub emit : {Tree : Type 0} → State Tree → Event Tree → State Tree
emit s e = record s { events = s.events ++ e ∷ [] }

abbrev pub push_scalar : {Tree : Type 0} → State Tree → IrType → State Tree
push_scalar s t = record s { scalar_elts = s.scalar_elts ++ t ∷ [] }
