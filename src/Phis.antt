-- ===== src/Phis.antt =====
-- `PopulatePhiNodes` of src/Convert.cpp, for one phi node: its operands from the values that come in over
-- the edges of GCC's phi and from the predecessors of its block in LLVM. Blocks, trees, types and values
-- are known by numbers.
pub mod Seek
pub mod Fill
pub mod Operands
use dragonegg.Base.{
  ℕ, zero, suc, ◌≤◌, ◌≡◌, Bool, true, false, List, [], ◌∷◌, ◌++◌, Option, none, some, ◌==◌,
  if◌then◌else◌, set, length,
}
use dragonegg.Base.Results.{Result, ok, unreachable, ◌>>=◌}
use dragonegg.Intervals.Sane.{All}

-- What the function under construction answers: the block for a block of GCC, the blocks in order with
-- whether they have a name, the single predecessor of a block, `EmitRegister`, the types of values, and the
-- cast of a value at the end of a block; and `std::sort` on pairs.
pub record PhiContext : Type 0 where
  pub basic_blocks : ℕ → Option ℕ
  pub block_order : List (ℕ × Bool)
  pub single_predecessor : ℕ → Option ℕ
  pub emit_register : ℕ → ℕ
  pub type_of : ℕ → ℕ
  pub bit_cast : ℕ → ℕ → ℕ → ℕ
  pub sort : List (ℕ × ℕ) → List (ℕ × ℕ)

abbrev pub any_of : (ℕ × ℕ → Bool) → List (ℕ × ℕ) → Bool
any_of p [] = false
any_of p (x ∷ xs) = if p x then true else any_of p xs

-- The first components do not decrease.
abbrev pub Sorted : List (ℕ × ℕ) → Type 0
Sorted [] = Unit
Sorted (x ∷ xs) = All (λ (y : ℕ × ℕ). x.0 ≤ y.0) xs × Sorted xs

-- What remains of the blocks behind a block.
unfoldable pub after_block : ℕ → List (ℕ × Bool) → List (ℕ × Bool)
after_block b [] = []
after_block b ((x, named) ∷ bs) = let rest = after_block b bs in if x == b then bs else rest

-- What a phi node becomes: it is erased, its uses being undefined, or it has operands.
pub data PhiResult : Type 0 where
  erased : PhiResult
  operands : List (Option (ℕ × ℕ)) → PhiResult

module _ (c : PhiContext) where
  abbrev follows : ℕ → ℕ → Bool
  follows x last = elim (c.single_predecessor x) [ none ↦ false | some p ↦ p == last ]

  -- The nameless blocks that follow a block have the same value come in.
  unfoldable pub add_anonymous : ℕ → ℕ → List (ℕ × Bool) → Result (List (ℕ × ℕ))
  add_anonymous last val [] = ok []
  add_anonymous last val ((x, true) ∷ bs) = ok []
  add_anonymous last val ((x, false) ∷ bs) =
      let rest = add_anonymous x val bs in
      if follows x last then (rest >>= λ more. ok ((x, val) ∷ more)) else unreachable

  -- The values by block, for the arguments of GCC's phi: the source of an edge and an expression.
  unfoldable pub incoming_values : List (ℕ × ℕ) → Result (List (ℕ × ℕ))
  incoming_values [] = ok []
  incoming_values ((bb, val) ∷ args) = elim (c.basic_blocks bb) [
    | none ↦ unreachable
    | some b ↦ add_anonymous b val (after_block b c.block_order) >>= λ more.
        incoming_values args >>= λ rest. ok ((b, val) ∷ more ++ rest)
  ]

  -- The predecessors with their positions.
  unfoldable pub number : ℕ → List ℕ → List (ℕ × ℕ)
  number i [] = []
  number i (b ∷ bs) = (b, i) ∷ number (suc i) bs

  -- The first incoming value for a block, with those behind it.
  unfoldable pub seek : ℕ → List (ℕ × ℕ) → List (ℕ × ℕ)
  seek b [] = []
  seek b ((x, val) ∷ vs) = let rest = seek b vs in if x == b then (x, val) ∷ vs else rest

  -- The value for a predecessor: that of the expression, cast if the phi node has another type.
  abbrev pub value_at : ℕ → ℕ → ℕ → ℕ
  value_at ty b tree =
      if c.type_of (c.emit_register tree) == ty
      then c.emit_register tree
      else c.bit_cast b (c.emit_register tree) ty

  abbrev pub is_current : ℕ → Option (ℕ × ℕ) → Bool
  is_current b none = false
  is_current b (some (x, val)) = x == b

  abbrev pub current_value : Option (ℕ × ℕ) → ℕ
  current_value none = 0
  current_value (some (x, val)) = val

  -- The loop over the sorted predecessors; the block whose value was found last is passed with it, so that
  -- its other occurrences get the same value.
  unfoldable pub fill :
      ℕ
      → Option (ℕ × ℕ)
      → List (ℕ × ℕ)
      → List (ℕ × ℕ)
      → List (Option (ℕ × ℕ))
      → Result (List (Option (ℕ × ℕ)))
  fill ty current [] vs args = ok args
  fill ty current ((b, at) ∷ ps) vs args =
      let again = fill ty current ps vs (set args at (some (b, current_value current))) in
      if is_current b current then again else elim (seek b vs) [
        | [] ↦ unreachable
        | (x, tree) ∷ rest ↦
            fill ty (some (b, value_at ty b tree)) ps ((x, tree) ∷ rest)
              (set args at (some (b, value_at ty b tree)))
      ]

  abbrev pub unset : List ℕ → List (Option (ℕ × ℕ))
  unset [] = []
  unset (b ∷ bs) = none ∷ unset bs

  -- The operands of a phi node of a type in a block with some predecessors.
  unfoldable pub populate_phi : ℕ → List ℕ → List (ℕ × ℕ) → Result PhiResult
  populate_phi ty preds gcc_args = incoming_values gcc_args >>= λ incoming. elim preds [
    | [] ↦ ok erased
    | b ∷ bs ↦
        fill ty none (c.sort (number 0 (b ∷ bs))) (c.sort incoming) (unset (b ∷ bs)) >>= λ args.
        ok (operands args)
  ]

  -- `PopulatePhiNodes`: the pending phi nodes in turn, each with its type, the predecessors of its block
  -- and the arguments of GCC's phi; what is collected for one is cleared before the next.
  unfoldable pub populate_phi_nodes : List (ℕ × List ℕ × List (ℕ × ℕ)) → Result (List PhiResult)
  populate_phi_nodes [] = ok []
  populate_phi_nodes ((ty, preds, gcc_args) ∷ phis) =
      populate_phi ty preds gcc_args >>= λ phi. populate_phi_nodes phis >>= λ rest. ok (phi ∷ rest)
