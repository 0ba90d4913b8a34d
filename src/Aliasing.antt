-- ===== src/Aliasing.antt =====
-- src/Aliasing.cpp: the metadata that says what a memory access may alias. An alias set is a number,
-- GCC's `get_alias_set` and `alias_set_subset_of` and LLVM's `createTBAANode` are parameters. A tag is a
-- number; `none` stands for the null tag, and a tag all of whose uses were replaced by the root's is
-- recorded in `replaced`.
pub mod Leaves
pub mod Sound
pub mod Calls
use dragonegg.Base.{
  ℕ, zero, suc, ◌≡◌, Bool, true, false, List, [], ◌∷◌, ◌++◌, Option, none, some, ◌==◌,
  if◌then◌else◌,
}
use dragonegg.Base.Int.{ℤ, pos, negsuc}
use dragonegg.Base.Results.{Result, ok, unreachable, ◌>>=◌}

-- The static variables of `describeAliasSet`.
pub record Known : Type 0 where
  pub node_tags : ℕ → Option (Option ℕ)
  pub leaf_nodes : List ℕ
  pub replaced : List ℕ

abbrev pub nothing_known : Known
nothing_known = record { node_tags = λ s. none; leaf_nodes = []; replaced = [] }

unfoldable pub set_tag : ℕ → Option ℕ → (ℕ → Option (Option ℕ)) → ℕ → Option (Option ℕ)
set_tag s tag tags t = if s == t then some tag else tags t

-- `tags[s]` where it is dereferenced: a missing or null tag would crash.
abbrev pub tag_of : ℕ → Known → Result ℕ
tag_of s k = elim (k.node_tags s) [
  | none ↦ unreachable
  | some o ↦ elim o [ none ↦ unreachable | some tag ↦ ok tag ]
]

module _ (subset_of : ℕ → ℕ → Bool) (create_node : ℕ → ℕ) where
  -- There is a path from a set to one of the leaves.
  unfoldable pub reaches_leaf : ℕ → List ℕ → Bool
  reaches_leaf s [] = false
  reaches_leaf s (leaf ∷ leaves) =
      let rest = reaches_leaf s leaves in if subset_of leaf s then true else rest

  -- The loop over the leaves, from the last to the first, that gives up those with a path to a set. The
  -- leaves are passed beside the state and stand in the new one.
  unfoldable pub give_up_leaves : ℕ → List ℕ → Known → Result Known
  give_up_leaves s [] k = ok (record k { leaf_nodes = [] })
  give_up_leaves s (leaf ∷ leaves) k = give_up_leaves s leaves k >>= λ m.
      if subset_of s leaf
      then (tag_of leaf m >>= λ tag.
          ok (record m { node_tags = set_tag leaf none m.node_tags; replaced = tag ∷ m.replaced }))
      else ok (record m { leaf_nodes = leaf ∷ m.leaf_nodes })

  -- A new leaf.
  abbrev pub add_leaf : ℕ → Known → Known
  add_leaf s k = record k {
    node_tags = set_tag s (some (create_node s)) k.node_tags;
    leaf_nodes = k.leaf_nodes ++ s ∷ [];
  }

  -- A set that is no leaf.
  abbrev pub add_inner : ℕ → Known → Known
  add_inner s k = record k { node_tags = set_tag s none k.node_tags }

  abbrev pub is_empty : List ℕ → Bool
  is_empty [] = true
  is_empty (x ∷ xs) = false

  -- What is done for a set that is met for the first time.
  unfoldable pub describe_new : ℕ → Known → Result (Option ℕ × Known)
  describe_new s k =
      if (if is_empty k.leaf_nodes then subset_of 0 s else false)
      then ok (none, add_inner s k)
      else if reaches_leaf s k.leaf_nodes
      then ok (none, add_inner s k)
      else if subset_of 0 s
      then unreachable
      else (give_up_leaves s k.leaf_nodes k >>= λ m. ok (some (create_node s), add_leaf s m))

  -- `describeAliasSet`, of the tree's alias set: zero and negative sets may alias anything.
  unfoldable pub describe_alias_set : ℤ → Known → Result (Option ℕ × Known)
  describe_alias_set (negsuc n) k = ok (none, k)
  describe_alias_set (pos zero) k = ok (none, k)
  describe_alias_set (pos (suc n)) k = elim (k.node_tags (suc n)) [
    | some tag ↦ ok (tag, k)
    | none ↦ describe_new (suc n) k
  ]

  -- Successive calls.
  unfoldable pub describe_all : List ℤ → Known → Result Known
  describe_all [] k = ok k
  describe_all (s ∷ ss) k = describe_alias_set s k >>= λ (tag, m). describe_all ss m
