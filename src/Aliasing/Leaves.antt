-- ===== src/Aliasing/Leaves.antt =====
-- What holds of the static variables of `describeAliasSet` in src/Aliasing.cpp after any calls.
use dragonegg.Base.{
  ℕ, ◌≡◌, ◌⊎◌, refl, sym, arith, inl, inr, Bool, true, false, not, ◌&&◌, ◌||◌, Bool-cases, List, [],
  ◌∷◌, ◌++◌, Option, none, some, ◌==◌, if◌then◌else◌,
}
use dragonegg.Base.Results.{ok}
use dragonegg.Aliasing.{Known, set_tag, tag_of, reaches_leaf, give_up_leaves}

-- A number is in a list.
unfoldable pub elem : ℕ → List ℕ → Bool
elem n [] = false
elem n (x ∷ xs) = x == n || elem n xs

pub elem-append : (n : ℕ) (xs ys : List ℕ) → elem n (xs ++ ys) ≡ (elem n xs || elem n ys)
unfolding elem
elem-append n [] ys = refl
elem-append n (x ∷ xs) ys = ground (arith, elem-append n xs ys)

-- No number is in the list twice.
abbrev pub Distinct : List ℕ → Type 0
Distinct [] = Unit
Distinct (x ∷ xs) = (elem x xs ≡ false) × Distinct xs

pub Distinct-append_one :
    (s : ℕ) (xs : List ℕ) → Distinct xs → elem s xs ≡ false → Distinct (xs ++ s ∷ [])
unfolding elem
Distinct-append_one s [] d e = (refl, tt)
Distinct-append_one s (x ∷ xs) d e =
    (ground (arith, d.0, elem-append x xs (s ∷ [])), Distinct-append_one s xs d.1 (ground arith))

-- A tag that is not null.
abbrev pub live : Option (Option ℕ) → Bool
live none = false
live (some none) = false
live (some (some tag)) = true

module _ (subset_of : ℕ → ℕ → Bool) (create_node : ℕ → ℕ) where
  -- The leaves have tags, and only they; each tag is the set's own; different leaves are unrelated.
  pub record LeavesOk (k : Known) : Type 0 where
    pub distinct : Distinct k.leaf_nodes
    pub leaf_live : (s : ℕ) → elem s k.leaf_nodes ≡ live (k.node_tags s)
    pub own_tag : (s tag : ℕ) → k.node_tags s ≡ some (some tag) → tag ≡ create_node s
    pub unrelated :
        (s t : ℕ)
        → elem s k.leaf_nodes ≡ true
        → elem t k.leaf_nodes ≡ true
        → (s == t) ≡ false
        → subset_of s t ≡ false

  -- The leaves that are not given up.
  unfoldable pub kept : ℕ → List ℕ → List ℕ
  kept s [] = []
  kept s (x ∷ xs) = if subset_of s x then kept s xs else x ∷ kept s xs

  pub elem-kept : (s t : ℕ) (xs : List ℕ) → elem t (kept s xs) ≡ (elem t xs && not (subset_of s t))
  unfolding elem kept
  elem-kept s t [] = refl
  elem-kept s t (x ∷ xs) = elim (Bool-cases (x == t)) [
    | inl e ↦ let same : x ≡ t = ground (arith, e) in rw same (ground (arith, elem-kept s t xs))
    | inr e ↦ ground (arith, e, elem-kept s t xs)
  ]

  pub Distinct-kept : (s : ℕ) (xs : List ℕ) → Distinct xs → Distinct (kept s xs)
  unfolding kept
  Distinct-kept s [] d = tt
  Distinct-kept s (x ∷ xs) d = elim (Bool-cases (subset_of s x)) [
    | inl e ↦ rw e (Distinct-kept s xs d.1)
    | inr e ↦ rw e (ground (arith, d.0, elem-kept s x xs), Distinct-kept s xs d.1)
  ]

  pub reaches_leaf-elem :
      (s t : ℕ) (xs : List ℕ)
      → reaches_leaf subset_of create_node s xs ≡ false
      → elem t xs ≡ true
      → subset_of t s ≡ false
  unfolding reaches_leaf elem
  reaches_leaf-elem s t [] h e = ground arith
  reaches_leaf-elem s t (x ∷ xs) h e = elim (Bool-cases (x == t)) [
    | inl f ↦ let same : x ≡ t = ground (arith, f) in rw (sym same) (ground (arith, h))
    | inr f ↦ reaches_leaf-elem s t xs (ground (arith, h)) (ground (arith, e, f))
  ]

  -- A tag that a set has is still the set's later, or all its uses are replaced by the root's tag.
  pub record Older (k m : Known) : Type 0 where
    pub still : (tag : ℕ) → elem tag k.replaced ≡ true → elem tag m.replaced ≡ true
    pub old :
        (t tag : ℕ)
        → k.node_tags t ≡ some (some tag)
        → (m.node_tags t ≡ some (some tag)) ⊎ (elem tag m.replaced ≡ true)

  pub Older-refl : (k : Known) → Older k k
  Older-refl k = record { still = λ tag h. h; old = λ t tag h. inl h }

  pub Older-trans : (k m n : Known) → Older k m → Older m n → Older k n
  Older-trans k m n a b = record {
    still = λ tag h. b.still tag (a.still tag h);
    old = λ t tag h. elim (a.old t tag h) [ inl o ↦ b.old t tag o | inr o ↦ inr (b.still tag o) ];
  }

  -- What giving up leaves makes of a state: the other leaves stay, the tags of those given up are null,
  -- and their uses are replaced.
  pub record GivenUp (s : ℕ) (xs : List ℕ) (k m : Known) : Type 0 where
    pub leaves : m.leaf_nodes ≡ kept s xs
    pub tags :
        (t : ℕ) → m.node_tags t ≡ (if elem t xs && subset_of s t then some none else k.node_tags t)
    pub older : Older k m

  -- The first leaf is given up.
  give_up_first :
      (s x tag : ℕ) (xs : List ℕ) (k m : Known)
      → subset_of s x ≡ true
      → k.node_tags x ≡ some (some tag)
      → GivenUp s xs k m
      → GivenUp s
          (x ∷ xs)
          k
          (record m { node_tags = set_tag x none m.node_tags; replaced = tag ∷ m.replaced })
  unfolding kept elem set_tag
  give_up_first s x tag xs k m e g u = record {
    leaves = rw e u.leaves;
    tags = λ t. elim (Bool-cases (x == t)) [
      | inl f ↦ let same : x ≡ t = ground (arith, f) in rw (sym same) (ground (arith, e))
      | inr f ↦ ground (arith, f, u.tags t)
    ];
    older = record {
      still = λ n h. ground (arith, u.older.still n h);
      old = λ t n h. elim (Bool-cases (x == t)) [
        | inl f ↦
            let same : x ≡ t = ground (arith, f) in
            let there : k.node_tags x ≡ some (some n) = rw same h in
            let agree : tag ≡ n = cc in inr (ground (arith, agree))
        | inr f ↦ elim (u.older.old t n h) [
          | inl o ↦ inl (ground (arith, f, o))
          | inr o ↦ inr (ground (arith, o))
        ]
      ];
    };
  }

  -- The first leaf is kept.
  keep_first :
      (s x : ℕ) (xs : List ℕ) (k m : Known)
      → subset_of s x ≡ false
      → GivenUp s xs k m
      → GivenUp s (x ∷ xs) k (record m { leaf_nodes = x ∷ m.leaf_nodes })
  unfolding kept elem
  keep_first s x xs k m e u = record {
    leaves = rw (e, u.leaves) refl;
    tags = λ t. elim (Bool-cases (x == t)) [
      | inl f ↦ let same : x ≡ t = ground (arith, f) in rw (sym same) (ground (arith, e, u.tags x))
      | inr f ↦ ground (arith, f, u.tags t)
    ];
    older = record { still = u.older.still; old = u.older.old };
  }

  live-some : (o : Option (Option ℕ)) → live o ≡ true → (tag : ℕ) × (o ≡ some (some tag))
  live-some (some (some tag)) h = (tag, refl)
  live-some (some none) h = cc
  live-some none h = cc

  -- Leaves that have tags are given up without a crash.
  pub give_up_leaves-GivenUp :
      (s : ℕ) (xs : List ℕ) (k : Known)
      → Distinct xs
      → ((t : ℕ) → elem t xs ≡ true → live (k.node_tags t) ≡ true)
      → (m : Known) × (give_up_leaves subset_of create_node s xs k ≡ ok m) × GivenUp s xs k m
  unfolding give_up_leaves kept elem
  give_up_leaves-GivenUp s [] k d l = (
    record k { leaf_nodes = [] },
    refl,
    record {
      leaves = refl;
      tags = λ t. refl;
      older = record { still = λ tag h. h; old = λ t tag h. inl h };
    },
  )
  give_up_leaves-GivenUp s (x ∷ xs) k d l =
      let (m, e, u) = give_up_leaves-GivenUp s xs k d.1 (λ t h. l t (ground (arith, h))) in
      let (tag, g) = live-some (k.node_tags x) (l x (ground arith)) in
      let same : m.node_tags x ≡ some (some tag) = ground (arith, u.tags x, d.0, g) in
      elim (Bool-cases (subset_of s x)) [
        | inl f ↦ (_, rw e (rw f (rw (same, tag_of) refl)), give_up_first s x tag xs k m f g u)
        | inr f ↦ (_, rw e (rw f refl), keep_first s x xs k m f u)
      ]
