-- ===== src/Aliasing/Sound.antt =====
-- One call of `describeAliasSet` in src/Aliasing.cpp for a new alias set.
use dragonegg.Base.{
  ℕ, ◌≡◌, refl, sym, ◌∙◌, arith, inl, inr, Bool, true, false, not, ◌&&◌, ◌||◌, Bool-cases, List, [],
  ◌∷◌, ◌++◌, Option, none, some, ◌==◌, if◌then◌else◌,
}
use dragonegg.Base.Results.{ok}
use dragonegg.Aliasing.{Known, set_tag, reaches_leaf, add_leaf, add_inner, is_empty, describe_new}
use dragonegg.Aliasing.Leaves.{
  elem, elem-append, Distinct-append_one, LeavesOk, Older, Older-trans, kept, elem-kept,
  Distinct-kept, reaches_leaf-elem, GivenUp, give_up_leaves-GivenUp,
}

module _ (subset_of : ℕ → ℕ → Bool) (create_node : ℕ → ℕ) where
  LeavesOk-add_inner :
      (s : ℕ) (k : Known)
      → k.node_tags s ≡ none
      → LeavesOk subset_of create_node k
      → LeavesOk subset_of create_node (add_inner subset_of create_node s k)
  unfolding set_tag
  LeavesOk-add_inner s k n o = record {
    distinct = o.distinct;
    leaf_live = λ t. elim (Bool-cases (s == t)) [
      | inl f ↦
          let same : s ≡ t = ground (arith, f) in
          let out : elem s k.leaf_nodes ≡ false = ground (arith, o.leaf_live s, n) in
          rw (sym same) (ground (arith, out))
      | inr f ↦ ground (arith, f, o.leaf_live t)
    ];
    own_tag = λ t tag h. ground (arith, h, o.own_tag t tag);
    unrelated = o.unrelated;
  }

  LeavesOk-add_leaf :
      (s : ℕ) (k m : Known)
      → k.node_tags s ≡ none
      → reaches_leaf subset_of create_node s k.leaf_nodes ≡ false
      → LeavesOk subset_of create_node k
      → GivenUp subset_of create_node s k.leaf_nodes k m
      → LeavesOk subset_of create_node (add_leaf subset_of create_node s m)
  unfolding set_tag elem
  LeavesOk-add_leaf s k m n r o u =
      let xs = k.leaf_nodes in
      let stays = kept subset_of create_node s xs in
      let out : elem s xs ≡ false = ground (arith, o.leaf_live s, n) in
      let is_in : (t : ℕ)
          → elem t (m.leaf_nodes ++ s ∷ []) ≡ ((elem t xs && not (subset_of s t)) || (s == t)) =
        λ t.
          ground (
            arith,
            u.leaves,
            elem-append t stays (s ∷ []),
            elem-kept subset_of create_node s t xs,
          ) in
      record {
        distinct = rw u.leaves (
            Distinct-append_one s stays (Distinct-kept subset_of create_node s xs o.distinct)
              (ground (arith, out, elem-kept subset_of create_node s s xs)));
        leaf_live = λ t. elim (Bool-cases (s == t)) [
          | inl f ↦ ground (arith, f, is_in t)
          | inr f ↦ ground (arith, f, is_in t, u.tags t, o.leaf_live t)
        ];
        own_tag = λ t tag h. elim (Bool-cases (s == t)) [
          | inl f ↦
              let same : s ≡ t = ground (arith, f) in
              let there : some (some (create_node s)) ≡ some (some tag) = ground (arith, h, f) in
              rw (sym same) cc
          | inr f ↦ o.own_tag t tag (ground (arith, f, h, u.tags t))
        ];
        unrelated = λ a b h j f. elim (Bool-cases (s == a)) [
          | inl g ↦
              let same : s ≡ a = ground (arith, g) in
              rw (sym same) (ground (arith, g, f, j, is_in b))
          | inr g ↦ elim (Bool-cases (s == b)) [
            | inl e ↦
                let same : s ≡ b = ground (arith, e) in
                rw (sym same)
                  (reaches_leaf-elem subset_of create_node s a xs r (ground (arith, g, h, is_in a)))
            | inr e ↦
                o.unrelated a b (ground (arith, g, h, is_in a)) (ground (arith, e, j, is_in b)) f
          ]
        ];
      }

  set_tag-Older :
      (s : ℕ) (o : Option ℕ) (k : Known) (leaves : List ℕ)
      → k.node_tags s ≡ none
      → Older subset_of create_node k
          (record k { node_tags = set_tag s o k.node_tags; leaf_nodes = leaves })
  unfolding set_tag
  set_tag-Older s o k leaves n = record {
    still = λ tag h. h;
    old = λ t tag h. elim (Bool-cases (s == t)) [
      | inl f ↦
          let same : s ≡ t = ground (arith, f) in
          let there : k.node_tags s ≡ some (some tag) = rw same h in absurd cc
      | inr f ↦ inl (ground (arith, f, h))
    ];
  }

  module _ (top : (s : ℕ) → subset_of s 0 ≡ true)
      (transitive : (a b c : ℕ)
        → subset_of a b ≡ true
        → subset_of b c ≡ true
        → subset_of a c ≡ true) where
    -- If a set has the root as a part then so do, with a leaf known, its paths to that leaf.
    root-reaches_leaf :
        (s : ℕ) (xs : List ℕ)
        → reaches_leaf subset_of create_node s xs ≡ false
        → (if is_empty subset_of create_node xs then subset_of 0 s else false) ≡ false
        → subset_of 0 s ≡ false
    unfolding reaches_leaf
    root-reaches_leaf s [] r e = e
    root-reaches_leaf s (x ∷ xs) r e = elim (Bool-cases (subset_of 0 s)) [
      | inl z ↦ ground (arith, transitive x 0 s (top x) z, r)
      | inr z ↦ z
    ]

    -- One call for a new set.
    pub describe_new-LeavesOk :
        (s : ℕ) (k : Known)
        → k.node_tags s ≡ none
        → LeavesOk subset_of create_node k
        → (o : Option ℕ) × (m : Known) × (describe_new subset_of create_node s k ≡ ok (o, m))
          × LeavesOk subset_of create_node m
          × Older subset_of create_node k m
          × (m.node_tags s ≡ some o)
    unfolding set_tag describe_new
    describe_new-LeavesOk s k n o =
        let quick = if is_empty subset_of create_node k.leaf_nodes then subset_of 0 s else false in
        let inner = LeavesOk-add_inner s k n o in
        elim (Bool-cases quick) [
          | inl c ↦ (
            none,
            add_inner subset_of create_node s k,
            rw c refl,
            inner,
            set_tag-Older s none k k.leaf_nodes n,
            ground arith,
          )
          | inr c ↦ elim (Bool-cases (reaches_leaf subset_of create_node s k.leaf_nodes)) [
            | inl r ↦ (
              none,
              add_inner subset_of create_node s k,
              rw (c, r) refl,
              inner,
              set_tag-Older s none k k.leaf_nodes n,
              ground arith,
            )
            | inr r ↦
                let (m, e, u) =
                  give_up_leaves-GivenUp subset_of create_node s k.leaf_nodes k o.distinct
                    (λ t h. sym (o.leaf_live t) ∙ h) in
                let fresh : m.node_tags s ≡ none = ground (arith, u.tags s, o.leaf_live s, n) in
                (
                  some (create_node s),
                  add_leaf subset_of create_node s m,
                  rw (c, r) (rw (root-reaches_leaf s k.leaf_nodes r c) (rw e refl)),
                  LeavesOk-add_leaf s k m n r o u,
                  Older-trans subset_of create_node k m _ u.older
                      (set_tag-Older s (some (create_node s)) m (m.leaf_nodes ++ s ∷ []) fresh),
                  ground arith,
                )
          ]
        ]
