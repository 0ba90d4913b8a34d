-- ===== src/Aliasing/Calls.antt =====
-- That the tags of `describeAliasSet` in src/Aliasing.cpp tell apart only sets that cannot alias.
use dragonegg.Base.{
  ℕ, zero, suc, ◌≡◌, ◌⊎◌, refl, sym, ap, subst, ◌∙◌, inl, inr, Bool, true, false, Option-cases,
  List, [], ◌∷◌, Option, none, some, ◌==◌,
}
use dragonegg.Base.Int.{ℤ, pos, negsuc, pos_part}
use dragonegg.Base.Results.{ok, ok_inj}
use dragonegg.Aliasing.{Known, nothing_known, describe_alias_set, describe_all}
use dragonegg.Aliasing.Leaves.{elem, live, LeavesOk, Older, Older-refl, Older-trans}
use dragonegg.Aliasing.Sound.{describe_new-LeavesOk}

module _ (subset_of : ℕ → ℕ → Bool) (create_node : ℕ → ℕ) where
  module _ (top : (s : ℕ) → subset_of s 0 ≡ true)
      (transitive : (a b c : ℕ)
        → subset_of a b ≡ true
        → subset_of b c ≡ true
        → subset_of a c ≡ true) where
    -- One call, of a tree's alias set.
    describe_alias_set-LeavesOk :
        (z : ℤ) (k : Known)
        → LeavesOk subset_of create_node k
        → (o : Option ℕ) × (m : Known) × (describe_alias_set subset_of create_node z k ≡ ok (o, m))
          × LeavesOk subset_of create_node m
          × Older subset_of create_node k m
          × ((tag : ℕ) → o ≡ some tag → m.node_tags (pos_part z) ≡ some (some tag))
    unfolding describe_alias_set
    describe_alias_set-LeavesOk (negsuc n) k w =
        (none, k, refl, w, Older-refl subset_of create_node k, λ tag f. absurd cc)
    describe_alias_set-LeavesOk (pos zero) k w =
        (none, k, refl, w, Older-refl subset_of create_node k, λ tag f. absurd cc)
    describe_alias_set-LeavesOk (pos (suc n)) k w = elim (Option-cases (k.node_tags (suc n))) [
      | inl e ↦
          let (o, m, d, l, a, t) =
            describe_new-LeavesOk subset_of create_node top transitive (suc n) k e w in
          (o, m, rw (e, describe_alias_set) d, l, a, λ tag g. t ∙ ap some g)
      | inr (tag, e) ↦ (
        tag,
        k,
        rw (e, describe_alias_set) refl,
        w,
        Older-refl subset_of create_node k,
        λ u g. e ∙ ap some g,
      )
    ]

    describe_all-LeavesOk :
        (zs : List ℤ) (k : Known)
        → LeavesOk subset_of create_node k
        → (m : Known) × (describe_all subset_of create_node zs k ≡ ok m)
          × LeavesOk subset_of create_node m
          × Older subset_of create_node k m
    unfolding describe_all
    describe_all-LeavesOk [] k w = (k, refl, w, Older-refl subset_of create_node k)
    describe_all-LeavesOk (z ∷ zs) k w =
        let (o, m, e, l, a, t) = describe_alias_set-LeavesOk z k w in
        let (n, f, l', b) = describe_all-LeavesOk zs m l in
        (n, rw e f, l', Older-trans subset_of create_node k m n a b)

    nothing_known-LeavesOk : LeavesOk subset_of create_node nothing_known
    unfolding elem
    nothing_known-LeavesOk = record {
      distinct = tt;
      leaf_live = λ s. refl;
      own_tag = λ s tag h. absurd cc;
      unrelated = λ s t h k f. absurd cc;
    }

    -- Where every set is a part of the root's and parts of parts are parts, calls for any trees fail no
    -- assertion and follow no null tag; afterwards no one of two different sets with tags is a part of
    -- the other.
    pub describe_all-unrelated :
        (zs : List ℤ)
        → (m : Known) × (describe_all subset_of create_node zs nothing_known ≡ ok m)
          × ((s t a b : ℕ)
              → m.node_tags s ≡ some (some a)
              → m.node_tags t ≡ some (some b)
              → (s == t) ≡ false
              → subset_of s t ≡ false)
    describe_all-unrelated zs =
        let (m, e, w, a) = describe_all-LeavesOk zs nothing_known nothing_known-LeavesOk in
        (
          m,
          e,
          λ s t x y h k f.
              w.unrelated s t (w.leaf_live s ∙ ap live h) (w.leaf_live t ∙ ap live k) f,
        )

    -- A tag that some call gave is, after any further calls, still the tag of the call's alias set, or all
    -- its uses have been replaced by the root's tag.
    pub describe_alias_set-lasting :
        (before after : List ℤ) (z : ℤ) (k m : Known) (tag : ℕ)
        → describe_all subset_of create_node before nothing_known ≡ ok k
        → describe_alias_set subset_of create_node z k ≡ ok (some tag, m)
        → (n : Known) × (describe_all subset_of create_node after m ≡ ok n)
          × ((n.node_tags (pos_part z) ≡ some (some tag)) ⊎ (elem tag n.replaced ≡ true))
    describe_alias_set-lasting before after z k m tag h d =
        let (k', e, w, a) = describe_all-LeavesOk before nothing_known nothing_known-LeavesOk in
        let same : k' ≡ k = ok_inj (sym e ∙ h) in
        let (o, m', e', w', a', t) =
          describe_alias_set-LeavesOk z k (subst (LeavesOk subset_of create_node) same w) in
        let both : (o, m') ≡ (some tag, m) = ok_inj (sym e' ∙ d) in
        let now : m.node_tags (pos_part z) ≡ some (some tag) =
          subst (λ (q : Known). q.node_tags (pos_part z) ≡ some (some tag)) (ap (λ p. p.1) both)
            (t tag (ap (λ p. p.0) both)) in
        let (n, f, l, b) =
          describe_all-LeavesOk after m
            (subst (LeavesOk subset_of create_node) (ap (λ p. p.1) both) w') in
        (n, f, b.old (pos_part z) tag now)
