-- ===== src/Globals/Strings.antt =====
-- The cache of `ConvertMetadataStringToGV` in src/Backend.cpp: one global for each string.
use dragonegg.Base.{
  ℕ, zero, suc, ◌<◌, ◌≡◌, ◌↔◌, subst, sym, ◌∙◌, ap, inl, inr, arith, Option-cases, none, some, List,
  [], ◌∷◌, get_elem?,
}
use dragonegg.Globals.{StringCache, find_string, metadata_string, metadata_strings}

-- The cache with nothing in it.
abbrev pub no_strings : StringCache
no_strings = record { cached = []; next_global = 0 }

-- Cached globals were made before the next one, and no two strings have the same.
pub record IsCache (s : StringCache) : Type 0 where
  pub below : (a g : ℕ) → find_string a s.cached ≡ some g → g < s.next_global
  pub distinct :
      (a b g : ℕ) → find_string a s.cached ≡ some g → find_string b s.cached ≡ some g → a ≡ b

-- What is cached stays so.
abbrev Keeps : StringCache → StringCache → Type 0
Keeps s t = (a g : ℕ) → find_string a s.cached ≡ some g → find_string a t.cached ≡ some g

no_strings-IsCache : IsCache no_strings
unfolding find_string
no_strings-IsCache = record { below = λ a g h. absurd cc; distinct = λ a b g h k. absurd cc }

made-IsCache :
    (i : ℕ) (s : StringCache)
    → IsCache s
    → find_string i s.cached ≡ none
    → IsCache (record { cached = (i, s.next_global) ∷ s.cached; next_global = suc s.next_global })
unfolding find_string
made-IsCache i s w n = record {
  below = λ a g h. ground (arith, h, w.below a g);
  distinct = λ a b g h k. ground (arith, h, k, w.distinct a b g, w.below a g, w.below b g);
}

-- What a call gives and leaves: a global that stays the string's.
abbrev Answers : ℕ → StringCache → ℕ × StringCache → Type 0
Answers i s r = IsCache r.1 × Keeps s r.1 × (find_string i r.1.cached ≡ some r.0)

made-Answers :
    (i : ℕ) (s : StringCache)
    → IsCache s
    → find_string i s.cached ≡ none
    → Answers i s (
      s.next_global,
      record { cached = (i, s.next_global) ∷ s.cached; next_global = suc s.next_global },
    )
made-Answers i s w n = (
  made-IsCache i s w n,
  λ a g h. unfold find_string in ground (arith, h, n),
  unfold find_string in ground arith,
)

metadata_string-made :
    (i : ℕ) (s : StringCache)
    → find_string i s.cached ≡ none
    → metadata_string i s ≡ (
      s.next_global,
      record { cached = (i, s.next_global) ∷ s.cached; next_global = suc s.next_global },
    )
unfolding metadata_string
metadata_string-made i s n = ground (arith, n)

metadata_string-kept :
    (i g : ℕ) (s : StringCache) → find_string i s.cached ≡ some g → metadata_string i s ≡ (g, s)
unfolding metadata_string
metadata_string-kept i g s e = ground (arith, e)

metadata_string-Answers : (i : ℕ) (s : StringCache) → IsCache s → Answers i s (metadata_string i s)
metadata_string-Answers i s w = elim (Option-cases (find_string i s.cached)) [
  | inl n ↦ subst (Answers i s) (sym (metadata_string-made i s n)) (made-Answers i s w n)
  | inr (g, e) ↦ subst (Answers i s) (sym (metadata_string-kept i g s e)) (w, (λ a x h. h), e)
]

found_cons :
    (j a g i first : ℕ) (is gs : List ℕ) (cache : List (ℕ × ℕ))
    → find_string i cache ≡ some first
    → ((k b h : ℕ)
        → get_elem? is k ≡ some b
        → get_elem? gs k ≡ some h
        → find_string b cache ≡ some h)
    → get_elem? (i ∷ is) j ≡ some a
    → get_elem? (first ∷ gs) j ≡ some g
    → find_string a cache ≡ some g
found_cons zero a g i first is gs cache f rest h k = cc
found_cons (suc j) a g i first is gs cache f rest h k = rest j a g h k

-- Every answer is the string's global in the cache at the end.
metadata_strings-found :
    (is : List ℕ) (s : StringCache)
    → IsCache s
    → IsCache (metadata_strings is s).1
      × Keeps s (metadata_strings is s).1
      × ((j a g : ℕ)
          → get_elem? is j ≡ some a
          → get_elem? (metadata_strings is s).0 j ≡ some g
          → find_string a (metadata_strings is s).1.cached ≡ some g)
unfolding metadata_strings
metadata_strings-found [] s w = (w, (λ a g h. h), λ j a g h. absurd cc)
metadata_strings-found (i ∷ is) s w =
    let (w1, k1, f1) = metadata_string-Answers i s w in
    let (w2, k2, f2) = metadata_strings-found is (metadata_string i s).1 w1 in
    (
      w2,
      (λ a g h. k2 a g (k1 a g h)),
      λ j a g h k.
          found_cons j a g i (metadata_string i s).0 is
            (metadata_strings is (metadata_string i s).1).0
            (metadata_strings is (metadata_string i s).1).1.cached (k2 i (metadata_string i s).0 f1)
            f2 h k,
    )

-- However often it is called, `ConvertMetadataStringToGV` gives two calls one global exactly when
-- their strings are the same.
pub metadata_strings-distinct :
    (is : List ℕ) (j k a b g h : ℕ)
    → get_elem? is j ≡ some a
    → get_elem? is k ≡ some b
    → get_elem? (metadata_strings is no_strings).0 j ≡ some g
    → get_elem? (metadata_strings is no_strings).0 k ≡ some h
    → (a ≡ b) ↔ (g ≡ h)
metadata_strings-distinct is j k a b g h ea eb eg eh =
    let (w, _, found) = metadata_strings-found is no_strings no_strings-IsCache in
    let at_a = found j a g ea eg in
    let at_b = found k b h eb eh in (λ e. cc, λ e. w.distinct a b g at_a (at_b ∙ ap some (sym e)))
