-- ===== src/Caches/Refines.antt =====
-- The tables of src/Cache.cpp against plain maps from trees.
use dragonegg.Base.{
  ℕ, ◌≡◌, refl, ap, ◌∙◌, arith, inl, inr, Bool, Option-cases, List, [], ◌∷◌, Option, none, some,
  ◌==◌, if◌then◌else◌,
}
use dragonegg.Caches.{
  HashTable, get_cached_integer, set_cached_integer, get_cached_type, set_cached_type,
  get_cached_value, set_cached_value,
}

-- What happens to a table of values: it is written, a value is deleted, trees are collected.
pub data ValueStep : Type 0 where
  set_value : ℕ → Option ℕ → ValueStep
  delete_value : ℕ → ValueStep
  collect : (ℕ → Bool) → ValueStep

-- The handles of a deleted value become null.
unfoldable pub drop_value : ℕ → Option ℕ → Option ℕ
drop_value v none = none
drop_value v (some w) = if v == w then none else some w

-- The steps on a plain map.
unfoldable pub map_step : ValueStep → (ℕ → Option ℕ) → ℕ → Option ℕ
map_step (set_value u v) m t = if u == t then v else m t
map_step (delete_value v) m t = drop_value v (m t)
map_step (collect marked) m t = if marked t then m t else none

unfoldable pub map_run : List ValueStep → (ℕ → Option ℕ) → ℕ → Option ℕ
map_run [] m = m
map_run (s ∷ ss) m = map_run ss (map_step s m)

module _ {T V : Type 0} (table : HashTable T V) where
  -- Right after a write, the integer is what was written; for other trees nothing changes.
  pub get_cached_integer-set_cached_integer :
      (t u : ℕ) (v : V) (cache : Option T)
      → get_cached_integer table t (set_cached_integer table u v cache)
        ≡ (if u == t then some v else get_cached_integer table t cache)
  unfolding get_cached_integer set_cached_integer
  get_cached_integer-set_cached_integer t u v none = ground (
    arith,
    table.find-create u,
    table.find-create t,
    table.find-put t (record { from = u; val = v }) table.create,
  )
  get_cached_integer-set_cached_integer t u v (some h) = elim (Option-cases (table.find u h)) [
    | inl e ↦ ground (arith, e, table.find-put t (record { from = u; val = v }) h)
    | inr (x, e) ↦
        ground (arith, e, table.from-find u h x e, table.find-put t (record x { val = v }) h)
  ]

  -- Likewise for types, of which null is the absence.
  pub get_cached_type-set_cached_type :
      (t u : ℕ) (v : Option V) (cache : Option T)
      → get_cached_type table t (set_cached_type table u v cache)
        ≡ (if u == t then v else get_cached_type table t cache)
  unfolding get_cached_type set_cached_type
  get_cached_type-set_cached_type t u none none = ground arith
  get_cached_type-set_cached_type t u none (some h) = ground (arith, table.find-remove_elt t u h)
  get_cached_type-set_cached_type t u (some v) none = ground (
    arith,
    table.find-create u,
    table.find-create t,
    table.find-put t (record { from = u; val = v }) table.create,
  )
  get_cached_type-set_cached_type t u (some v) (some h) = elim (Option-cases (table.find u h)) [
    | inl e ↦ ground (arith, e, table.find-put t (record { from = u; val = v }) h)
    | inr (x, e) ↦
        ground (arith, e, table.from-find u h x e, table.find-put t (record x { val = v }) h)
  ]

module _ {T : Type 0} (table : HashTable T (Option ℕ)) where
  get_cached_value-set_cached_value :
      (t u : ℕ) (v : Option ℕ) (cache : Option T)
      → get_cached_value table t (set_cached_value table u v cache)
        ≡ (if u == t then v else get_cached_value table t cache)
  unfolding get_cached_value set_cached_value
  get_cached_value-set_cached_value t u none none = ground arith
  get_cached_value-set_cached_value t u none (some h) = ground (arith, table.find-remove_elt t u h)
  get_cached_value-set_cached_value t u (some v) none = ground (
    arith,
    table.find-create u,
    table.find-create t,
    table.find-put t (record { from = u; val = some v }) table.create,
  )
  get_cached_value-set_cached_value t u (some v) (some h) = elim (Option-cases (table.find u h)) [
    | inl e ↦ ground (arith, e, table.find-put t (record { from = u; val = some v }) h)
    | inr (x, e) ↦
        ground (arith, e, table.from-find u h x e, table.find-put t (record x { val = some v }) h)
  ]

  -- The steps on the table.
  unfoldable pub table_step : ValueStep → Option T → Option T
  table_step (set_value t v) cache = set_cached_value table t v cache
  table_step (delete_value v) cache = elim cache [
    | none ↦ none
    | some h ↦ some (table.update_all (drop_value v) h)
  ]
  table_step (collect marked) cache = elim cache [
    | none ↦ none
    | some h ↦ some (table.sweep marked h)
  ]

  unfoldable pub table_run : List ValueStep → Option T → Option T
  table_run [] cache = cache
  table_run (s ∷ ss) cache = table_run ss (table_step s cache)

  table_step-map_step :
      (s : ValueStep) (cache : Option T) (t : ℕ)
      → get_cached_value table t (table_step s cache)
        ≡ map_step s (λ u. get_cached_value table u cache) t
  unfolding table_step map_step get_cached_value drop_value
  table_step-map_step (set_value u v) cache t = get_cached_value-set_cached_value t u v cache
  table_step-map_step (delete_value v) none t = refl
  table_step-map_step (delete_value v) (some h) t =
      ground (arith, table.find-update_all t (drop_value v) h)
  table_step-map_step (collect marked) none t = ground arith
  table_step-map_step (collect marked) (some h) t = ground (arith, table.find-sweep t marked h)

  map_step-cong :
      (s : ValueStep) (m n : ℕ → Option ℕ)
      → ((t : ℕ) → m t ≡ n t)
      → (t : ℕ) → map_step s m t ≡ map_step s n t
  unfolding map_step
  map_step-cong (set_value u v) m n h t = ground (arith, h t)
  map_step-cong (delete_value v) m n h t = ap (drop_value v) (h t)
  map_step-cong (collect marked) m n h t = ground (arith, h t)

  -- After any steps, every tree has in the table the value that it has in the map.
  pub table_run-map_run :
      (ss : List ValueStep) (cache : Option T) (m : ℕ → Option ℕ)
      → ((t : ℕ) → get_cached_value table t cache ≡ m t)
      → (t : ℕ) → get_cached_value table t (table_run ss cache) ≡ map_run ss m t
  unfolding table_run map_run
  table_run-map_run [] cache m h t = h t
  table_run-map_run (s ∷ ss) cache m h t =
      table_run-map_run ss (table_step s cache) (map_step s m)
        (λ u.
          table_step-map_step s cache u
          ∙ map_step-cong s (λ w. get_cached_value table w cache) m h u)
        t
