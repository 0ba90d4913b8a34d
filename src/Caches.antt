-- ===== src/Caches.antt =====
-- src/Cache.cpp: what is remembered of GCC's trees, in three hash tables that are made when first
-- written. Trees, types and values are known by numbers. GCC's hash table is the parameter `HashTable`.
pub mod Refines
pub mod FieldIndex
use dragonegg.Base.{
  ℕ, ◌≡◌, Bool, true, false, List, [], ◌∷◌, Option, none, some, ◌==◌, if◌then◌else◌,
}

-- An element of a table: the tree that it is about, `base.from`, and what is remembered of it.
pub record Entry (V : Type 0) : Type 0 where
  pub from : ℕ
  pub val : V

-- `hash_table` of GCC, with elements compared by `from`. `put` writes an element through the slot that
-- `find_slot` gives; `sweep` is what the garbage collector does to a table of which it keeps the elements
-- about marked trees; `update_all` changes elements in place.
pub record HashTable (T V : Type 0) : Type 0 where
  pub create : T
  pub find : ℕ → T → Option (Entry V)
  pub put : Entry V → T → T
  pub remove_elt : ℕ → T → T
  pub sweep : (ℕ → Bool) → T → T
  pub update_all : (V → V) → T → T
  pub find-create : (t : ℕ) → find t create ≡ none
  pub find-put :
      (t : ℕ) (e : Entry V) (h : T) → find t (put e h) ≡ (if e.from == t then some e else find t h)
  pub find-remove_elt :
      (t u : ℕ) (h : T) → find t (remove_elt u h) ≡ (if u == t then none else find t h)
  pub find-sweep :
      (t : ℕ) (marked : ℕ → Bool) (h : T)
      → find t (sweep marked h) ≡ (if marked t then find t h else none)
  pub find-update_all :
      (t : ℕ) (f : V → V) (h : T)
      → find t (update_all f h)
        ≡ elim (find t h) [ none ↦ none | some e ↦ some (record e { val = f e.val }) ]
  pub from-find : (t : ℕ) (h : T) (e : Entry V) → find t h ≡ some e → e.from ≡ t

module _ {T V : Type 0} (table : HashTable T V) where
  -- The table, made if there is none yet.
  abbrev made : Option T → T
  made cache = elim cache [ none ↦ table.create | some h ↦ h ]

  -- Finds the slot for a tree, fills an empty one, and sets the value in it.
  abbrev write : ℕ → V → T → T
  write t v h = elim (table.find t h) [
    | none ↦ table.put (record { from = t; val = v }) h
    | some e ↦ table.put (record e { val = v }) h
  ]

  unfoldable pub get_cached_integer : ℕ → Option T → Option V
  get_cached_integer t none = none
  get_cached_integer t (some h) = elim (table.find t h) [ none ↦ none | some e ↦ some e.val ]

  unfoldable pub set_cached_integer : ℕ → V → Option T → Option T
  set_cached_integer t v cache = some (write t v (made cache))

  unfoldable pub get_cached_type : ℕ → Option T → Option V
  get_cached_type t none = none
  get_cached_type t (some h) = elim (table.find t h) [ none ↦ none | some e ↦ some e.val ]

  -- A null type removes the slot.
  unfoldable pub set_cached_type : ℕ → Option V → Option T → Option T
  set_cached_type t none none = none
  set_cached_type t none (some h) = some (table.remove_elt t h)
  set_cached_type t (some v) cache = some (write t v (made cache))

-- The third table has handles that become null when their value is deleted.
module _ {T : Type 0} (table : HashTable T (Option ℕ)) where
  unfoldable pub get_cached_value : ℕ → Option T → Option ℕ
  get_cached_value t none = none
  get_cached_value t (some h) = elim (table.find t h) [ none ↦ none | some e ↦ e.val ]

  -- A null value removes the slot.
  unfoldable pub set_cached_value : ℕ → Option ℕ → Option T → Option T
  set_cached_value t none none = none
  set_cached_value t none (some h) = some (table.remove_elt t h)
  set_cached_value t (some v) cache = some (write table t (some v) (made table cache))
