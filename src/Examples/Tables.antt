-- ===== src/Examples/Tables.antt =====
-- The tables of src/Cache.cpp and the tags of src/Aliasing.cpp on small inputs. A table is a list.
use dragonegg.Base.{
  ℕ, ◌+◌, ◌≡◌, ◌⊎◌, inl, inr, refl, arith, Bool, true, false, Bool-cases, ◌||◌, List, [], ◌∷◌,
  Option, none, some, ltb, ◌==◌, if◌then◌else◌,
}
use dragonegg.Base.Int.{ℤ, pos}
use dragonegg.Base.Results.{ok}
use dragonegg.Caches.{Entry, HashTable, get_cached_integer, get_cached_value}
use dragonegg.Caches.Refines.{
  ValueStep, set_value, delete_value, collect, map_run, table_run, table_run-map_run,
}
use dragonegg.Caches.FieldIndex.{
  FieldDecl, Remembers, StructLayout, sought_index, get_field_indices,
  get_field_indices-sought_index,
}
use dragonegg.Aliasing.{
  Known, nothing_known, describe_alias_set, describe_all, describe_new, reaches_leaf,
  give_up_leaves, set_tag,
}
use dragonegg.Aliasing.Leaves.{elem}
use dragonegg.Aliasing.Calls.{describe_all-unrelated, describe_alias_set-lasting}

module _ {V : Type 0} where
  abbrev find_entry : ℕ → List (Entry V) → Option (Entry V)
  find_entry t [] = none
  find_entry t (e ∷ h) = if e.from == t then some e else find_entry t h

  abbrev remove_entry : ℕ → List (Entry V) → List (Entry V)
  remove_entry t [] = []
  remove_entry t (e ∷ h) = if e.from == t then remove_entry t h else e ∷ remove_entry t h

  abbrev keep_marked : (ℕ → Bool) → List (Entry V) → List (Entry V)
  keep_marked marked [] = []
  keep_marked marked (e ∷ h) =
      if marked e.from then e ∷ keep_marked marked h else keep_marked marked h

  abbrev change_values : (V → V) → List (Entry V) → List (Entry V)
  change_values f [] = []
  change_values f (e ∷ h) = record e { val = f e.val } ∷ change_values f h

  find-remove :
      (t u : ℕ) (h : List (Entry V))
      → find_entry t (remove_entry u h) ≡ (if u == t then none else find_entry t h)
  find-remove t u [] = ground arith
  find-remove t u (e ∷ h) = ground (arith, find-remove t u h)

  find-keep :
      (t : ℕ) (marked : ℕ → Bool) (h : List (Entry V))
      → find_entry t (keep_marked marked h) ≡ (if marked t then find_entry t h else none)
  find-keep t marked [] = ground arith
  find-keep t marked (e ∷ h) = elim (Bool-cases (e.from == t)) [
    | inl f ↦
        let same : e.from ≡ t = ground (arith, f) in
        rw same (ground (arith, f, same, find-keep t marked h))
    | inr f ↦ ground (arith, f, find-keep t marked h)
  ]

  find-change :
      (t : ℕ) (f : V → V) (h : List (Entry V))
      → find_entry t (change_values f h)
        ≡ elim (find_entry t h) [ none ↦ none | some e ↦ some (record e { val = f e.val }) ]
  find-change t f [] = refl
  find-change t f (e ∷ h) = ground (arith, find-change t f h)

  from_of_find : (t : ℕ) (h : List (Entry V)) (e : Entry V) → find_entry t h ≡ some e → e.from ≡ t
  from_of_find t [] e k = absurd cc
  from_of_find t (x ∷ h) e k = ground (arith, k, from_of_find t h e)

abbrev list_table : (V : Type 0) → HashTable (List (Entry V)) V
list_table V = record {
  create = [];
  find = find_entry;
  put = λ (e : Entry V) (h : List (Entry V)). e ∷ h;
  remove_elt = remove_entry;
  sweep = keep_marked;
  update_all = change_values;
  find-create = λ t. refl;
  find-put = λ t e h. refl;
  find-remove_elt = find-remove;
  find-sweep = find-keep;
  find-update_all = find-change;
  from-find = from_of_find;
}

-- Trees 1 and 2 get values, the value of 2 is deleted, and 1 is removed.
abbrev value_steps : List ValueStep
value_steps =
    set_value 1 (some 7)
    ∷ set_value 2 (some 8)
    ∷ delete_value 8
    ∷ collect (λ t. ltb t 9)
    ∷ set_value 1 none
    ∷ []

table_run-map_run_example :
    get_cached_value (list_table (Option ℕ)) 2 (table_run (list_table (Option ℕ)) value_steps none)
    ≡ map_run value_steps (λ t. none) 2
table_run-map_run_example =
    table_run-map_run (list_table (Option ℕ)) value_steps none (λ t. none)
      (λ t. unfold get_cached_value in refl) 2

-- A struct of two elements, at bytes 0 and 4, and the field that starts at byte 4.
abbrev two_elements : StructLayout
two_elements = record {
  num_elements = 2;
  containing = λ (b : ℕ). if ltb b 4 then 0 else 1;
  element_offset = λ (i : ℕ). if i == 0 then 0 else 4;
}

abbrev second_field : FieldDecl
second_field = record { decl = 5; compatible = true; offset_bits = 32 }

nothing_remembered : Remembers (list_table ℤ) (λ t. 1) none
unfolding get_cached_integer
nothing_remembered t i e = absurd cc

get_field_indices-sought_index_example :
    get_field_indices
      (list_table ℤ)
      ((second_field, some two_elements) ∷ (second_field, some two_elements) ∷ [])
      none
    ≡ ok (
        pos (sought_index (list_table ℤ) second_field (some two_elements))
        ∷ pos (sought_index (list_table ℤ) second_field (some two_elements))
        ∷ [])
get_field_indices-sought_index_example =
    get_field_indices-sought_index (list_table ℤ) (λ t. 1)
      ((second_field, some two_elements) ∷ (second_field, some two_elements) ∷ []) none
      (unfold sought_index in (refl, (refl, tt))) nothing_remembered

-- Set 1 is a part of set 3, a record; every set is a part of 0.
abbrev part_of : ℕ → ℕ → Bool
part_of a b = b == 0 || a == b || (if a == 1 then b == 3 else false)

abbrev node : ℕ → ℕ
node s = s + 100

part_of_top : (s : ℕ) → part_of s 0 ≡ true
part_of_top s = refl

part_of_trans : (a b c : ℕ) → part_of a b ≡ true → part_of b c ≡ true → part_of a c ≡ true
part_of_trans a b c h k = ground arith

describe_all-unrelated_example :
    (m : Known) × (describe_all part_of node (pos 3 ∷ pos 2 ∷ pos 1 ∷ []) nothing_known ≡ ok m)
    × ((s t a b : ℕ)
        → m.node_tags s ≡ some (some a)
        → m.node_tags t ≡ some (some b)
        → (s == t) ≡ false
        → part_of s t ≡ false)
describe_all-unrelated_example =
    describe_all-unrelated part_of node part_of_top part_of_trans (pos 3 ∷ pos 2 ∷ pos 1 ∷ [])

-- The record's tag is given up when its part is met.
abbrev record_known : Known
record_known = record {
  node_tags = set_tag 3 (some 103) (λ s. none);
  leaf_nodes = 3 ∷ [];
  replaced = [];
}

describe_record :
    describe_alias_set part_of node (pos 3) nothing_known ≡ ok (some 103, record_known)
unfolding describe_alias_set describe_new reaches_leaf give_up_leaves set_tag
describe_record = refl

describe_alias_set-lasting_example :
    (n : Known) × (describe_all part_of node (pos 1 ∷ []) record_known ≡ ok n)
    × ((n.node_tags 3 ≡ some (some 103)) ⊎ (elem 103 n.replaced ≡ true))
describe_alias_set-lasting_example =
    describe_alias_set-lasting part_of node part_of_top part_of_trans [] (pos 1 ∷ []) (pos 3)
      nothing_known record_known 103 (unfold describe_all in refl) describe_record
