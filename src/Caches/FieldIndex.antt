-- ===== src/Caches/FieldIndex.antt =====
-- `GetFieldIndex` of src/TypeConversion.cpp, which remembers its answers in the table of integers of
-- src/Cache.cpp. LLVM's `StructLayout` is a parameter.
use dragonegg.Base.{
  ℕ, ◌-◌, ◌/◌, ◌%◌, ◌^◌, ◌≤◌, ◌<◌, ◌≡◌, refl, arith, inl, inr, Bool, not, Option-cases, List, [],
  ◌∷◌, map, Option, none, some, leb, ◌==◌, if◌then◌else◌,
}
use dragonegg.Base.Int.{ℤ, pos, negsuc}
use dragonegg.Base.Results.{Result, ok, unreachable, ◌>>=◌}
use dragonegg.Intervals.Sane.{All}
use dragonegg.Caches.{HashTable, get_cached_integer, set_cached_integer}
use dragonegg.Caches.Refines.{get_cached_integer-set_cached_integer}

-- A `FIELD_DECL`, and the type that it is looked up in.
pub record FieldDecl : Type 0 where
  pub decl : ℕ
  -- `OffsetIsLLVMCompatible`
  pub compatible : Bool
  -- `getFieldOffsetInBits`
  pub offset_bits : ℕ

-- A type, of which a struct has a number of elements and a layout: `getElementContainingOffset` and
-- `getElementOffset`.
pub record StructLayout : Type 0 where
  pub num_elements : ℕ
  pub containing : ℕ → ℕ
  pub element_offset : ℕ → ℕ

abbrev pub int_max : ℕ
int_max = 2 ^ 31 - 1

-- The conversion of an `int` to `unsigned`.
abbrev pub to_unsigned : ℤ → ℕ
to_unsigned (pos n) = n % 2 ^ 32
to_unsigned (negsuc n) = (2 ^ 32 - 1 - n) % 2 ^ 32

module _ {T : Type 0} (table : HashTable T ℤ) where
  unfoldable pub get_decl_index : ℕ → Option T → ℤ
  get_decl_index t cache = elim (get_cached_integer table t cache) [ none ↦ negsuc 0 | some i ↦ i ]

  unfoldable pub set_decl_index : ℕ → ℤ → Option T → Result (ℤ × Option T)
  set_decl_index t (negsuc i) cache = unreachable
  set_decl_index t (pos i) cache = ok (pos i, set_cached_integer table t (pos i) cache)

  -- The index that is set if none is remembered. A type that is no struct is `none`.
  unfoldable pub sought_index : FieldDecl → Option StructLayout → ℕ
  sought_index f none = int_max
  sought_index f (some s) =
      let offset = f.offset_bits / 8 in
      let index = s.containing offset in
      if s.num_elements == 0
      then int_max
      else if not f.compatible
      then int_max
      else if not (offset == s.element_offset index)
      then int_max
      else if leb int_max index
      then int_max
      else index

  unfoldable pub get_field_index :
      FieldDecl → Option StructLayout → Option T → Result (ℤ × Option T)
  get_field_index f ty cache =
      let index = to_unsigned (get_decl_index f.decl cache) in
      if leb index int_max
      then ok (pos index, cache)
      else set_decl_index f.decl (pos (sought_index f ty)) cache

  -- Successive calls, with their answers in order.
  unfoldable pub get_field_indices :
      List (FieldDecl × Option StructLayout) → Option T → Result (List ℤ)
  get_field_indices [] cache = ok []
  get_field_indices ((f, ty) ∷ fs) cache = get_field_index f ty cache >>= λ (i, after).
      get_field_indices fs after >>= λ rest. ok (i ∷ rest)

  sought_index-le : (f : FieldDecl) (ty : Option StructLayout) → sought_index f ty ≤ int_max
  unfolding sought_index
  sought_index-le f none = omega arith
  sought_index-le f (some s) = ground arith

  -- An index below the largest is that of an element that starts in the field's first byte.
  pub sought_index_lem :
      (f : FieldDecl) (s : StructLayout)
      → sought_index f (some s) < int_max
      → s.element_offset (sought_index f (some s)) ≡ f.offset_bits / 8
  unfolding sought_index
  sought_index_lem f s h = ground arith

  -- Every remembered index is a given one, in the range of `int`.
  abbrev pub Remembers : (ℕ → ℕ) → Option T → Type 0
  Remembers answer cache =
      (t : ℕ) (i : ℤ)
      → get_cached_integer table t cache ≡ some i
      → (i ≡ pos (answer t)) × (answer t ≤ int_max)

  -- A query about a declaration whose index, if it is sought, is the given one.
  abbrev pub Asks : (ℕ → ℕ) → FieldDecl × Option StructLayout → Type 0
  Asks answer q = sought_index q.0 q.1 ≡ answer q.0.decl

  Remembers-set :
      (answer : ℕ → ℕ) (q : FieldDecl × Option StructLayout) (cache : Option T)
      → Asks answer q
      → Remembers answer cache
      → Remembers answer (set_cached_integer table q.0.decl (pos (sought_index q.0 q.1)) cache)
  Remembers-set answer (f, ty) cache a r t i e = ground (
    arith,
    a,
    r t i,
    sought_index-le f ty,
    get_cached_integer-set_cached_integer table t f.decl (pos (sought_index f ty)) cache,
  )

  -- One call gives the sought index, and what is remembered then is right again.
  get_field_index-Remembers :
      (answer : ℕ → ℕ) (q : FieldDecl × Option StructLayout) (cache : Option T)
      → Asks answer q
      → Remembers answer cache
      → (after : Option T) × (get_field_index q.0 q.1 cache
          ≡ ok (pos (sought_index q.0 q.1), after))
        × Remembers answer after
  unfolding get_field_index get_decl_index set_decl_index
  get_field_index-Remembers answer (f, ty) cache a r =
      elim (Option-cases (get_cached_integer table f.decl cache)) [
        | inl e ↦ (
          set_cached_integer table f.decl (pos (sought_index f ty)) cache,
          ground (arith, e),
          Remembers-set answer (f, ty) cache a r,
        )
        | inr (i, e) ↦ (cache, ground (arith, e, a, r f.decl i e), r)
      ]

  -- If a declaration is always looked up where it has the same index, then remembering changes no
  -- answer: successive calls all give the index that is sought without a table.
  pub get_field_indices-sought_index :
      (answer : ℕ → ℕ) (qs : List (FieldDecl × Option StructLayout)) (cache : Option T)
      → All (Asks answer) qs
      → Remembers answer cache
      → get_field_indices qs cache
        ≡ ok (map (λ (q : FieldDecl × Option StructLayout). pos (sought_index q.0 q.1)) qs)
  unfolding get_field_indices
  get_field_indices-sought_index answer [] cache a r = refl
  get_field_indices-sought_index answer ((f, ty) ∷ qs) cache a r =
      let (after, e, m) = get_field_index-Remembers answer (f, ty) cache a.0 r in
      rw e (rw (get_field_indices-sought_index answer qs after a.1 m) refl)
