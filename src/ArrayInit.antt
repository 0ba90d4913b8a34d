-- ===== src/ArrayInit.antt =====
-- `ConvertArrayCONSTRUCTOR` of src/ConstantConversion.cpp: the constant for an array or a vector of which
-- some elements have initial values. Making constants is the parameter `ValueMaker`; an element's
-- value is what `ConvertInitializerWithCast` returned for it.
pub mod Places
pub mod Elements
pub mod Runs
pub mod Cover
use dragonegg.Base.{
  ℕ, zero, suc, ◌+◌, ◌-◌, ◌*◌, ◌/◌, ◌%◌, ◌^◌, ◌≤◌, ◌≡◌, Bool, true, false, not, ◌&&◌, ◌||◌, Option,
  none, some, List, [], ◌∷◌, ◌++◌, map, ltb, leb, ◌==◌, if◌then◌else◌, length, set, take, drop,
  replicate,
}
use dragonegg.Base.Int.{ℤ, pos, pos_part, ◌-ℤ◌, ltb_ℤ, leb_ℤ}
use dragonegg.Base.Results.{Result, ok, unreachable, ◌>>=◌}
use dragonegg.Ir.{IrType}
use dragonegg.Records.Contents.{DataLayout, unit_type}
use dragonegg.Interpret.{same_type}

-- The index of a constructor's element: none, a number, or a range of them.
pub data Index : Type 0 where
  no_index : Index
  index : ℤ → Index
  index_range : ℤ → ℤ → Index

pub record Entry (K : Type 0) : Type 0 where
  pub elt_index : Index
  pub elt_value : K

-- The GCC type's facts that the conversion asks for: its LLVM types, the number of elements if it
-- is known, the lowest index, the alignment in bits.
pub record ArrayFacts : Type 0 where
  pub init_type : IrType
  pub elt_type : IrType
  pub type_elts : Option ℕ
  pub lower_bound : ℤ
  pub type_align : ℕ
  pub is_vector_type : Bool

-- `getDefaultValue`, and the constants made of others.
pub record ValueMaker (K : Type 0) : Type 0 where
  pub type_of : K → IrType
  pub default_value : IrType → K
  pub anonymous_struct : Bool → List K → K
  pub array_of : IrType → List K → K
  pub vector_of : List K → K

-- An index counted from the lowest one, which `tree_fits_uhwi_p` and `tree_to_shwi` accept, as the
-- `unsigned` that it is stored in.
unfoldable pub zero_indexed : ℤ → ℤ → Result ℕ
zero_indexed lower i =
    let z = i -ℤ lower in
    if ltb_ℤ z (pos 0) || leb (2 ^ 63) (pos_part z) then unreachable else ok (pos_part z % 2 ^ 32)

-- The first and the last element to fill in, inclusive.
unfoldable pub filled_range : ℤ → ℕ → Index → Result (ℕ × ℕ)
filled_range lower next no_index = ok (next, next)
filled_range lower next (index i) = zero_indexed lower i >>= λ k. ok (k, k)
filled_range lower next (index_range i j) =
    zero_indexed lower i >>= λ first. zero_indexed lower j >>= λ last. ok (first, last)

-- `NextIndex` after the elements were filled in.
abbrev pub next_index : ℕ → ℕ → ℕ
next_index first last = if leb first last then suc last else first

-- `std::vector::resize`, which adds null entries.
abbrev pub resize : {A : Type 0} → ℕ → List (Option A) → List (Option A)
resize n xs = take n xs ++ replicate (n - length xs) none

unfoldable pub write_elements : {A : Type 0} → ℕ → ℕ → A → List (Option A) → List (Option A)
write_elements first zero v xs = xs
write_elements first (suc count) v xs = write_elements (suc first) count v (set xs first (some v))

-- The elements after one was filled in; the code does not return if the last one is 2^32 - 1.
unfoldable pub fill_range : {A : Type 0} → ℕ → ℕ → A → List (Option A) → Result (List (Option A))
fill_range first last v xs =
    if last == 2 ^ 32 - 1
    then unreachable
    else ok (
        write_elements first (suc last - first) v
          (if leb (length xs) last then resize (suc last) xs else xs))

module _ {K : Type 0} (d : DataLayout) (G : ValueMaker K) where
  abbrev pub size_of : K → ℕ
  size_of k = d.alloc_bits (G.type_of k)

  -- The element's value, padded to the size of elements.
  unfoldable pub pad_element : ℕ → K → Result K
  pad_element elt_size v =
      let pad_bits = (elt_size - size_of v) % 2 ^ 32 in
      if ltb elt_size (size_of v)
      then unreachable
      else if not (ltb (size_of v) elt_size)
      then ok v
      else if not (pad_bits % 8 == 0)
      then unreachable
      else ok (G.anonymous_struct false (v ∷ G.default_value (unit_type (pad_bits / 8)) ∷ []))

  -- The loop over the constructor's elements; null entries are `none`.
  unfoldable pub place_entries :
      ℕ → ℤ → List (Entry K) → ℕ → List (Option K) → Result (List (Option K))
  place_entries elt_size lower [] next elts = ok elts
  place_entries elt_size lower (e ∷ es) next elts = pad_element elt_size e.elt_value >>= λ v.
      filled_range lower next e.elt_index >>= λ r. fill_range r.0 r.1 v elts >>= λ more.
      place_entries elt_size lower es (next_index r.0 r.1) more

  abbrev pub or_default : K → Option K → K
  or_default v none = v
  or_default v (some w) = w

  abbrev pub initial_elements : Option ℕ → List (Option K)
  initial_elements none = []
  initial_elements (some n) = replicate n none

  -- The loop that looks for elements of other types than the first.
  unfoldable pub differing_align : IrType → ℕ → List K → Bool × ℕ
  differing_align actual align [] = (true, align)
  differing_align actual align (k ∷ ks) =
      let other = d.abi_align (G.type_of k) in
      let rest_same = differing_align actual align ks in
      let rest_other = differing_align actual (if ltb other align then align else other) ks in
      if same_type (G.type_of k) actual then rest_same else (false, rest_other.1)

  -- Padding at the end, so that the constant is at least as big as the type.
  unfoldable pub tail_units : ℕ → ℕ → ℕ → Result (List K)
  tail_units elt_size type_size n =
      let pad_bits = (type_size - n * elt_size) % 2 ^ 32 in
      if not (ltb (n * elt_size) type_size)
      then ok []
      else if not (pad_bits % 8 == 0)
      then unreachable
      else ok (G.default_value (unit_type (pad_bits / 8)) ∷ [])

  -- How many of the constants have the type, from the first on.
  unfoldable pub same_type_count : IrType → List K → ℕ
  same_type_count t [] = 0
  same_type_count t (k ∷ ks) =
      let rest = same_type_count t ks in if same_type (G.type_of k) t then suc rest else 0

  -- The loop that splits the elements into maximal runs of one type, with fuel for each element.
  unfoldable pub type_runs : ℕ → List K → List (K × List K)
  type_runs zero ks = []
  type_runs (suc fuel) [] = []
  type_runs (suc fuel) (k ∷ ks) =
      let n = same_type_count (G.type_of k) ks in (k, take n ks) ∷ type_runs fuel (drop n ks)

  -- A run as an element of the struct.
  abbrev pub run_value : K × List K → K
  run_value (k, []) = k
  run_value (k, l ∷ ls) = G.array_of (G.type_of k) (k ∷ l ∷ ls)

  -- What is returned for the elements, with the padding behind them; the loop that looks for other
  -- types visits `num_elts` elements.
  unfoldable pub assemble : ArrayFacts → ℕ → K → List K → List K → K
  assemble f num_elts k ks padding =
      let (homogeneous, max_align) =
        differing_align (G.type_of k) (d.abi_align (G.type_of k)) (take (num_elts - 1) ks) in
      let elts = (k ∷ ks) ++ padding in
      if ltb f.type_align (max_align * 8)
      then G.anonymous_struct true elts
      else if not (homogeneous && (length padding == 0))
      then G.anonymous_struct false (map run_value (type_runs (length elts) elts))
      else if f.is_vector_type && same_type (G.type_of k) f.elt_type
      then G.vector_of elts
      else G.array_of (G.type_of k) elts

  -- The elements, of which the first `num_elts` are initialized; a null entry behind them is used as
  -- a constant.
  unfoldable pub initialized : K → ℕ → List (Option K) → Result (List K)
  initialized v num_elts [] = ok []
  initialized v zero (none ∷ xs) = unreachable
  initialized v zero (some k ∷ xs) = initialized v zero xs >>= λ ks. ok (k ∷ ks)
  initialized v (suc n) (x ∷ xs) = initialized v n xs >>= λ ks. ok (or_default v x ∷ ks)

  -- The elements, with `NumElts`, an `unsigned`, of them initialized.
  unfoldable pub array_elements : ArrayFacts → List (Entry K) → Result (List K)
  array_elements f es =
      place_entries (d.alloc_bits f.elt_type) f.lower_bound es 0 (initial_elements f.type_elts)
      >>= λ elts.
          if length elts % 2 ^ 32 == 0
          then ok []
          else initialized (G.default_value f.elt_type) (length elts % 2 ^ 32) elts

  unfoldable pub convert_array_constructor : ArrayFacts → List (Entry K) → Result K
  convert_array_constructor f es = array_elements f es >>= finish
    where
      finish : List K → Result K
      finish [] = ok (G.default_value f.init_type)
      finish (k ∷ ks) =
          let num_elts = suc (length ks) % 2 ^ 32 in
          tail_units (d.alloc_bits f.elt_type) (d.alloc_bits f.init_type) num_elts >>= λ padding.
          ok (assemble f num_elts k ks padding)
