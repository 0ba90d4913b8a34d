-- ===== src/X86/Extract.antt =====
-- `llvm_x86_extract_multiple_return_value` of src/x86/Target.cpp: the stores that take a struct of
-- returned registers apart into the destination. A source is a field of the returned struct, with
-- an element of it if that is a vector; a slot is a field of the destination, with an element of
-- it if that is an array or a struct. An index past the end of a struct is `unreachable`.
pub mod Order
use dragonegg.Base.{
  length, ℕ, zero, suc, ◌+◌, ◌-◌, ◌≤◌, ◌<◌, ◌≡◌, refl, arith, Bool, true, false, ◌&&◌, List, [],
  ◌∷◌, ◌++◌, Option, none, some, ltb, ◌==◌, if◌then◌else◌,
}
use dragonegg.Base.Results.{Result, ok, unreachable, ◌>>=◌}
use dragonegg.Ir.{
  IrType, float, double, int, pointer, vector, array, struct, is_float, is_single_value, is_vector,
  is_struct,
}

pub record Store : Type 0 where
  pub src_field : ℕ
  pub src_elem : Option ℕ
  pub dest_field : ℕ
  pub dest_elem : Option ℕ

abbrev pub store : ℕ → Option ℕ → ℕ → Option ℕ → Store
store s se d de = record { src_field = s; src_elem = se; dest_field = d; dest_elem = de }

-- The elements that a source gives to an array: of four floats the last two are ignored.
unfoldable pub source_size : IrType → ℕ
source_size (vector t n) = if is_float t && (n == 4) then 2 else n
source_size t = 1

-- `while (i < Size)`: the elements from `i` on of one source, `left` of them.
unfoldable pub extract_elements : IrType → ℕ → ℕ → ℕ → ℕ → ℕ → List Store
extract_elements t zero i sno dno delem = []
extract_elements t (suc left) i sno dno delem =
    store sno (if is_vector t then some i else none) dno (some delem)
    ∷ extract_elements t left (suc i) sno dno (suc delem)

-- What a loop leaves: its stores, the next source and the sources from it on.
pub record Progress : Type 0 where
  pub stores : List Store
  pub sno : ℕ
  pub sources : List IrType

-- `while (DElemNo < ArraySize)`, over the sources that are left. A source that is larger than what is
-- left of the array, which would be stored to what stands behind it, is unreachable here.
unfoldable pub fill_array : ℕ → ℕ → ℕ → ℕ → List IrType → Result Progress
unfolding source_size extract_elements
fill_array size delem dno sno [] =
    if ltb delem size then unreachable else ok (record { stores = []; sno = sno; sources = [] })
fill_array size delem dno sno (t ∷ ts) =
    let rest = fill_array size (delem + source_size t) dno (suc sno) ts in
    if ltb delem size
    then (if ltb size (delem + source_size t)
        then unreachable
        else (rest >>= λ p.
            ok (record p {
              stores = extract_elements t (source_size t) 0 sno dno delem ++ p.stores;
            })))
    else ok (record { stores = []; sno = sno; sources = t ∷ ts })

abbrev pub drop_one : List IrType → List IrType
drop_one [] = []
drop_one (t ∷ ts) = ts

-- One destination field: it takes a source, two for a struct (the first two of all, which must be
-- there), or as many as fill an array.
unfoldable pub extract_field : IrType → ℕ → ℕ → List IrType → Result Progress
unfolding fill_array
extract_field (struct packed es) dno sno ts =
    if ltb (sno + length ts) 2
    then unreachable
    else ok (record {
      stores = store 0 none dno (some 0) ∷ store 1 none dno (some 1) ∷ [];
      sno = suc (suc sno);
      sources = drop_one (drop_one ts);
    })
extract_field (array t n) dno sno ts = fill_array n 0 dno sno ts
extract_field t dno sno ts =
    if is_single_value t
    then ok (record { stores = store sno none dno none ∷ []; sno = suc sno; sources = drop_one ts })
    else unreachable

-- `while (SNO < NumElements)`, over the destination fields from `dno` on.
unfoldable pub extract_loop : List IrType → ℕ → ℕ → List IrType → Result (List Store)
unfolding extract_field
extract_loop ds dno sno [] = ok []
extract_loop [] dno sno (t ∷ ts) = unreachable
extract_loop (d ∷ ds) dno sno (t ∷ ts) = extract_field d dno sno (t ∷ ts) >>= λ p.
    extract_loop ds (suc dno) p.sno p.sources >>= λ rest. ok (p.stores ++ rest)

abbrev is_three_floats : List IrType → Bool
is_three_floats (a ∷ b ∷ c ∷ []) = is_float a && is_float b && is_float c
is_three_floats ds = false

-- Three floats are returned as a vector of four and a float, and are taken apart first.
unfoldable pub extract_multiple_return_value : List IrType → List IrType → Result (List Store)
unfolding extract_loop
extract_multiple_return_value srcs dests =
    if is_three_floats dests
    then ok (store 0 (some 0) 0 none ∷ store 0 (some 1) 1 none ∷ store 1 none 2 none ∷ [])
    else extract_loop dests 0 0 srcs
