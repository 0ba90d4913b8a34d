-- ===== src/Abi/Single.antt =====
-- `isSingleElementStructOrArray` of src/DefaultABI.cpp. A null tree is `none`; reading the size of
-- a field's type that has no constant size is `unreachable`.
use dragonegg.Base.{
  ℕ, ◌≡◌, ◌⊎◌, inl, inr, arith, Bool, false, not, ◌&&◌, Option, none, some, Option-cases, ltb, ◌==◌,
  if◌then◌else◌, subst,
}
use dragonegg.Base.Results.{Result, ok, unreachable, ◌>>=◌}
use dragonegg.Ir.{IrType, array}
use dragonegg.Abi.{
  Info, Tree, scalar_type, complex_type, record_type, union_type, array_type, Fields, no_fields,
  field, other_decl, info,
}

-- The field is not looked at: it is known to have no bits.
abbrev pub is_skipped : Bool → Option ℕ → Bool
is_skipped ignore none = false
is_skipped ignore (some n) = ignore && (n == 0)

-- The array has one element, by the LLVM type.
abbrev pub has_one_element : IrType → Bool
has_one_element (array t n) = n == 1
has_one_element t = false

-- A field's type wider than the struct of `size` bits.
abbrev pub is_fat : ℕ → Tree → Result Bool
is_fat size t = elim (info t).size_bits [ none ↦ unreachable | some n ↦ ok (ltb size n) ]

unfoldable mutual
  pub single_element : Tree → Bool → Bool → Result (Option Tree)
  single_element (complex_type i t) ignore reject = ok none
  single_element (scalar_type i) ignore reject = ok (some (scalar_type i))
  single_element (union_type i fs) ignore reject = ok none
  single_element (record_type i fs) ignore reject = elim i.size_bits [
    | none ↦ ok none
    | some size ↦ single_field fs ignore reject size none
  ]
  single_element (array_type i t) ignore reject =
      let rest = single_element t false false in
      if not (has_one_element i.ir) then ok none else rest

  -- The loop over the fields; `found` is the answer for the field that was found, if any was.
  pub single_field : Fields → Bool → Bool → ℕ → Option (Result (Option Tree)) → Result (Option Tree)
  single_field no_fields ignore reject size found = elim found [ none ↦ ok none | some r ↦ r ]
  single_field (other_decl fs) ignore reject size found = single_field fs ignore reject size found
  single_field (field d bits t fs) ignore reject size found =
      let skip = single_field fs ignore reject size found in
      let keep = single_field fs ignore reject size (some (single_element t ignore false)) in
      if is_skipped ignore bits then skip else elim found [
        | some r ↦ ok none
        | none ↦
            (if reject then is_fat size t else ok false) >>= λ fat. if fat then ok none else keep
      ]

mutual
  -- A scalar type reached from a type through fields of records and elements of arrays.
  pub data Within : Tree → Tree → Type 0 where
    itself : {i : Info} → Within (scalar_type i) (scalar_type i)
    in_record :
        {i : Info} {fs : Fields} {u : Tree} → WithinFields fs u → Within (record_type i fs) u
    in_array : {i : Info} {t u : Tree} → Within t u → Within (array_type i t) u

  pub data WithinFields : Fields → Tree → Type 0 where
    at_field :
        {d : ℕ} {bits : Option ℕ} {t u : Tree} {fs : Fields}
        → Within t u
        → WithinFields (field d bits t fs) u
    later_field :
        {d : ℕ} {bits : Option ℕ} {t u : Tree} {fs : Fields}
        → WithinFields fs u
        → WithinFields (field d bits t fs) u
    later_decl : {u : Tree} {fs : Fields} → WithinFields fs u → WithinFields (other_decl fs) u

-- What a successful answer says: the element found is a scalar type within the type.
abbrev Finds : Tree → Result (Option Tree) → Type 0
Finds t r = (u : Tree) → r ≡ ok (some u) → Within t u

abbrev FindsIn : Fields → Result (Option Tree) → Type 0
FindsIn fs r = (u : Tree) → r ≡ ok (some u) → WithinFields fs u

-- Once a field was found, only its answer can be given.
found-kept :
    (fs : Fields) (ignore reject : Bool) (size : ℕ) (r : Result (Option Tree)) (u : Tree)
    → single_field fs ignore reject size (some r) ≡ ok (some u)
    → r ≡ ok (some u)
unfolding single_field
found-kept no_fields ignore reject size r u e = e
found-kept (other_decl fs) ignore reject size r u e = found-kept fs ignore reject size r u e
found-kept (field d bits t fs) ignore reject size r u e =
    ground (arith, found-kept fs ignore reject size r u)

-- At a field, with none found before: it is skipped and a later one found, or it is the one.
field-cases :
    (d : ℕ) (bits : Option ℕ) (t : Tree) (fs : Fields) (ignore reject : Bool) (size : ℕ) (u : Tree)
    → single_field (field d bits t fs) ignore reject size none ≡ ok (some u)
    → (single_field fs ignore reject size none ≡ ok (some u))
      ⊎ (single_element t ignore false ≡ ok (some u))
unfolding single_field
field-cases d bits t fs ignore reject size u e =
    ground (arith, found-kept fs ignore reject size (single_element t ignore false) u)

mutual
  unfolding single_element single_field

  single_element-Finds :
      (t : Tree) (ignore reject : Bool) → Finds t (single_element t ignore reject)
  single_element-Finds (complex_type i t) ignore reject u e = cc
  single_element-Finds (scalar_type i) ignore reject u e =
      subst (Within (scalar_type i)) (ground arith) itself
  single_element-Finds (union_type i fs) ignore reject u e = cc
  single_element-Finds (record_type i fs) ignore reject u e = elim (Option-cases i.size_bits) [
    | inl n ↦ ground arith
    | inr (size, n) ↦ in_record (single_field-Finds fs ignore reject size u (ground arith))
  ]
  single_element-Finds (array_type i t) ignore reject u e =
      in_array (single_element-Finds t false false u (ground arith))

  single_field-Finds :
      (fs : Fields) (ignore reject : Bool) (size : ℕ)
      → FindsIn fs (single_field fs ignore reject size none)
  single_field-Finds no_fields ignore reject size u e = cc
  single_field-Finds (other_decl fs) ignore reject size u e =
      later_decl (single_field-Finds fs ignore reject size u e)
  single_field-Finds (field d bits t fs) ignore reject size u e =
      elim (field-cases d bits t fs ignore reject size u e) [
        | inl k ↦ later_field (single_field-Finds fs ignore reject size u k)
        | inr k ↦ at_field (single_element-Finds t ignore false u k)
      ]

-- If a single element is found, it is a scalar type, and it lies within the type through fields of
-- records and elements of arrays only: never in a union or a complex type.
pub single_element-Within :
    (t : Tree) (ignore reject : Bool) (u : Tree)
    → single_element t ignore reject ≡ ok (some u)
    → Within t u
single_element-Within t ignore reject u e = single_element-Finds t ignore reject u e
