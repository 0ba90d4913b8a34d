-- ===== src/Names.antt =====
-- The names of trees in src/Trees.cpp. A text is the list of its character codes. How a number is
-- written is a parameter.
use dragonegg.Base.{
  ℕ, ◌≡◌, refl, arith, Bool, true, false, ◌&&◌, ◌||◌, List, [], ◌∷◌, ◌++◌, Option, none, some, ◌==◌,
  if◌then◌else◌,
}

-- What distinguishes a declaration without a name, with its numbers: a label may have one of its own.
pub data DeclKind : Type 0 where
  result_decl : DeclKind
  label_decl : Option ℕ → ℕ → DeclKind
  const_decl other_decl : ℕ → DeclKind

pub data TypeKind : Type 0 where
  enumeral_type record_type qual_union_type union_type : TypeKind
  array_type complex_type pointer_type reference_type other_type : TypeKind

-- A tree, as far as names go: a declaration with its name, a type with `TYPE_NAME` and `TREE_TYPE`, an
-- SSA name with its variable and version.
pub data NamedTree : Type 0 where
  no_tree mysterious : NamedTree
  identifier : List ℕ → NamedTree
  decl : DeclKind → Option (List ℕ) → NamedTree
  type_tree : TypeKind → NamedTree → NamedTree → NamedTree
  ssa_name : NamedTree → ℕ → NamedTree

abbrev pub is_empty_text : List ℕ → Bool
is_empty_text [] = true
is_empty_text (c ∷ s) = false

-- `concatIfNotEmpty`.
unfoldable pub concat_if_not_empty : List ℕ → List ℕ → List ℕ
concat_if_not_empty left right =
    if is_empty_text left || is_empty_text right then [] else left ++ right

-- `getAssemblerName`: a leading star becomes the character 1.
unfoldable pub get_assembler_name : Option (List ℕ) → List ℕ
get_assembler_name none = []
get_assembler_name (some []) = []
get_assembler_name (some (c ∷ s)) = if c == b'*' then 1 ∷ s else c ∷ s

-- What is put before the name of a type.
abbrev pub annotation : TypeKind → List ℕ
annotation enumeral_type = b'e' ∷ b'n' ∷ b'u' ∷ b'm' ∷ b'.' ∷ []
annotation record_type = b's' ∷ b't' ∷ b'r' ∷ b'u' ∷ b'c' ∷ b't' ∷ b'.' ∷ []
annotation qual_union_type =
    b'q' ∷ b'u' ∷ b'a' ∷ b'l' ∷ b'u' ∷ b'n' ∷ b'i' ∷ b'o' ∷ b'n' ∷ b'.' ∷ []
annotation union_type = b'u' ∷ b'n' ∷ b'i' ∷ b'o' ∷ b'n' ∷ b'.' ∷ []
annotation k = []

-- A name made from that of the element type.
unfoldable pub deduced_name : TypeKind → List ℕ → List ℕ
deduced_name array_type e = concat_if_not_empty e (b'[' ∷ b']' ∷ [])
deduced_name complex_type e =
    concat_if_not_empty (b'c' ∷ b'o' ∷ b'm' ∷ b'p' ∷ b'l' ∷ b'e' ∷ b'x' ∷ b'.' ∷ []) e
deduced_name pointer_type e = concat_if_not_empty e (b'*' ∷ [])
deduced_name reference_type e = concat_if_not_empty e (b'&' ∷ [])
deduced_name k e = []

module _ (decimal : ℕ → List ℕ) where
  abbrev pub decl_name : DeclKind → List ℕ
  decl_name result_decl = b'<' ∷ b'r' ∷ b'e' ∷ b't' ∷ b'v' ∷ b'a' ∷ b'l' ∷ b'>' ∷ []
  decl_name (label_decl (some label) uid) = b'L' ∷ decimal label
  decl_name (label_decl none uid) = b'D' ∷ b'.' ∷ decimal uid
  decl_name (const_decl uid) = b'C' ∷ b'.' ∷ decimal uid
  decl_name (other_decl uid) = b'D' ∷ b'.' ∷ decimal uid

  -- `getDescriptiveName`.
  unfoldable pub get_descriptive_name : NamedTree → List ℕ
  get_descriptive_name no_tree = []
  get_descriptive_name mysterious = []
  get_descriptive_name (identifier s) = s
  get_descriptive_name (decl k (some s)) = s
  get_descriptive_name (decl k none) = decl_name k
  get_descriptive_name (type_tree k name element) =
      let own = get_descriptive_name name in
      let e = get_descriptive_name element in
      if is_empty_text own then deduced_name k e else annotation k ++ own
  get_descriptive_name (ssa_name var version) =
      let v = get_descriptive_name var in concat_if_not_empty v (b'_' ∷ decimal version)

-- A type that names are made for from its element type.
abbrev pub is_derived : TypeKind → Bool
is_derived array_type = true
is_derived complex_type = true
is_derived pointer_type = true
is_derived reference_type = true
is_derived k = false

is_empty_text-append :
    (s t : List ℕ) → is_empty_text (s ++ t) ≡ (is_empty_text s && is_empty_text t)
is_empty_text-append [] t = refl
is_empty_text-append (c ∷ s) t = refl

is_empty_text-deduced_name :
    (k : TypeKind) (e : List ℕ)
    → is_empty_text (deduced_name k e) ≡ (if is_derived k then is_empty_text e else true)
unfolding deduced_name concat_if_not_empty
is_empty_text-deduced_name enumeral_type e = refl
is_empty_text-deduced_name record_type e = refl
is_empty_text-deduced_name qual_union_type e = refl
is_empty_text-deduced_name union_type e = refl
is_empty_text-deduced_name array_type [] = refl
is_empty_text-deduced_name array_type (c ∷ e) = refl
is_empty_text-deduced_name complex_type [] = refl
is_empty_text-deduced_name complex_type (c ∷ e) = refl
is_empty_text-deduced_name pointer_type [] = refl
is_empty_text-deduced_name pointer_type (c ∷ e) = refl
is_empty_text-deduced_name reference_type [] = refl
is_empty_text-deduced_name reference_type (c ∷ e) = refl
is_empty_text-deduced_name other_type e = refl

-- A tree has a name by itself, or is derived from a type that has one, or is an SSA name of a variable
-- that has one.
abbrev pub has_name : NamedTree → Bool
has_name no_tree = false
has_name mysterious = false
has_name (identifier []) = false
has_name (identifier (c ∷ s)) = true
has_name (decl k (some [])) = false
has_name (decl k (some (c ∷ s))) = true
has_name (decl k none) = true
has_name (type_tree k name element) = has_name name || (is_derived k && has_name element)
has_name (ssa_name var version) = has_name var

-- The descriptive name of a tree is empty exactly if the tree has none in this sense, however deep the
-- types are derived.
pub is_empty_text-get_descriptive_name :
    (decimal : ℕ → List ℕ) (t : NamedTree)
    → is_empty_text (get_descriptive_name decimal t) ≡ (if has_name t then false else true)
unfolding get_descriptive_name concat_if_not_empty
is_empty_text-get_descriptive_name decimal no_tree = refl
is_empty_text-get_descriptive_name decimal mysterious = refl
is_empty_text-get_descriptive_name decimal (identifier []) = refl
is_empty_text-get_descriptive_name decimal (identifier (c ∷ s)) = refl
is_empty_text-get_descriptive_name decimal (decl k (some [])) = refl
is_empty_text-get_descriptive_name decimal (decl k (some (c ∷ s))) = refl
is_empty_text-get_descriptive_name decimal (decl result_decl none) = refl
is_empty_text-get_descriptive_name decimal (decl (label_decl (some l) u) none) = refl
is_empty_text-get_descriptive_name decimal (decl (label_decl none u) none) = refl
is_empty_text-get_descriptive_name decimal (decl (const_decl u) none) = refl
is_empty_text-get_descriptive_name decimal (decl (other_decl u) none) = refl
is_empty_text-get_descriptive_name decimal (type_tree k name element) =
    let own = get_descriptive_name decimal name in
    let e = get_descriptive_name decimal element in
    ground (
      arith,
      is_empty_text-get_descriptive_name decimal name,
      is_empty_text-get_descriptive_name decimal element,
      is_empty_text-deduced_name k e,
      is_empty_text-append (annotation k) own,
    )
is_empty_text-get_descriptive_name decimal (ssa_name var version) =
    let v = get_descriptive_name decimal var in
    ground (
      arith,
      is_empty_text-get_descriptive_name decimal var,
      is_empty_text-append v (b'_' ∷ decimal version),
    )
