-- ===== src/Asm/Escape.antt =====
-- `ConvertInlineAsmStr` of src/Convert.cpp against LLVM's reading of an asm string.
use dragonegg.Base.{
  ℕ, suc, Bool, ◌&&◌, ◌||◌, List, [], ◌∷◌, Option, none, some, ◌==◌, if◌then◌else◌,
}
use dragonegg.Asm.{TextRules}

abbrev pub prepend : ℕ → Option (List ℕ) → Option (List ℕ)
prepend c none = none
prepend c (some s) = some (c ∷ s)

-- Both readings of a text choose one of the alternatives that stand between braces, separated by
-- bars, by the dialect of the assembler. What a brace or bar does is given by the number of the
-- alternative that is being read, if there is one: outside of braces a bar and a closing brace stand
-- for themselves, and braces do not nest.
pub data Mark : Type 0 where
  itself : Mark
  moves : Option ℕ → Mark
  nested : Mark

abbrev pub mark : ℕ → Option ℕ → Mark
mark c none = if c == b'{' then moves (some 0) else itself
mark c (some k) =
    if c == b'{' then nested else if c == b'|' then moves (some (suc k)) else moves none

abbrev pub is_mark : ℕ → Bool
is_mark c = c == b'{' || c == b'}' || c == b'|'

-- A character, which is printed outside of braces and in the alternative of the dialect.
abbrev pub show : ℕ → Option ℕ → ℕ → Option (List ℕ) → Option (List ℕ)
show dialect none c rest = prepend c rest
show dialect (some k) c rest = if k == dialect then prepend c rest else rest

abbrev pub follow : ℕ → Option ℕ → ℕ → (Option ℕ → Option (List ℕ)) → Option (List ℕ)
follow dialect inside c next = elim (mark c inside) [
  | itself ↦ show dialect inside c (next inside)
  | moves k ↦ next k
  | nested ↦ none
]

-- The brace or bar that LLVM reads behind a dollar.
unfoldable pub unescape_one : ℕ → Option ℕ
unescape_one c =
    if c == b'('
    then some b'{'
    else if c == b')'
    then some b'}'
    else if c == b'|'
    then some b'|'
    else none

-- The text that LLVM prints for a string without operands, in the dialect of a number: `$$` is a
-- dollar, and `$(`, `$|` and `$)` are the braces and bars around alternatives.
unfoldable pub unescape : ℕ → Option ℕ → List ℕ → Option (List ℕ)
unescape dialect inside [] = some []
unescape dialect inside (c ∷ []) = if c == b'$' then none else show dialect inside c (some [])
unescape dialect inside (c ∷ d ∷ s) =
    let behind = λ (k : Option ℕ). unescape dialect k s in
    let next = unescape dialect inside (d ∷ s) in
    if c == b'$'
    then (if d == b'$'
        then show dialect inside b'$' (behind inside)
        else elim (unescape_one d) [ none ↦ none | some e ↦ follow dialect inside e behind ])
    else show dialect inside c next

-- The end of a text, which may not be in the middle of alternatives.
abbrev pub ended : Option ℕ → Option (List ℕ)
ended none = some []
ended (some k) = none

-- The text of a GCC asm string without operands, in the dialect of a number: `%%` stands for `%`, and
-- braces are read if `has_dialects`.
unfoldable pub gcc_text : Bool → ℕ → Option ℕ → List ℕ → Option (List ℕ)
gcc_text has_dialects dialect inside [] = ended inside
gcc_text has_dialects dialect inside (c ∷ []) =
    if c == b'%'
    then none
    else if has_dialects && is_mark c
    then follow dialect inside c ended
    else show dialect inside c (ended inside)
gcc_text has_dialects dialect inside (c ∷ d ∷ s) =
    let behind = gcc_text has_dialects dialect inside s in
    let next = λ (k : Option ℕ). gcc_text has_dialects dialect k (d ∷ s) in
    if c == b'%'
    then (if d == b'%' then show dialect inside b'%' behind else none)
    else if has_dialects && is_mark c
    then follow dialect inside c next
    else show dialect inside c (next inside)

module _ (r : TextRules) where
  -- A character that is no percent sign, as both read it.
  abbrev both : ℕ → Option ℕ → ℕ → (Option ℕ → Option (List ℕ)) → Option (List ℕ)
  both dialect inside c next =
      if r.dialect && is_mark c
      then follow dialect inside c next
      else show dialect inside c (next inside)
