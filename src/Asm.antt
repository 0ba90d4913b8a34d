-- ===== src/Asm.antt =====
-- Inline assembly in src/Convert.cpp: the text that `ConvertInlineAsmStr` hands to LLVM, operands that it
-- mentions, constraints made simple, and the choice among their alternatives. A text is the list of its
-- character codes, without the null at its end; reading past that null is `unreachable`. What the
-- compiler's headers and the C library say is a parameter.
pub mod Escape
pub mod Ends
pub mod Registers
pub mod Weights
use dragonegg.Base.{
  ℕ, zero, suc, ◌+◌, ◌-◌, ◌≡◌, Bool, true, false, not, ◌&&◌, ◌||◌, List, [], ◌∷◌, ◌++◌, Option,
  none, some, ltb, leb, ◌==◌, if◌then◌else◌, length,
}
use dragonegg.Base.Int.{ℤ, pos, negsuc, ◌+ℤ◌, ltb_ℤ, eqb_ℤ}
use dragonegg.Base.Results.{Result, ok, unreachable, ◌>>=◌}

abbrev pub is_digit : ℕ → Bool
is_digit c = leb b'0' c && leb c b'9'

abbrev pub is_alpha : ℕ → Bool
is_alpha c = (leb b'a' c && leb c b'z') || (leb b'A' c && leb c b'Z')

-- The loop for an asm that is not extended.
unfoldable pub escape_dollars : List ℕ → List ℕ
escape_dollars [] = []
escape_dollars (c ∷ s) = if c == b'$' then b'$' ∷ b'$' ∷ escape_dollars s else c ∷ escape_dollars s

-- `strtoul` to the base 10 gives the number and what is behind it; `utostr` is LLVM's; `dialect` is
-- whether `ASSEMBLER_DIALECT` is defined; `extension` is what `LLVM_ASM_EXTENSIONS` of the target adds for
-- a code of its own; `punct_valid` is `PRINT_OPERAND_PUNCT_VALID_P`.
pub record TextRules : Type 0 where
  pub strtoul : List ℕ → ℕ × List ℕ
  pub utostr : ℕ → List ℕ
  pub dialect : Bool
  pub extension : ℕ → Option (List ℕ)
  pub punct_valid : ℕ → Bool

abbrev is_some {ℓ} : {A : Type ℓ} → Option A → Bool
is_some none = false
is_some (some a) = true

abbrev or_empty : Option (List ℕ) → List ℕ
or_empty none = []
or_empty (some s) = s

-- What the loop over the characters has made: a text and whether it met an error, with what is left
-- of the string when it goes on.
pub data Turn : Type 0 where
  goes_on : List ℕ → List ℕ → Turn
  stops : Turn

module _ (r : TextRules) where
  -- A character other than `%`.
  unfoldable pub plain : ℕ → List ℕ
  plain c =
      if c == b'$'
      then b'$' ∷ b'$' ∷ []
      else if r.dialect && c == b'{'
      then b'$' ∷ b'(' ∷ []
      else if r.dialect && c == b'}'
      then b'$' ∷ b')' ∷ []
      else if r.dialect && c == b'|'
      then b'$' ∷ b'|' ∷ []
      else c ∷ []

  -- The characters behind `%`: a text and what is left, or the two errors that stop the loop. An
  -- invalid code is reported and adds nothing.
  unfoldable pub escaped : ℕ → ℕ → List ℕ → Turn
  escaped operands c s =
      let (n, rest) = r.strtoul s in
      let (m, behind) = r.strtoul (c ∷ s) in
      let own = r.extension c in
      if c == b'%'
      then goes_on (b'%' ∷ []) s
      else if c == b'='
      then goes_on (b'$' ∷ b'{' ∷ b':' ∷ b'u' ∷ b'i' ∷ b'd' ∷ b'}' ∷ []) s
      else if is_some own
      then goes_on (or_empty own) s
      else if is_alpha c
      then (if length s == length rest
          then stops
          else if leb operands n
          then stops
          else goes_on (b'$' ∷ b'{' ∷ r.utostr n ++ b':' ∷ c ∷ b'}' ∷ []) rest)
      else if is_digit c
      then goes_on (b'$' ∷ r.utostr m) behind
      else if r.punct_valid c
      then goes_on (b'$' ∷ b'{' ∷ b':' ∷ c ∷ b'}' ∷ []) s
      else goes_on [] s

  -- The loop of an extended asm, with fuel for each character. The Boolean says whether it went to the
  -- end of the string.
  unfoldable pub convert_extended : ℕ → ℕ → List ℕ → Result (List ℕ × Bool)
  convert_extended zero operands s = unreachable
  convert_extended (suc fuel) operands [] = ok ([], true)
  convert_extended (suc fuel) operands (c ∷ []) =
      if c == b'%' then unreachable else ok (plain c, true)
  convert_extended (suc fuel) operands (c ∷ d ∷ s) =
      if c == b'%'
      then elim (escaped operands d s) [
        | stops ↦ ok ([], false)
        | goes_on text rest ↦
            convert_extended fuel operands rest >>= λ (more, done). ok (text ++ more, done)
      ]
      else (convert_extended fuel operands (d ∷ s) >>= λ (more, done). ok (plain c ++ more, done))

  -- `ConvertInlineAsmStr`; `input` is `gimple_asm_input_p`.
  unfoldable pub convert_inline_asm_str : Bool → ℕ → List ℕ → Result (List ℕ × Bool)
  convert_inline_asm_str input operands s =
      if input then ok (escape_dollars s, true) else convert_extended (suc (length s)) operands s

  -- The loop of `isOperandMentioned`, with fuel for each character.
  unfoldable pub mentions : ℕ → ℕ → List ℕ → Bool
  mentions zero n s = false
  mentions (suc fuel) n [] = false
  mentions (suc fuel) n (c ∷ []) = false
  mentions (suc fuel) n (c ∷ d ∷ s) =
      let (m, rest) = r.strtoul (d ∷ s) in
      let skip = mentions fuel n s in
      let next = mentions fuel n (d ∷ s) in
      let behind = mentions fuel n rest in
      if not (c == b'%')
      then next
      else if d == b'%'
      then skip
      else if not (is_digit d)
      then next
      else if n == m
      then true
      else behind

  unfoldable pub is_operand_mentioned : Bool → ℕ → List ℕ → Bool
  is_operand_mentioned input n s = if input then false else mentions (suc (length s)) n s
