-- ===== src/Examples/Strings.antt =====
-- Inline assembly of src/Convert.cpp on small strings.
use dragonegg.Base.{
  Bool, Bool-cases, List, [], arith, false, if◌then◌else◌, inl, inr, length, map, none, refl, some,
  true, ℕ, ◌%◌, ◌*◌, ◌++◌, ◌+◌, ◌-◌, ◌<◌, ◌==◌, ◌↔◌, ◌∷◌, ◌≡◌, ◌≤◌, ◌⊎◌,
}
use dragonegg.Base.Int.{ℤ, pos, negsuc, ◌≤ℤ◌}
use dragonegg.Base.Results.{ok, unreachable}
use dragonegg.Intervals.Sane.{All}
use dragonegg.Asm.{TextRules, is_digit, convert_inline_asm_str, convert_extended, escaped}
use dragonegg.Asm.Ends.{StrtoulRules, ends_in_percent, convert_inline_asm_str-ok}
use dragonegg.Asm.Registers.Only.{only_register_lem}
use dragonegg.Asm.Registers.{
  only_register, RegisterRules, Analyzed, skip_modifiers, canonicalize_constraint,
}
use dragonegg.Asm.Registers.Right.{Right, canonicalize_constraint-Right}
use dragonegg.Asm.Weights.{
  Operand, integer_constant, other_operand, integer_weight, past_leading, past_modifiers, weigh,
  commas_to_skip, choose_constraint_tuple,
}
use dragonegg.Asm.Weights.Best.{FirstGreatest, commas_to_skip-FirstGreatest, pieces}
use dragonegg.Asm.Weights.Tuple.{piece, output_piece, choose_constraint_tuple-piece}

abbrev read_digits : ℕ → List ℕ → ℕ × List ℕ
read_digits n [] = (n, [])
read_digits n (c ∷ s) = if is_digit c then read_digits (n * 10 + (c - 48)) s else (n, c ∷ s)

read_digits-end : (n : ℕ) (s : List ℕ) → (p : List ℕ) × (s ≡ p ++ (read_digits n s).1)
read_digits-end n [] = ([], refl)
read_digits-end n (c ∷ s) = elim (Bool-cases (is_digit c)) [
  | inl e ↦ let (p, f) = read_digits-end (n * 10 + (c - 48)) s in (c ∷ p, ground (arith, e, f))
  | inr e ↦ ([], ground (arith, e))
]

read_digits-le : (n : ℕ) (s : List ℕ) → length (read_digits n s).1 ≤ length s
read_digits-le n [] = omega arith
read_digits-le n (c ∷ s) = ground (arith, read_digits-le (n * 10 + (c - 48)) s)

abbrev text_rules : TextRules
text_rules = record {
  strtoul = read_digits 0;
  utostr = λ (n : ℕ). (b'0' + n % 10) ∷ [];
  dialect = true;
  extension = λ (c : ℕ). if c == b'v' then some [] else none;
  punct_valid = λ (c : ℕ). c == b'*';
}

text_rules-StrtoulRules : StrtoulRules text_rules
text_rules-StrtoulRules = record {
  end_of_string = λ s. read_digits-end 0 s;
  reads_digit = λ c s h. ground (arith, h, read_digits-le (c - 48) s);
}

-- `%%a{b|$}`, and `%1`.
abbrev escapes : List ℕ
escapes = b'%' ∷ b'%' ∷ b'a' ∷ b'{' ∷ b'b' ∷ b'|' ∷ b'$' ∷ b'}' ∷ []

abbrev operand_one : List ℕ
operand_one = b'%' ∷ b'1' ∷ []

convert_operand_one :
    convert_inline_asm_str text_rules false 2 operand_one ≡ ok (b'$' ∷ b'1' ∷ [], true)
unfolding convert_inline_asm_str convert_extended escaped
convert_operand_one = refl

convert_inline_asm_str-ok_example :
    (u : List ℕ) × (done : Bool) × (convert_inline_asm_str text_rules false 2 operand_one
      ≡ ok (u, done))
convert_inline_asm_str-ok_example =
    convert_inline_asm_str-ok text_rules text_rules-StrtoulRules false 2 operand_one
      (unfold ends_in_percent in refl)

-- Class 1 has all eight registers, class 2, which the letter `a` stands for, only register 0.
abbrev register_rules : RegisterRules
register_rules = record {
  no_regs = 0;
  general_regs = 1;
  class_of = λ (s : List ℕ). elim s [ [] ↦ 0 | c ∷ t ↦ if c == b'a' then 2 else 0 ];
  first_pseudo_register = 8;
  in_class = λ (c : ℕ) (j : ℕ). if c == 1 then true else if c == 2 then j == 0 else false;
  constraint_len = λ (s : List ℕ). 1;
  reg_name = λ (j : ℕ). b'a' ∷ b'x' ∷ [];
  address_constraints = b'i' ∷ b'm' ∷ [];
}

only_register_lem_example :
    (only_register register_rules 2 ≡ some 0)
    ↔ ((0 < 8) × ((0 == 0) ≡ true) × ((i : ℕ) → i < 8 → (i == 0) ≡ true → i ≡ 0))
only_register_lem_example = only_register_lem register_rules 2 0

nothing_analyzed-Right : Right register_rules (λ c. none)
nothing_analyzed-Right c o h = absurd cc

canonicalize_constraint-Right_example :
    (skip_modifiers register_rules (b'&' ∷ b'a' ∷ b'g' ∷ []) ≡ unreachable)
    ⊎ ((text : List ℕ) × (after fresh : Analyzed) × (canonicalize_constraint register_rules
            (b'&' ∷ b'a' ∷ b'g' ∷ [])
            (λ c. none)
          ≡ ok (text, after))
        × Right register_rules after
        × (canonicalize_constraint register_rules (b'&' ∷ b'a' ∷ b'g' ∷ []) (λ c. none)
            ≡ ok (text, fresh)))
canonicalize_constraint-Right_example =
    canonicalize_constraint-Right register_rules (b'&' ∷ b'a' ∷ b'g' ∷ []) (λ c. none)
      nothing_analyzed-Right

-- A constant that `r` would take is refused if `m` is the last letter, and taken if it is the first.
constant_rm : integer_weight (b'r' ∷ b'm' ∷ []) ≡ ok (negsuc 0)
unfolding integer_weight
constant_rm = refl

constant_mr : integer_weight (b'm' ∷ b'r' ∷ []) ≡ ok (pos 0)
unfolding integer_weight
constant_mr = refl

-- `=r,m` for an output and `m,i` for a constant.
abbrev one_output : List (Operand × List ℕ)
one_output = (other_operand, b'=' ∷ b'r' ∷ b',' ∷ b'm' ∷ []) ∷ []

abbrev one_input : List (Operand × List ℕ)
one_input = (integer_constant, b'm' ∷ b',' ∷ b'i' ∷ []) ∷ []

choose_constraint_tuple-piece_example :
    (ws : List ℤ) × (running o i : List (Operand × List ℕ)) × (past_leading one_output ≡ ok running)
    × (weigh register_rules 2 running one_input ≡ ok (ws, o, i))
    × (commas_to_skip ws < 2)
    × (choose_constraint_tuple register_rules 2 one_output one_input
        ≡ ok (
          map (output_piece (commas_to_skip ws)) one_output,
          map (λ (x : Operand × List ℕ). piece (commas_to_skip ws) x.1) one_input,
        ))
choose_constraint_tuple-piece_example =
    choose_constraint_tuple-piece register_rules 1 one_output one_input
      (unfold pieces past_modifiers in ((refl, (refl, (refl, tt))), tt))
      (unfold pieces in ((refl, (refl, (refl, tt))), tt))

commas_to_skip-FirstGreatest_example :
    ((commas_to_skip (pos 0 ∷ pos 1 ∷ []) ≡ 0) × All (λ v. v ≤ℤ negsuc 0) (pos 0 ∷ pos 1 ∷ []))
    ⊎ FirstGreatest (negsuc 0) (pos 0 ∷ pos 1 ∷ []) (commas_to_skip (pos 0 ∷ pos 1 ∷ []))
commas_to_skip-FirstGreatest_example = commas_to_skip-FirstGreatest (pos 0 ∷ pos 1 ∷ [])
