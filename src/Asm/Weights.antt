-- ===== src/Asm/Weights.antt =====
-- `MatchWeight` and `ChooseConstraintTuple` of src/Convert.cpp. A pointer into a string is the rest of
-- the string; a pointer that runs past the null at the end is `unreachable`.
pub mod Best
pub mod Left
pub mod Tuple
use dragonegg.Base.{
  ℕ, zero, suc, ◌+◌, ◌-◌, ◌≡◌, Bool, true, false, not, ◌&&◌, ◌||◌, List, [], ◌∷◌, ◌++◌, ltb, leb,
  ◌==◌, if◌then◌else◌, length,
}
use dragonegg.Base.Int.{ℤ, pos, negsuc, ◌+ℤ◌, ltb_ℤ, eqb_ℤ}
use dragonegg.Base.Results.{Result, ok, unreachable, ◌>>=◌}
use dragonegg.Asm.Registers.{RegisterRules}

-- An operand: a variable in a register, which has no number if its name is not known, an integer
-- constant, or anything else.
pub data Operand : Type 0 where
  hard_register : ℕ → Operand
  bad_register integer_constant other_operand : Operand

-- The pointer is at a comma or at the end.
abbrev pub at_end : List ℕ → Bool
at_end [] = true
at_end (c ∷ s) = c == b','

-- The loop for an integer constant; each letter sets the weight anew.
unfoldable pub integer_weight : List ℕ → Result ℤ
integer_weight [] = unreachable
integer_weight (c ∷ s) =
    let rest = integer_weight s in
    if c == b'i' || c == b'n'
    then ok (pos 1)
    else if at_end s
    then ok (if c == b'm' || c == b'o' || c == b'V' then negsuc 0 else pos 0)
    else rest

module _ (r : RegisterRules) where
  -- The class of the constraint at a place in a string.
  abbrev constraint_class : List ℕ → ℕ
  constraint_class [] = r.class_of []
  constraint_class (c ∷ s) = if c == b'r' then r.general_regs else r.class_of (c ∷ s)

  -- It is a register class, and has a register.
  abbrev pub holds : List ℕ → ℕ → Bool
  holds p n = not (constraint_class p == r.no_regs) && r.in_class (constraint_class p) n

  unfoldable pub register_weight : ℕ → List ℕ → Result ℤ
  register_weight n [] = if holds [] n then ok (pos 1) else unreachable
  register_weight n (c ∷ s) =
      let rest = register_weight n s in
      if holds (c ∷ s) n then ok (pos 1) else if at_end s then ok (negsuc 0) else rest

  unfoldable pub match_weight : Operand → List ℕ → Result ℤ
  match_weight (hard_register n) p = register_weight n p
  match_weight bad_register p = ok (negsuc 0)
  match_weight integer_constant p = integer_weight p
  match_weight other_operand p = ok (pos 0)

  -- The weight of a tuple with that of one more operand.
  unfoldable pub add_weight : Operand → List ℕ → ℤ → Result ℤ
  add_weight operand p weight =
      if eqb_ℤ weight (negsuc 0)
      then ok weight
      else (match_weight operand p >>= λ w. ok (if ltb_ℤ w (pos 0) then negsuc 0 else weight +ℤ w))

abbrev pub is_modifier : ℕ → Bool
is_modifier c = c == b'*' || c == b'&' || c == b'%'

unfoldable pub past_modifiers : List ℕ → List ℕ
past_modifiers [] = []
past_modifiers (c ∷ s) = let rest = past_modifiers s in if is_modifier c then rest else c ∷ s

-- The next comma, or the end.
unfoldable pub to_comma : List ℕ → List ℕ
to_comma [] = []
to_comma (c ∷ s) = let rest = to_comma s in if c == b',' then c ∷ s else rest

abbrev pub past_one : List ℕ → List ℕ
past_one [] = []
past_one (c ∷ s) = s

-- The next alternative of an output and of an input.
unfoldable pub next_output : List ℕ → List ℕ
next_output p = past_modifiers (past_one (to_comma (past_modifiers p)))

unfoldable pub next_input : List ℕ → List ℕ
next_input p = past_one (to_comma p)

module _ (r : RegisterRules) where
  -- One choice for all operands of a kind, from a weight: the new weight and the moved pointers.
  unfoldable pub visit_outputs : List (Operand × List ℕ) → ℤ → Result (ℤ × List (Operand × List ℕ))
  visit_outputs [] weight = ok (weight, [])
  visit_outputs ((o, p) ∷ os) weight = add_weight r o (past_modifiers p) weight >>= λ w.
      visit_outputs os w >>= λ (total, moved). ok (total, (o, next_output p) ∷ moved)

  unfoldable pub visit_inputs : List (Operand × List ℕ) → ℤ → Result (ℤ × List (Operand × List ℕ))
  visit_inputs [] weight = ok (weight, [])
  visit_inputs ((o, p) ∷ os) weight = add_weight r o p weight >>= λ w.
      visit_inputs os w >>= λ (total, moved). ok (total, (o, next_input p) ∷ moved)

  -- The weights of the choices, and the pointers behind the last one.
  unfoldable pub weigh :
      ℕ
      → List (Operand × List ℕ)
      → List (Operand × List ℕ)
      → Result (List ℤ × List (Operand × List ℕ) × List (Operand × List ℕ))
  weigh zero outputs inputs = ok ([], outputs, inputs)
  weigh (suc choices) outputs inputs = visit_outputs outputs (pos 0) >>= λ (w, outs).
      visit_inputs inputs w >>= λ (v, ins).
      weigh choices outs ins >>= λ (ws, o, i). ok (v ∷ ws, o, i)

-- The choice of `CommasToSkip`: from a position on, with the greatest weight so far and its position.
unfoldable pub best_from : ℕ → ℤ → ℕ → List ℤ → ℕ
best_from i greatest at [] = at
best_from i greatest at (w ∷ ws) =
    let better = best_from (suc i) w i ws in
    let same = best_from (suc i) greatest at ws in if ltb_ℤ greatest w then better else same

abbrev pub commas_to_skip : List ℤ → ℕ
commas_to_skip ws = best_from 0 (negsuc 0) 0 ws

-- The characters before the next comma or the end.
unfoldable pub to_comma_text : List ℕ → List ℕ
to_comma_text [] = []
to_comma_text (c ∷ s) = let rest = to_comma_text s in if c == b',' then [] else c ∷ rest

-- Goes on behind a comma.
abbrev pub after_comma : (List ℕ → Result (List ℕ)) → List ℕ → Result (List ℕ)
after_comma next [] = unreachable
after_comma next (c ∷ s) = next s

-- The alternative behind some commas.
unfoldable pub alternative : ℕ → List ℕ → Result (List ℕ)
alternative zero s = ok (to_comma_text s)
alternative (suc k) s = after_comma (alternative k) (to_comma s)

-- The new strings; an output keeps its first character.
unfoldable pub shorten_outputs : ℕ → List (Operand × List ℕ) → Result (List (List ℕ))
shorten_outputs k [] = ok []
shorten_outputs k ((o, []) ∷ os) = unreachable
shorten_outputs k ((o, c ∷ s) ∷ os) =
    alternative k s >>= λ t. shorten_outputs k os >>= λ ts. ok ((c ∷ t) ∷ ts)

unfoldable pub shorten_inputs : ℕ → List (Operand × List ℕ) → Result (List (List ℕ))
shorten_inputs k [] = ok []
shorten_inputs k ((o, s) ∷ os) = alternative k s >>= λ t. shorten_inputs k os >>= λ ts. ok (t ∷ ts)

-- The pointers of the outputs, moved past the leading `=`.
unfoldable pub past_leading : List (Operand × List ℕ) → Result (List (Operand × List ℕ))
past_leading [] = ok []
past_leading ((o, []) ∷ os) = unreachable
past_leading ((o, c ∷ s) ∷ os) = past_leading os >>= λ rest. ok ((o, s) ∷ rest)

-- The sanity check on the pointers.
unfoldable pub all_at_end : List (Operand × List ℕ) → Bool
all_at_end [] = true
all_at_end ((o, []) ∷ os) = all_at_end os
all_at_end ((o, c ∷ s) ∷ os) = false

-- `ChooseConstraintTuple`.
unfoldable pub choose_constraint_tuple :
    RegisterRules
    → ℕ
    → List (Operand × List ℕ)
    → List (Operand × List ℕ)
    → Result (List (List ℕ) × List (List ℕ))
choose_constraint_tuple r choices outputs inputs =
    (if choices == 0 then ok outputs else past_leading outputs) >>= λ running.
    weigh r choices running inputs >>= λ (ws, outs, ins).
    if all_at_end outs && all_at_end ins
    then (shorten_outputs (commas_to_skip ws) outputs >>= λ o.
        shorten_inputs (commas_to_skip ws) inputs >>= λ i. ok (o, i))
    else unreachable
