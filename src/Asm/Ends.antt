-- ===== src/Asm/Ends.antt =====
-- That the loops of `ConvertInlineAsmStr` and `isOperandMentioned` in src/Convert.cpp stop inside their string.
use dragonegg.Base.{
  ℕ, zero, suc, ◌≤◌, ◌<◌, ◌≡◌, refl, sym, subst, arith, inl, inr, Bool, true, false, Bool-cases,
  List, [], ◌∷◌, ◌++◌, ◌==◌, length,
}
use dragonegg.Base.Results.{ok}
use dragonegg.Asm.{
  mentions, TextRules, Turn, goes_on, stops, is_digit, plain, escaped, convert_extended,
  convert_inline_asm_str,
}

-- The last character is `%`.
unfoldable pub ends_in_percent : List ℕ → Bool
ends_in_percent [] = false
ends_in_percent (c ∷ []) = c == b'%'
ends_in_percent (c ∷ d ∷ s) = ends_in_percent (d ∷ s)

ends_in_percent-tail :
    (c : ℕ) (s : List ℕ) → ends_in_percent (c ∷ s) ≡ false → ends_in_percent s ≡ false
unfolding ends_in_percent
ends_in_percent-tail c [] h = refl
ends_in_percent-tail c (d ∷ s) h = h

ends_in_percent-append :
    (p s : List ℕ) → ends_in_percent (p ++ s) ≡ false → ends_in_percent s ≡ false
ends_in_percent-append [] s h = h
ends_in_percent-append (c ∷ p) s h = ends_in_percent-append p s (ends_in_percent-tail c (p ++ s) h)

length-append_le : (p s : List ℕ) → length s ≤ length (p ++ s)
length-append_le [] s = omega arith
length-append_le (c ∷ p) s = omega (arith, length-append_le p s)

-- What the C library says of `strtoul`: it leaves an end of the string, and reads a digit.
pub record StrtoulRules (r : TextRules) : Type 0 where
  pub end_of_string : (s : List ℕ) → (p : List ℕ) × (s ≡ p ++ (r.strtoul s).1)
  pub reads_digit :
      (c : ℕ) (s : List ℕ) → is_digit c ≡ true → length (r.strtoul (c ∷ s)).1 ≤ length s

module _ (r : TextRules) (l : StrtoulRules r) where
  -- What is left behind an escape is an end of the string.
  abbrev LeftBehind : List ℕ → Turn → Type 0
  LeftBehind s stops = Unit
  LeftBehind s (goes_on text rest) = (length rest ≤ length s) × (ends_in_percent rest ≡ false)

  left_by_strtoul :
      (s : List ℕ)
      → ends_in_percent s ≡ false
      → (length (r.strtoul s).1 ≤ length s) × (ends_in_percent (r.strtoul s).1 ≡ false)
  left_by_strtoul s h =
      let (p, e) = l.end_of_string s in
      (
        subst (λ (t : List ℕ). length (r.strtoul s).1 ≤ length t) (sym e)
            (length-append_le p (r.strtoul s).1),
        ends_in_percent-append p (r.strtoul s).1
            (subst (λ (t : List ℕ). ends_in_percent t ≡ false) e h),
      )

  escaped-LeftBehind :
      (operands c : ℕ) (s : List ℕ)
      → ends_in_percent (c ∷ s) ≡ false
      → LeftBehind s (escaped r operands c s)
  unfolding escaped
  escaped-LeftBehind operands c s h = ground (
    arith,
    ends_in_percent-tail c s h,
    left_by_strtoul s (ends_in_percent-tail c s h),
    left_by_strtoul (c ∷ s) h,
    l.reads_digit c s,
  )

  behind_escape :
      (fuel operands c d : ℕ) (s : List ℕ)
      → ((rest : List ℕ)
          → length rest ≤ length s
          → ends_in_percent rest ≡ false
          → (v : List ℕ × Bool) × (convert_extended r fuel operands rest ≡ ok v))
      → (c == b'%') ≡ true
      → (t : Turn) → escaped r operands d s ≡ t
      → LeftBehind s t
      → (v : List ℕ × Bool) × (convert_extended r (suc fuel) operands (c ∷ d ∷ s) ≡ ok v)
  unfolding convert_extended
  behind_escape fuel operands c d s later f stops x b = (([], false), rw f (rw x refl))
  behind_escape fuel operands c d s later f (goes_on text rest) x b =
      let (v, g) = later rest b.0 b.1 in ((text ++ v.0, v.1), rw f (rw x (rw g refl)))

  -- With fuel for each character, the loop comes to a value.
  convert_extended-ok :
      (fuel operands : ℕ) (s : List ℕ)
      → length s < fuel
      → ends_in_percent s ≡ false
      → (v : List ℕ × Bool) × (convert_extended r fuel operands s ≡ ok v)
  unfolding convert_extended ends_in_percent
  convert_extended-ok zero operands s h e = absurd (omega arith)
  convert_extended-ok (suc fuel) operands [] h e = (([], true), refl)
  convert_extended-ok (suc fuel) operands (c ∷ []) h e = ((plain r c, true), rw e refl)
  convert_extended-ok (suc fuel) operands (c ∷ d ∷ s) h e = elim (Bool-cases (c == b'%')) [
    | inl f ↦
        behind_escape fuel operands c d s
          (λ rest k g. convert_extended-ok fuel operands rest (omega arith) g) f
          (escaped r operands d s) refl (escaped-LeftBehind operands d s e)
    | inr f ↦
        let (v, g) = convert_extended-ok fuel operands (d ∷ s) (omega arith) e in
        ((plain r c ++ v.0, v.1), rw f (rw g refl))
  ]

  -- For a string that does not end in `%`, the conversion ends, and never reads past the string's end.
  pub convert_inline_asm_str-ok :
      (input : Bool) (operands : ℕ) (s : List ℕ)
      → ends_in_percent s ≡ false
      → (u : List ℕ) × (done : Bool) × (convert_inline_asm_str r input operands s ≡ ok (u, done))
  unfolding convert_inline_asm_str
  convert_inline_asm_str-ok true operands s e = (_, true, refl)
  convert_inline_asm_str-ok false operands s e =
      let (v, g) = convert_extended-ok (suc (length s)) operands s (omega arith) e in (v.0, v.1, g)

  -- Fuel for each character is enough for the search for an operand: one more changes nothing.
  mentions_enough :
      (fuel n : ℕ) (s : List ℕ) → length s < fuel → mentions r fuel n s ≡ mentions r (suc fuel) n s
  unfolding mentions
  mentions_enough zero n s h = absurd (omega arith)
  mentions_enough (suc fuel) n [] h = refl
  mentions_enough (suc fuel) n (c ∷ []) h = refl
  mentions_enough (suc fuel) n (c ∷ d ∷ s) h =
      let behind = (r.strtoul (d ∷ s)).1 in
      ground (
        arith,
        mentions_enough fuel n s (omega arith),
        mentions_enough fuel n (d ∷ s) (omega arith),
        λ (e : is_digit d ≡ true).
            mentions_enough fuel n behind (omega (arith, l.reads_digit d s e)),
      )
