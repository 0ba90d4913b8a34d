-- ===== src/CharArrays/Words.antt =====
-- The elements that `ConvertSTRING_CST` of src/ConstantConversion.cpp makes, against the target's reading of
-- the string.
use mathlib.Core.List.{reverse, reverse_aux, reverse-reverse}
use dragonegg.Base.{
  ◌^◌, not, ◌&&◌, ℕ, zero, suc, ◌+◌, ◌-◌, ◌*◌, ◌/◌, ◌%◌, ◌≤◌, ◌<◌, ◌≡◌, inl, inr, refl, sym, ◌∙◌,
  ap, subst, arith, Bool, true, false, Bool-cases, List, [], ◌∷◌, ◌++◌, ltb, ◌==◌, if◌then◌else◌,
  length, take, drop, replicate, get_or, length-append, length-replicate, length-take, length-drop,
}
use dragonegg.Base.Results.{ok}
use dragonegg.Intervals.Sane.{All}
use dragonegg.Records.Fields.{All-reverse}
use dragonegg.CharArrays.{
  of_bytes, read_word, same_order, StringFacts, string_words, string_elements, constant_size,
  convert_string,
}

-- Element `i` as the target reads it: the word of `w` bytes at its place, and null behind the string.
abbrev pub target_element : Bool → ℕ → List ℕ → ℕ → ℕ
target_element target_big w bs i =
    if ltb i (length bs / w) then read_word target_big (take w (drop (i * w) bs)) else 0

abbrev pub AreBytes : List ℕ → Type 0
AreBytes bs = All (λ b. b < 256) bs

length-reverse_aux : (xs ys : List ℕ) → length (reverse_aux xs ys) ≡ length xs + length ys
length-reverse_aux [] ys = omega arith
length-reverse_aux (x ∷ xs) ys = omega (arith, length-reverse_aux xs (x ∷ ys))

AreBytes-take : (n : ℕ) (bs : List ℕ) → AreBytes bs → AreBytes (take n bs)
AreBytes-take zero bs h = tt
AreBytes-take (suc n) [] h = tt
AreBytes-take (suc n) (b ∷ bs) h = (h.0, AreBytes-take n bs h.1)

AreBytes-drop : (n : ℕ) (bs : List ℕ) → AreBytes bs → AreBytes (drop n bs)
AreBytes-drop zero bs h = h
AreBytes-drop (suc n) [] h = tt
AreBytes-drop (suc n) (b ∷ bs) h = AreBytes-drop n bs h.1

abbrev no_bytes : List ℕ
no_bytes = []

drop-nil : (n : ℕ) → drop n [] ≡ no_bytes
drop-nil zero = refl
drop-nil (suc n) = refl

drop-drop : (m n : ℕ) (bs : List ℕ) → drop n (drop m bs) ≡ drop (m + n) bs
drop-drop zero n bs = ap (λ (k : ℕ). drop k bs) (omega arith)
drop-drop (suc m) n [] = drop-nil n ∙ sym (drop-nil (suc m + n))
drop-drop (suc m) n (b ∷ bs) =
    let sum : suc (m + n) ≡ suc m + n = omega arith in
    drop-drop m n bs ∙ ap (λ (k : ℕ). drop k (b ∷ bs)) sum

-- One byte is itself in either order.
one_byte :
    (big_endian : Bool) (i : ℕ) (bs : List ℕ)
    → i < length bs
    → get_or bs i 0 ≡ read_word big_endian (take 1 (drop i bs))
one_byte big_endian i [] h = absurd (omega (arith, h))
one_byte true zero (b ∷ bs) h = omega arith
one_byte false zero (b ∷ bs) h = omega arith
one_byte big_endian (suc i) (b ∷ bs) h = one_byte big_endian i bs (omega (arith, h))

-- The sizes of characters in bytes.
pub data CharSize : ℕ → Type 0 where
  char8 : CharSize 1
  char16 : CharSize 2
  char32 : CharSize 4

length-taken : (w : ℕ) (bs : List ℕ) → w ≤ length bs → length (take w bs) ≡ w
length-taken w bs h = omega (arith, length-take w bs, h)

suc_times : (n m : ℕ) → suc n * m ≡ n * m + m
suc_times n m = omega arith

module _ (byte_swap : ℕ → ℕ → ℕ) (host_big target_big : Bool)
    (swaps : (bs : List ℕ)
      → AreBytes bs
      → byte_swap (length bs) (of_bytes bs) ≡ of_bytes (reverse bs)) where
  in_target_order :
      (host target : Bool) (w : ℕ) (bs : List ℕ)
      → length bs ≡ w
      → AreBytes bs
      → (if same_order host target then read_word host bs else byte_swap w (read_word host bs))
        ≡ read_word target bs
  in_target_order true true w bs h a = refl
  in_target_order false false w bs h a = refl
  in_target_order false true w bs h a =
      subst (λ (n : ℕ). byte_swap n (of_bytes bs) ≡ of_bytes (reverse bs)) h (swaps bs a)
  in_target_order true false w bs h a =
      subst (λ (n : ℕ). byte_swap n (of_bytes (reverse bs)) ≡ of_bytes bs)
        (length-reverse_aux bs [] ∙ omega (arith, h))
        (swaps (reverse bs) (All-reverse (λ b. b < 256) bs a) ∙ ap of_bytes (reverse-reverse bs))

  string_words-get_or :
      (w count i : ℕ) (bs : List ℕ)
      → AreBytes bs
      → count * w ≤ length bs
      → i < count
      → get_or (string_words byte_swap host_big target_big w count bs) i 0
        ≡ read_word target_big (take w (drop (i * w) bs))
  unfolding string_words
  string_words-get_or w zero i bs a h k = absurd (omega (arith, k))
  string_words-get_or w (suc count) zero bs a h k =
      let start : 0 ≡ 0 * w = omega arith in
      in_target_order host_big target_big w (take w bs)
        (length-taken w bs (omega (arith, h, suc_times count w))) (AreBytes-take w bs a)
      ∙ ap (λ (n : ℕ). read_word target_big (take w (drop n bs))) start
  string_words-get_or w (suc count) (suc i) bs a h k =
      let next : w + i * w ≡ suc i * w = omega (arith, suc_times i w) in
      string_words-get_or w count i (drop w bs) (AreBytes-drop w bs a)
        (omega (arith, h, suc_times count w, length-drop w bs)) (omega (arith, k))
      ∙ ap (λ (z : List ℕ). read_word target_big (take w z)) (drop-drop w (i * w) bs)
      ∙ ap (λ (n : ℕ). read_word target_big (take w (drop n bs))) next

  length-string_words :
      (w count : ℕ) (bs : List ℕ)
      → length (string_words byte_swap host_big target_big w count bs) ≡ count
  unfolding string_words
  length-string_words w zero bs = refl
  length-string_words w (suc count) bs = ap suc (length-string_words w count (drop w bs))

  -- The elements are the words that the target reads, one for each.
  abbrev Elements : ℕ → List ℕ → List ℕ → Type 0
  Elements w bs elts =
      (length elts ≡ length bs / w)
      × ((i : ℕ)
          → i < length bs / w
          → get_or elts i 0 ≡ read_word target_big (take w (drop (i * w) bs)))

  words-Elements :
      (w : ℕ) (bs : List ℕ)
      → AreBytes bs
      → length bs / w * w ≤ length bs
      → Elements w bs (string_words byte_swap host_big target_big w (length bs / w) bs)
  words-Elements w bs a h = (
    length-string_words w (length bs / w) bs,
    λ i k. string_words-get_or w (length bs / w) i bs a h k,
  )

  string_elements-Elements :
      (w : ℕ) (bs : List ℕ)
      → CharSize w
      → AreBytes bs
      → length bs % w ≡ 0
      → (elts : List ℕ) × (string_elements byte_swap host_big target_big (8 * w) bs ≡ ok elts)
        × Elements w bs elts
  unfolding string_elements
  string_elements-Elements _ bs char8 a h = (
    bs,
    refl,
    (
      omega arith,
      λ i k.
          let same : i ≡ i * 1 = omega arith in
          one_byte target_big i bs (omega (arith, k))
          ∙ ap (λ (n : ℕ). read_word target_big (take 1 (drop n bs))) same,
    ),
  )
  string_elements-Elements _ bs char16 a h = (
    string_words byte_swap host_big target_big 2 (length bs / 2) bs,
    ground (arith, h),
    words-Elements 2 bs a (omega arith),
  )
  string_elements-Elements _ bs char32 a h = (
    string_words byte_swap host_big target_big 4 (length bs / 4) bs,
    ground (arith, h),
    words-Elements 4 bs a (omega arith),
  )

  get_or-take : (n i : ℕ) (xs : List ℕ) → i < n → get_or (take n xs) i 0 ≡ get_or xs i 0
  get_or-take zero i xs h = absurd (omega (arith, h))
  get_or-take (suc n) i [] h = refl
  get_or-take (suc n) zero (x ∷ xs) h = refl
  get_or-take (suc n) (suc i) (x ∷ xs) h = get_or-take n i xs (omega (arith, h))

  get_or-zeros : (n i : ℕ) → get_or {A = ℕ} (replicate n 0) i 0 ≡ 0
  get_or-zeros zero i = refl
  get_or-zeros (suc n) zero = refl
  get_or-zeros (suc n) (suc i) = get_or-zeros n i

  get_or-padded :
      (n i : ℕ) (xs : List ℕ)
      → get_or (xs ++ replicate n 0) i 0 ≡ (if ltb i (length xs) then get_or xs i 0 else 0)
  get_or-padded n i [] = ground (arith, get_or-zeros n i)
  get_or-padded n zero (x ∷ xs) = ground arith
  get_or-padded n (suc i) (x ∷ xs) = ground (arith, get_or-padded n i xs)

  get_or-behind : (i : ℕ) (xs : List ℕ) → length xs ≤ i → get_or xs i 0 ≡ 0
  get_or-behind i [] h = refl
  get_or-behind zero (x ∷ xs) h = absurd (omega (arith, h))
  get_or-behind (suc i) (x ∷ xs) h = get_or-behind i xs (omega (arith, h))

  -- A string of whole characters of one, two or four bytes becomes an array with as many elements
  -- as its type has, if those are below 2^32, or as the string has if the type has no length: every element is the
  -- character that the target reads at its place, whatever the order of the host's bytes, and null
  -- behind the end of the string.
  pub convert_string-target_element :
      (s : StringFacts) (w : ℕ)
      → CharSize w
      → s.elt_bits ≡ 8 * w
      → s.unit_size ≡ w
      → AreBytes s.string_bytes
      → length s.string_bytes % w ≡ 0
      → s.num_elements < 2 ^ 32
      → (elts : List ℕ) × (convert_string byte_swap host_big target_big s ≡ ok elts)
        × (length elts ≡ (
            if s.num_elements == 0 && not s.has_max
            then length s.string_bytes / w
            else s.num_elements))
        × ((i : ℕ)
            → i < length elts
            → get_or elts i 0 ≡ target_element target_big w s.string_bytes i)
  unfolding convert_string constant_size
  convert_string-target_element s w c e u a h b =
      let bs = s.string_bytes in
      let (elts, made, (long, each)) = string_elements-Elements w bs c a h in
      let n = length bs / w in
      let size = constant_size byte_swap host_big target_big s in
      let target : (i : ℕ) → get_or elts i 0 ≡ target_element target_big w bs i = λ i.
        elim (Bool-cases (ltb i n)) [
          | inl l ↦ each i (ground (arith, l)) ∙ sym (rw l refl)
          | inr l ↦ get_or-behind i elts (ground (arith, l, long)) ∙ sym (rw l refl)
        ] in
      elim (Bool-cases (n == s.num_elements % 2 ^ 32)) [
        | inl f ↦ (elts, rw (e, u, made, f) refl, ground (arith, long, u, f), λ i l. target i)
        | inr f ↦ elim (Bool-cases (ltb size n)) [
          | inl g ↦ (
            take size elts,
            rw (e, u, made, f) (ground (arith, u, g)),
            ground (arith, long, g, length-take size elts),
            λ i l. get_or-take size i elts (omega (arith, l, length-take size elts)) ∙ target i,
          )
          | inr g ↦ (
            elts ++ replicate (size - n) 0,
            rw (e, u, made, f) (ground (arith, u, g)),
            ground (
              arith,
              g,
              long,
              length-append elts (replicate (size - n) 0),
              length-replicate {A = ℕ} (size - n) 0,
            ),
            λ i l. get_or-padded (size - n) i elts ∙ ground (arith, target i, long),
          )
        ]
      ]
