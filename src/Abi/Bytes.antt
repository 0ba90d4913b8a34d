-- ===== src/Abi/Bytes.antt =====
-- `PassInIntegerRegisters` of src/DefaultABI.cpp passes every byte once.
use dragonegg.Base.{
  ◌^◌, ℕ, zero, suc, ◌+◌, ◌*◌, ◌/◌, ◌%◌, ◌<◌, ◌≡◌, ◌⊎◌, arith, Bool, false, ◌||◌, List, [], ◌∷◌,
  ◌++◌, none, some, ltb, leb, ◌==◌, if◌then◌else◌,
}
use dragonegg.Base.Results.{ok}
use dragonegg.Ir.{IrType, int, array, struct_of}
use dragonegg.Client.{Event, State, scalar, enter, exit, emit}
use dragonegg.Abi.{
  Tree, info, Hooks, pass_field, leftover_type, pass_elements, pass_array, pass_leftover,
  pass_integers, pass_in_integer_registers, array_field, leftover_field,
}

module _ (alloc_size : IrType → ℕ) where
  -- The bytes that the client reads for its scalar arguments: the real size, or the type's.
  unfoldable pub bytes : List (Event Tree) → ℕ
  bytes [] = 0
  bytes (scalar t o r ∷ es) = (if r == 0 then alloc_size t else r) + bytes es
  bytes (e ∷ es) = bytes es

  bytes-append : (es fs : List (Event Tree)) → bytes (es ++ fs) ≡ bytes es + bytes fs
  unfolding bytes
  bytes-append [] fs = omega arith
  bytes-append (scalar t o r ∷ es) fs = omega (arith, bytes-append es fs)
  bytes-append (e ∷ es) fs = bytes-append es fs

  bytes-pass_field :
      (sty : IrType) (i : ℕ) (t : IrType) (r : ℕ) (s : State Tree)
      → bytes (pass_field sty i t r s).events
        ≡ bytes s.events + (if r == 0 then alloc_size t else r)
  unfolding bytes
  bytes-pass_field sty i t r s = omega (
    arith,
    bytes-append ((s.events ++ enter i sty ∷ []) ++ scalar t none r ∷ []) (exit ∷ []),
    bytes-append (s.events ++ enter i sty ∷ []) (scalar t none r ∷ []),
    bytes-append s.events (enter i sty ∷ []),
  )

  bytes-pass_elements :
      (aty elt : IrType) (left j : ℕ) (s : State Tree)
      → bytes (pass_elements aty elt left j s).events ≡ bytes s.events + left * alloc_size elt
  unfolding pass_elements
  bytes-pass_elements aty elt zero j s = omega arith
  bytes-pass_elements aty elt (suc left) j s = ground (
    arith,
    bytes-pass_elements aty elt left (suc j) (pass_field aty j elt 0 s),
    bytes-pass_field aty j elt 0 s,
  )

  bytes-pass_array :
      (sty aty elt : IrType) (n : ℕ) (s : State Tree)
      → bytes (pass_array sty aty elt n s).events ≡ bytes s.events + n * alloc_size elt
  unfolding pass_array bytes
  bytes-pass_array sty aty elt n s = ground (
    arith,
    bytes-pass_elements aty elt n 0 (emit s (enter 0 sty)),
    bytes-append s.events (enter 0 sty ∷ []),
    bytes-append (pass_elements aty elt n 0 (emit s (enter 0 sty))).events (exit ∷ []),
  )

  -- A field that is read whole or with its real size.
  bytes-leftover_field :
      (sty : IrType) (i size : ℕ) (t : IrType) (s : State Tree)
      → 0 < size
      → bytes (pass_field sty i t (if size == alloc_size t then 0 else size) s).events
        ≡ bytes s.events + size
  bytes-leftover_field sty i size t s h =
      ground (arith, bytes-pass_field sty i t (if size == alloc_size t then 0 else size) s)

  bytes-pass_leftover :
      (sty : IrType) (i size : ℕ) (s : State Tree)
      → bytes (pass_leftover alloc_size sty i size s).events ≡ bytes s.events + size
  unfolding pass_leftover leftover_type
  bytes-pass_leftover sty i size s = ground (
    arith,
    λ (h : 0 < size). bytes-leftover_field sty i size (int 8) s h,
    λ (h : 0 < size). bytes-leftover_field sty i size (int 16) s h,
    λ (h : 0 < size). bytes-leftover_field sty i size (int 32) s h,
    λ (h : 0 < size). bytes-leftover_field sty i size (int 64) s h,
  )

  bytes-pass_integers :
      (element_size size : ℕ) (s : State Tree)
      → (element_size ≡ 8) ⊎ (element_size ≡ 4)
      → alloc_size (int 32) ≡ 4
      → alloc_size (int 64) ≡ 8
      → bytes (pass_integers alloc_size element_size size s).events ≡ bytes s.events + size
  unfolding pass_integers
  bytes-pass_integers element_size size s h h32 h64 =
      let elt = int (if element_size == 8 then 64 else 32) in
      let n = size / element_size in
      let left = (if ltb 0 n then size % element_size else size) in
      let aty = array elt n in
      let sty = struct_of false (array_field aty n ++ leftover_field left) in
      ground (
        arith,
        bytes-pass_leftover sty (if ltb 0 n then 1 else 0) left (pass_array sty aty elt n s),
        bytes-pass_array sty aty elt n s,
      )

-- A type of constant size: the function returns, and what it has the client read is the size
-- that is asked for, or that of the type reduced modulo 2^32, whichever integers it chooses (if the data layout
-- stores 32 and 64 bit integers in 4 and 8 bytes).
pub pass_in_integer_registers-bytes :
    (h : Hooks) (t : Tree) (size bits : ℕ) (dont_check : Bool) (s : State Tree)
    → h.alloc_size (int 32) ≡ 4
    → h.alloc_size (int 64) ≡ 8
    → (info t).size_bits ≡ some bits
    → (u : State Tree) × (pass_in_integer_registers h t size dont_check s ≡ ok u)
      × (bytes h.alloc_size u.events
          ≡ bytes h.alloc_size s.events + (if ltb 0 size then size else bits / 8 % 2 ^ 32))
unfolding pass_in_integer_registers
pass_in_integer_registers-bytes h t size bits dont_check s h32 h64 e =
    let element_size : ℕ =
      (if dont_check || leb h.int64_align ((info t).align_bits / 8) then 8 else 4) in
    let n = (if ltb 0 size then size else bits / 8 % 2 ^ 32) in
    (
      pass_integers h.alloc_size element_size n s,
      ground arith,
      bytes-pass_integers h.alloc_size element_size n s (ground arith) h32 h64,
    )
