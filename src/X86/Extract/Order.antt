-- ===== src/X86/Extract/Order.antt =====
-- The stores of `llvm_x86_extract_multiple_return_value` go through the destination in order.
use dragonegg.Base.{
  ℕ, zero, suc, ◌+◌, ◌≤◌, ◌<◌, ◌≡◌, ◌⊎◌, inr, refl, subst, arith, List, [], ◌∷◌, ◌++◌, Option, none,
  some,
}
use dragonegg.Base.Results.{ok, ok_inj}
use dragonegg.Ir.{IrType}
use dragonegg.X86.Extract.{Store, store, Progress, extract_elements}

-- The element number of a slot; a field that is no array or struct has the one slot 0.
abbrev pub elem_number : Option ℕ → ℕ
elem_number none = 0
elem_number (some e) = e

-- Every store goes to a later slot than the one before it, the first one to `(d, e)` or later.
abbrev pub Ordered : ℕ → ℕ → List Store → Type 0
Ordered d e [] = Unit
Ordered d e (s ∷ ss) =
    ((d < s.dest_field) ⊎ ((d ≡ s.dest_field) × (e ≤ elem_number s.dest_elem)))
    × Ordered s.dest_field (suc (elem_number s.dest_elem)) ss

pub Ordered-later : (d e : ℕ) (ss : List Store) → Ordered (suc d) 0 ss → Ordered d e ss
Ordered-later d e [] o = tt
Ordered-later d e (s ∷ ss) o = (ground arith, o.1)

pub elements-Ordered :
    (t : IrType) (left i sno dno delem : ℕ) (ys : List Store)
    → Ordered dno (delem + left) ys
    → Ordered dno delem (extract_elements t left i sno dno delem ++ ys)
unfolding extract_elements
elements-Ordered t zero i sno dno delem ys o = subst (λ k. Ordered dno k ys) (omega arith) o
elements-Ordered t (suc left) i sno dno delem ys o = (
  inr (refl, omega arith),
  elements-Ordered t left (suc i) sno dno (suc delem) ys
      (subst (λ k. Ordered dno k ys) (omega arith) o),
)

pub one_store-Ordered :
    (sno dno : ℕ) (ts : List IrType) (p : Progress) (ys : List Store)
    → ok (record { stores = store sno none dno none ∷ []; sno = suc sno; sources = ts }) ≡ ok p
    → Ordered (suc dno) 0 ys
    → Ordered dno 0 (p.stores ++ ys)
one_store-Ordered sno dno ts p ys e o =
    subst (λ (q : Progress). Ordered dno 0 (q.stores ++ ys)) (ok_inj e)
      (inr (refl, omega arith), Ordered-later dno 1 ys o)
