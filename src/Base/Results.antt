-- ===== src/Base/Results.antt =====
-- Results of code that may reach `llvm_unreachable` or a failing `assert`: both are `unreachable`.
use mathlib.Core.Path.{◌≡◌, refl}
use mathlib.Core.Logic.{◌≢◌, ◌⊎◌, inl, inr}

pub data Result {ℓ} (X : Type ℓ) : Type ℓ where
  unreachable : Result X
  ok : X → Result X

-- Goes on with the value, if the code came that far.
infixl 5 ◌>>=◌
abbrev pub ◌>>=◌ {ℓ κ} : {X : Type ℓ} {Y : Type κ} → Result X → (X → Result Y) → Result Y
unreachable >>= next = unreachable
ok x >>= next = next x

pub Result-ok {ℓ} : {A : Type ℓ} (r : Result A) → r ≢ unreachable → (a : A) × (r ≡ ok a)
Result-ok (ok a) h = (a, refl)
Result-ok unreachable h = absurd (h refl)

pub Result-cases {ℓ} : {A : Type ℓ} (r : Result A) → ((a : A) × (r ≡ ok a)) ⊎ (r ≡ unreachable)
Result-cases (ok a) = inl (a, refl)
Result-cases unreachable = inr refl

pub ok_inj {ℓ} : {A : Type ℓ} {a b : A} → ok a ≡ ok b → a ≡ b
ok_inj h = cc

-- A chain that comes to a value went through a value of its first part.
pub >>=-eq-ok {ℓ κ} :
    {X : Type ℓ} {Y : Type κ} (r : Result X) (next : X → Result Y) {y : Y} (h : (r >>= next) ≡ ok y)
    → (x : X) × (r ≡ ok x) × (next x ≡ ok y)
>>=-eq-ok unreachable next h = cc
>>=-eq-ok (ok x) next h = (x, refl, h)
