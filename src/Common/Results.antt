-- ===== src/Common/Results.antt =====
-- What a call that may throw returns.
use mathlib.Core.Path.{◌≡◌, refl}
use mathlib.Core.Logic.{◌⊎◌, inl, inr}
use mathlib.Core.Bool.{Bool, true, false}

pub data Result {ℓ κ} (E : Type κ) (A : Type ℓ) : Type (ℓ ⊔ κ) where
  ok : A → Result E A
  err : E → Result E A

-- The rest of a block after a call: an exception skips it.
abbrev pub after_call {ℓ κ μ} :
    {E : Type μ} {A : Type ℓ} {B : Type κ} → (A → Result E B) → Result E A → Result E B
after_call rest (err e) = err e
after_call rest (ok a) = rest a

infixl 5 ◌>>=◌ ◌>>◌
abbrev pub ◌>>=◌ {ℓ κ μ} :
    {E : Type μ} {A : Type ℓ} {B : Type κ} → Result E A → (A → Result E B) → Result E B
◌>>=◌ r rest = after_call rest r

abbrev pub ◌>>◌ {κ μ} : {E : Type μ} {B : Type κ} → Result E (Unit {0}) → Result E B → Result E B
◌>>◌ r rest = after_call (λ done. rest) r

-- `if (!test) throw e`
abbrev pub guard {μ} : {E : Type μ} → Bool → E → Result E (Unit {0})
guard test e = elim test [ true ↦ ok tt | false ↦ err e ]

pub Result-cases {ℓ μ} :
    {E : Type μ} {A : Type ℓ} (r : Result E A) → ((a : A) × (r ≡ ok a)) ⊎ ((e : E) × (r ≡ err e))
Result-cases (err e) = inr (e, refl)
Result-cases (ok a) = inl (a, refl)

-- A block that returns came past its first call.
pub >>=-eq-ok {ℓ κ μ} :
    {E : Type μ} {A : Type ℓ} {B : Type κ} (call : Result E A) (rest : A → Result E B)
    {returned : B}
    → call >>= rest ≡ ok returned
    → (answer : A) × (call ≡ ok answer) × (rest answer ≡ ok returned)
>>=-eq-ok (err e) rest failed = cc
>>=-eq-ok (ok answer) rest done = (answer, refl, done)
