-- ===== src/Common/Chains.antt =====
-- A block of calls that may throw, whose links stay shut where a proof takes it apart.
use mathlib.Core.Path.{◌≡◌, refl, sym, ap, ◌∙◌}
use mathlib.Core.Bool.{Bool, true, false}
use mathlib.Core.Option.{Option, none, some}
use mathlib.Core.List.{List, [], ◌∷◌}
use api_gateway_platform.Common.Results.{Result, ok, err}

infixl 5 ◌>>=◌ ◌>>◌
unfoldable pub ◌>>=◌ {ℓ κ μ} :
    {E : Type μ} {A : Type ℓ} {B : Type κ} → Result E A → (A → Result E B) → Result E B
◌>>=◌ (err e) rest = err e
◌>>=◌ (ok a) rest = rest a

unfoldable pub ◌>>◌ {κ μ} :
    {E : Type μ} {B : Type κ} → Result E (Unit {0}) → Result E B → Result E B
◌>>◌ (err e) rest = err e
◌>>◌ (ok _) rest = rest

-- `if (!test) throw e`
unfoldable pub guard {μ} : {E : Type μ} → Bool → E → Result E (Unit {0})
guard true e = ok tt
guard false e = err e

-- `if (!value) throw e`
unfoldable pub require {ℓ μ} : {E : Type μ} {A : Type ℓ} → Option A → E → Result E A
require none e = err e
require (some a) e = ok a

-- A block that returns came past each of its calls.
pub then_returns {ℓ κ μ} :
    {E : Type μ} {A : Type ℓ} {B : Type κ} {call : Result E A} {rest : A → Result E B} {b : B}
    → call >>= rest ≡ ok b
    → (a : A) × (call ≡ ok a) × (rest a ≡ ok b)
unfolding ◌>>=◌
then_returns {call} {rest} h = split call rest h
  where
    split :
        {E : Type μ} {A : Type ℓ} {B : Type κ} (call : Result E A) (rest : A → Result E B) {b : B}
        → call >>= rest ≡ ok b
        → (a : A) × (call ≡ ok a) × (rest a ≡ ok b)
    split (err e) rest h = cc
    split (ok a) rest h = (a, refl, h)

pub next_returns {κ μ} :
    {E : Type μ} {B : Type κ} {call : Result E (Unit {0})} {rest : Result E B} {b : B}
    → call >> rest ≡ ok b
    → (call ≡ ok tt) × (rest ≡ ok b)
unfolding ◌>>◌
next_returns {call} {rest} h = split call rest h
  where
    split :
        {E : Type μ} {B : Type κ} (call : Result E (Unit {0})) (rest : Result E B) {b : B}
        → call >> rest ≡ ok b
        → (call ≡ ok tt) × (rest ≡ ok b)
    split (err e) rest h = cc
    split (ok tt) rest h = (refl, h)

pub guard_returns {μ} :
    {E : Type μ} (test : Bool) (e : E) {u : Unit {0}} → guard test e ≡ ok u → test ≡ true
unfolding guard
guard_returns true e h = refl
guard_returns false e h = cc

pub require_returns {ℓ μ} :
    {E : Type μ} {A : Type ℓ} (o : Option A) (e : E) {a : A} → require o e ≡ ok a → o ≡ some a
unfolding require
require_returns none e h = cc
require_returns (some b) e {a} h = ap (λ r. elim r [ ok x ↦ some x | err _ ↦ some b ]) h

-- A check that passes is passed by.
pub guard_then {κ μ} :
    {E : Type μ} {B : Type κ} (test : Bool) (e : E) (rest : Result E B) {b : B}
    → test ≡ true
    → rest ≡ ok b
    → guard test e >> rest ≡ ok b
unfolding ◌>>◌ guard
guard_then test e rest h k = rw h k

-- `for (const a of xs)`, with a body that may throw
unfoldable pub for_all {ℓ μ} :
    {A : Type ℓ} {E : Type μ} → (A → Result E (Unit {0})) → List A → Result E (Unit {0})
for_all body [] = ok tt
for_all body (a ∷ xs) = body a >> for_all body xs

-- `xs.map(f)`, with a function that may throw
unfoldable pub each {ℓ κ μ} :
    {A : Type ℓ} {B : Type κ} {E : Type μ} → (A → Result E B) → List A → Result E (List B)
each f [] = ok []
each f (a ∷ xs) = f a >>= (λ b. each f xs >>= (λ bs. ok (b ∷ bs)))

pub passes_then {κ μ} :
    {E : Type μ} {B : Type κ} (call : Result E (Unit {0})) (rest : Result E B) {b : B}
    → call ≡ ok tt
    → rest ≡ ok b
    → call >> rest ≡ ok b
unfolding ◌>>◌
passes_then call rest h k = rw h k

-- `ok` is injective.
pub same_returns {ℓ μ} :
    {E : Type μ} {A : Type ℓ} {a b : A} {r : Result E A} → r ≡ ok a → r ≡ ok b → a ≡ b
same_returns {a} h k = ap (λ r. elim r [ ok x ↦ x | err _ ↦ a ]) (sym h ∙ k)

-- What a function returns passes a check, if each of its values does.
pub for_all-each {ℓ κ μ} :
    {A : Type ℓ} {B : Type κ} {E : Type μ} (f : A → Result E B) (body : B → Result E (Unit {0}))
    (xs : List A) (ys : List B)
    → ((a : A) (b : B) → f a ≡ ok b → body b ≡ ok tt)
    → each f xs ≡ ok ys
    → for_all body ys ≡ ok tt
unfolding for_all each
for_all-each f body [] ys good h = rw (sym (same_returns refl h)) refl
for_all-each f body (a ∷ xs) ys good h =
    let (b, first, h) = then_returns h in
    let (bs, others, h) = then_returns h in
    rw (sym (same_returns refl h))
      (passes_then (body b) _ (good a b first) (for_all-each f body xs bs good others))
