-- ===== src/Common/Decimal.antt =====
-- `String(n)` of a non-negative integer, by recursion on the accessibility of `n`.
use mathlib.Core.WellFounded.{Acc, WellFounded}
use mathlib.Core.Logic.{dite}
use Prim.Native.Nat.{ℕ, zero, suc, ◌<◌, ◌/◌, ◌%◌}
use Prim.Native.String.{String}
use mathlib.Core.Path.{◌≡◌, refl}
use native.Mathlib.Omega.{arith}
use native.Mathlib.Decide.{dec_lt}
use api_gateway_platform.Common.Tests.{eqb, if◌then◌else◌}
use api_gateway_platform.Common.Text.{append}

Acc-below : (k n : ℕ) → n < k → Acc ◌<◌ n
Acc-below zero n h = elim h [ ]
Acc-below (suc k) n h = Acc.intro n (λ m hm. Acc-below k m (omega arith))

unfoldable pub lt_wf : WellFounded ◌<◌
unfolding Acc-below
lt_wf = record { apply = λ n. Acc-below (suc n) n (omega arith) }

abbrev digit : ℕ → String
digit d =
    if eqb d 0
    then "0"
    else if eqb d 1
    then "1"
    else if eqb d 2
    then "2"
    else if eqb d 3
    then "3"
    else if eqb d 4
    then "4"
    else if eqb d 5
    then "5"
    else if eqb d 6
    then "6"
    else if eqb d 7
    then "7"
    else if eqb d 8
    then "8"
    else "9"

show_acc : (n : ℕ) → Acc ◌<◌ n → String
show_acc n (Acc.intro _ smaller) =
    dite (dec_lt n 10) (λ _. digit n)
      (λ h. append (show_acc (n / 10) (smaller (n / 10) (omega arith))) (digit (n % 10)))

unfoldable pub show : ℕ → String
unfolding show_acc lt_wf dec_lt
show n = show_acc n (lt_wf.apply n)

show_runs : show 20350 ≡ "20350"
unfolding show
show_runs = refl
