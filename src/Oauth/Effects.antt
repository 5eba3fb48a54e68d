-- ===== src/Oauth/Effects.antt =====
-- Inversion of the awaited steps of packages/gateway-core/src/policies/oauth/oauth-token.policy.ts.
use api_gateway_platform.Common.{◌≡◌, refl, arith}
use api_gateway_platform.Policies.Types.{Try, returned, threw}
use api_gateway_platform.Oauth.Assertions.{Caught, value, replayed, failed, Io, next, call}

pub next-eq-value :
    {W A B : Type 0} (r : Caught A × W) (k : A → Io W B) {b : B} {w' : W}
    → next r k ≡ (value b, w')
    → (a : A) × (w1 : W) × (r ≡ (value a, w1)) × (k a w1 ≡ (value b, w'))
next-eq-value (value a, w1) k h = (a, w1, refl, h)
next-eq-value (replayed, w1) k h = absurd (ground arith)
next-eq-value (failed, w1) k h = absurd (ground arith)

pub call-eq-value :
    {W A : Type 0} (m : W → Try A × W) (w : W) {a : A} {w' : W}
    → call m w ≡ (value a, w')
    → m w ≡ (returned a, w')
call-eq-value {W} {A} m w {a} {w'} h = step (m w) refl
  where
    step : (r : Try A × W) → m w ≡ r → m w ≡ (returned a, w')
    step (returned b, w1) e = let k = rw (e, call) at h in ground arith
    step (threw, w1) e = let k = rw (e, call) at h in absurd (ground arith)
