-- ===== src/Policies/Types.antt =====
-- packages/gateway-core/src/policies/types.ts: what a policy reads, writes and returns. A policy
-- may throw, writes to its context, and acts on the outside world `W` (stores, caches, the clock).
use api_gateway_platform.Common.{ℕ, String, Bool, true, Option, some, List}
use api_gateway_platform.Common.Maps.{insert}
use api_gateway_platform.Shared.Types.{ProxyConfig, EndpointConfig}

pub data HeaderValue : Type 0 where
  single : String → HeaderValue
  several : List String → HeaderValue

pub record ClientContext : Type 0 where
  pub app_id : String
  pub credential_id : String
  pub consumer_key : String
  pub organization_id : String
  pub workspace_id : Option String
  pub product_ids : List String
  pub scopes : List String

-- The request as the policies see it; `none` for a header that is not there.
pub record Request : Type 0 where
  pub id : String
  pub method : String
  pub url : String
  pub ip : String
  pub remote_address : Option String
  pub headers : List (String × HeaderValue)
  pub body : String

-- A value of a JSON body.
pub data Field : Type 0 where
  text : String → Field
  number : ℕ → Field

abbrev pub Body : Type 0
Body = List (String × Field)

-- `reply_headers` is what the policies wrote to the reply, `state` the flags of the context.
pub record PolicyContext : Type 0 where
  pub req : Request
  pub reply_headers : List (String × String)
  pub proxy : ProxyConfig
  pub endpoint : EndpointConfig
  pub params : List (String × String)
  pub client : Option ClientContext
  pub state : List (String × Bool)

pub data PolicyResult : Type 0 where
  continue : PolicyResult
  halt : ℕ → Body → PolicyResult
  respond : ℕ → List (String × String) → Body → PolicyResult

-- What an awaited call gives back.
pub data Try {ℓ} (A : Type ℓ) : Type ℓ where
  returned : A → Try A
  threw : Try A

-- The context and the outside world.
abbrev pub Run : Type 0 → Type 0
Run W = PolicyContext × W

abbrev pub Policy : Type 0 → Type 0
Policy W = Run W → Try PolicyResult × Run W

abbrev pub PolicyFactoryOf : Type 0 → Type 0 → Type 0
PolicyFactoryOf C W = C → Option (Policy W)

-- `ctx.state[name] = true`
abbrev pub mark : {W : Type 0} → String → Run W → Run W
mark name (ctx, w) = (record ctx { state = insert name true ctx.state }, w)

-- `ctx.reply.header(name, value)`
abbrev pub reply_header : {W : Type 0} → String → String → Run W → Run W
reply_header name value (ctx, w) =
    (record ctx { reply_headers = insert name value ctx.reply_headers }, w)

-- `ctx.client = client`
abbrev pub set_client : {W : Type 0} → ClientContext → Run W → Run W
set_client client (ctx, w) = (record ctx { client = some client }, w)
