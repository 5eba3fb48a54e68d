-- ===== src/Egress/Security.antt =====
-- packages/lab-egress/src/security.ts: public addresses, headers and target URLs. `is_ip` is that of
-- `node:net`: 4, 6, or 0 for a text that is no address.
use Prim.Native.Char.{code}
use api_gateway_platform.Common.{
  ℕ, ◌+◌, ◌-◌, ◌*◌, String, Bool, true, false, not, ◌&&◌, ◌||◌, Option, none, some, List, [], ◌∷◌,
  all, any, filter, includes, eqb, leb, if◌then◌else◌, ◌==◌, length,
}
use api_gateway_platform.Common.Ascii.{to_lower}
use api_gateway_platform.Common.Text.{starts_with, slice_from, split_char, is_blank}
use api_gateway_platform.Policies.Types.{HeaderValue}

abbrev pub Headers : Type 0
Headers = List (String × HeaderValue)

abbrev pub blocked_headers : List String
blocked_headers =
    "authorization" ∷ "connection" ∷ "cookie" ∷ "host" ∷ "keep-alive" ∷ "proxy-authenticate"
    ∷ "proxy-authorization" ∷ "set-cookie" ∷ "te" ∷ "trailer" ∷ "transfer-encoding" ∷ "upgrade"
    ∷ "x-forwarded-for" ∷ "x-forwarded-host" ∷ "x-forwarded-proto" ∷ "x-gateway-client-cert-sha256"
    ∷ "x-proxy-id" ∷ []

-- `Number(text)` of decimal digits
abbrev number_from : ℕ → String → ℕ
number_from n String.[] = n
number_from n (String.◌∷◌ c s) = number_from (10 * n + (code c - b'0')) s

abbrev is_digits_only : String → Bool
is_digits_only String.[] = true
is_digits_only (String.◌∷◌ c s) = leb b'0' (code c) && leb (code c) b'9' && is_digits_only s

-- `\d+`
abbrev is_number : String → Bool
is_number s = not (is_blank s) && is_digits_only s

-- `replace(/^\[|\]$/gu, '')`
abbrev without_open : String → String
without_open s = if starts_with s "[" then slice_from 1 s else s

abbrev without_close : String → String
without_close String.[] = ""
without_close (String.◌∷◌ c s) =
    let rest = without_close s in if eqb (code c) b']' && is_blank s then "" else String.◌∷◌ c rest

unfoldable pub is_public_v4 : List String → Bool
is_public_v4 (first ∷ second ∷ _) =
    let a = number_from 0 first in
    let b = number_from 0 second in
    not (
      eqb a 0
      || eqb a 10
      || eqb a 127
      || eqb a 169 && eqb b 254
      || eqb a 172 && leb 16 b && leb b 31
      || eqb a 192 && eqb b 168
      || leb 224 a)
is_public_v4 _ = true

-- `match(/^::ffff:(\d+\.\d+\.\d+\.\d+)$/u)?.[1]`
abbrev mapped_address : String → Option String
mapped_address s =
    let rest = slice_from 7 s in
    let parts = split_char b'.' rest in
    if starts_with s "::ffff:" && eqb (length parts) 4 && all is_number parts
    then some rest
    else none

-- `/^fe[89ab]/u`
abbrev is_link_local : String → Bool
is_link_local s = any (starts_with s) ("fe8" ∷ "fe9" ∷ "fea" ∷ "feb" ∷ [])

abbrev is_public_v6 : String → Bool
is_public_v6 s = not (
    s == "::"
    || s == "::1"
    || starts_with s "fc"
    || starts_with s "fd"
    || is_link_local s
    || starts_with s "ff")

module _ (is_ip : String → ℕ) where
  -- The address that a mapped one holds has digits and dots only, so no third round is needed.
  abbrev check_address : (String → Bool) → String → Bool
  check_address mapped address =
      let normalized = without_close (without_open (to_lower address)) in
      if eqb (is_ip normalized) 4
      then is_public_v4 (split_char b'.' normalized)
      else if eqb (is_ip normalized) 6
      then elim (mapped_address normalized) [
        | some inner ↦ mapped inner
        | none ↦ is_public_v6 normalized
      ]
      else false

  unfoldable pub is_public_address : String → Bool
  unfolding is_public_v4 to_lower
  is_public_address address = check_address (check_address (λ _. false)) address

unfoldable pub safe_request_headers : Headers → Headers
safe_request_headers headers = filter (λ h. not (includes blocked_headers (to_lower h.0))) headers

unfoldable pub safe_response_headers : Headers → Headers
safe_response_headers headers =
    filter
      (λ h. not (includes blocked_headers (to_lower h.0)) && not (to_lower h.0 == "content-length"))
      headers

unfoldable pub without_request_body_headers : Headers → Headers
without_request_body_headers headers =
    filter
      (λ h. not (
        includes ("content-encoding" ∷ "content-language" ∷ "content-length" ∷ "content-type" ∷ [])
          (to_lower h.0)))
      headers
