-- ===== src/Common/Ascii.antt =====
-- `toLowerCase` and `toUpperCase` on the characters that header names, host names and methods use.
use Prim.Native.Char.{Char, code}
use Prim.Native.String.{String, [], ◌∷◌}
use mathlib.Core.Path.{◌≡◌, refl}
use api_gateway_platform.Common.Tests.{eqb, if◌then◌else◌}

-- The character of `to` at the place that `c` has in `from`.
abbrev translate : String → String → Char → Char
translate [] _ c = c
translate (_ ∷ _) [] c = c
translate (a ∷ from) (b ∷ to) c = if eqb (code c) (code a) then b else translate from to c

abbrev map_chars : (Char → Char) → String → String
map_chars f [] = []
map_chars f (c ∷ s) = f c ∷ map_chars f s

-- `s.toLowerCase()`
unfoldable pub to_lower : String → String
to_lower s = map_chars (translate "ABCDEFGHIJKLMNOPQRSTUVWXYZ" "abcdefghijklmnopqrstuvwxyz") s

-- `s.toUpperCase()`
unfoldable pub to_upper : String → String
to_upper s = map_chars (translate "abcdefghijklmnopqrstuvwxyz" "ABCDEFGHIJKLMNOPQRSTUVWXYZ") s

mixed_case : to_lower "X-Api-Key" ≡ "x-api-key"
unfolding to_lower
mixed_case = refl
