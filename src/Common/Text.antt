-- ===== src/Common/Text.antt =====
-- The text functions of the language that the program uses, over native strings. Lengths and
-- positions count UTF-16 code units, as the language does; case mapping is that of ASCII.
use Prim.Native.Nat.{ℕ, ◌+◌, ◌-◌}
use Prim.Native.Char.{Char, code}
use Prim.Native.String
use Prim.Native.String.{String, [], ◌∷◌}
use mathlib.Core.Path.{◌≡◌, refl}
use mathlib.Core.Bool.{Bool, true, false, ◌&&◌, ◌||◌}
use mathlib.Core.List.{List}
use api_gateway_platform.Common.Tests.{leb, eqb, ltb, if◌then◌else◌}

abbrev pub append : String → String → String
append = String.◌++◌

-- `${a}${b}…`
abbrev pub concat : List String → String
concat List.[] = ""
concat (List.◌∷◌ s r) = append s (concat r)

-- code units of a character: two outside the basic plane
abbrev pub units : Char → ℕ
units c = if ltb (code c) 0x10000 then 1 else 2

-- `s.length`
abbrev pub text_length : String → ℕ
text_length [] = 0
text_length (c ∷ s) = units c + text_length s

abbrev pub is_blank : String → Bool
is_blank [] = true
is_blank (_ ∷ _) = false

-- `s.startsWith(t)`
abbrev pub starts_with : String → String → Bool
starts_with s [] = true
starts_with [] (d ∷ t) = false
starts_with (c ∷ s) (d ∷ t) = eqb (code c) (code d) && starts_with s t

-- `s.slice(n)`
abbrev pub slice_from : ℕ → String → String
slice_from n [] = []
slice_from n (c ∷ s) = let rest = slice_from (n - units c) s in if eqb n 0 then c ∷ s else rest

-- `s.slice(0, n)`; a character of two units that stands across the end is left out
abbrev pub slice_to : ℕ → String → String
slice_to n [] = []
slice_to n (c ∷ s) = let rest = slice_to (n - units c) s in if ltb n (units c) then [] else c ∷ rest

abbrev cons_first : Char → List String → List String
cons_first c List.[] = List.◌∷◌ (c ∷ []) List.[]
cons_first c (List.◌∷◌ s r) = List.◌∷◌ (c ∷ s) r

-- `s.split(c)`
abbrev pub split_char : ℕ → String → List String
split_char n [] = List.◌∷◌ "" List.[]
split_char n (c ∷ s) =
    let rest = split_char n s in if eqb (code c) n then List.◌∷◌ "" rest else cons_first c rest

-- `s.includes(c)` for one character
abbrev pub has_char : ℕ → String → Bool
has_char n [] = false
has_char n (c ∷ s) = eqb (code c) n || has_char n s

-- `s.split(c)[0]`
abbrev pub before_char : ℕ → String → String
before_char n [] = []
before_char n (c ∷ s) = let rest = before_char n s in if eqb (code c) n then [] else c ∷ rest

-- White space and line terminators, which `trim`, `\s` and `split(/\s+/)` remove.
abbrev pub is_space : Char → Bool
is_space c =
    let n = code c in
    leb 9 n && leb n 13
    || eqb n 32
    || eqb n 0xa0
    || eqb n 0x1680
    || leb 0x2000 n && leb n 0x200a
    || eqb n 0x2028
    || eqb n 0x2029
    || eqb n 0x202f
    || eqb n 0x205f
    || eqb n 0x3000
    || eqb n 0xfeff

abbrev pub trim_start : String → String
trim_start [] = []
trim_start (c ∷ s) = let rest = trim_start s in if is_space c then rest else c ∷ s

abbrev pub trim_end : String → String
trim_end [] = []
trim_end (c ∷ s) = let rest = trim_end s in if is_space c && is_blank rest then [] else c ∷ rest

-- `s.trim()`
abbrev pub trim : String → String
trim s = trim_end (trim_start s)

-- `s.split(/\s+/).filter(Boolean)`: `word` is the word read so far.
abbrev pub words_from : String → String → List String
words_from [] word = if is_blank word then List.[] else List.◌∷◌ word List.[]
words_from (c ∷ s) word =
    let rest = words_from s "" in
    let longer = words_from s (append word (c ∷ [])) in
    if is_space c then (if is_blank word then rest else List.◌∷◌ word rest) else longer

unfoldable pub words : String → List String
words s = words_from s ""

-- `s.replace(/^c+/, '')` and `s.replace(/c+$/, '')` for one character
abbrev pub without_first : ℕ → String → String
without_first n [] = []
without_first n (c ∷ s) = let rest = without_first n s in if eqb (code c) n then rest else c ∷ s

abbrev pub without_last : ℕ → String → String
without_last n [] = []
without_last n (c ∷ s) =
    let rest = without_last n s in if eqb (code c) n && is_blank rest then [] else c ∷ rest

-- `xs.join(sep)`
abbrev pub join : String → List String → String
join sep List.[] = ""
join sep (List.◌∷◌ s List.[]) = s
join sep (List.◌∷◌ s r) = append s (append sep (join sep r))

pub words_run : words " read  write " ≡ List.◌∷◌ "read" (List.◌∷◌ "write" List.[])
unfolding words
words_run = refl
