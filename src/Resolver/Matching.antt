-- ===== src/Resolver/Matching.antt =====
-- The matcher of compiled endpoint paths against what the regular expression means.
use Prim.Native.Char.{Char, code}
use Prim.Native.String.{String, [], ◌∷◌}
use mathlib.Core.List.{List}
use mathlib.Core.Option
use api_gateway_platform.Common.{
  ◌≡◌, refl, ◌≢◌, inl, inr, true, Option, none, some, eqb, eqb_iff, ◌==◌, eq_iff, arith, Bool-cases,
  Option-cases, is_some,
}
use api_gateway_platform.Resolver.Template.{Part, lit, param, match_parts, take_group}

-- A group `([^/]+)`: the text begins with `v`, which is not empty and holds no slash, and goes on
-- with the last argument.
pub data Group : String → String → String → Type 0 where
  one : {c : Char} {s : String} → code c ≢ b'/' → Group (c ∷ []) (c ∷ s) s
  more : {c : Char} {v s r : String} → code c ≢ b'/' → Group v s r → Group (c ∷ v) (c ∷ s) r

-- `^parts/?$` matches the text with these groups.
pub data Matches : List Part → String → List String → Type 0 where
  done : Matches List.[] [] List.[]
  slash : {s : String} → s ≡ "/" → Matches List.[] s List.[]
  char :
      {c d : Char} {ps : List Part} {s : String} {vs : List String}
      → code c ≡ code d
      → Matches ps s vs
      → Matches (List.◌∷◌ (lit c) ps) (d ∷ s) vs
  group :
      {k : String} {ps : List Part} {v s r : String} {vs : List String}
      → Group v s r
      → Matches ps r vs
      → Matches (List.◌∷◌ (param k) ps) s (List.◌∷◌ v vs)

module _ (rest : String → Option (List String)) where
  take_group_sound :
      (s v : String) (vs : List String)
      → take_group rest s ≡ some (v, vs)
      → (r : String) × Group v s r × (rest r ≡ some vs)
  unfolding take_group
  take_group_sound [] v vs h = cc
  take_group_sound (c ∷ s) v vs h = elim (Bool-cases (eqb (code c) b'/')) [
    | inl stop ↦ absurd (ground arith)
    | inr free ↦
        let plain : code c ≢ b'/' = ground arith in
        elim (Option-cases (take_group rest s)) [
          | inr ((w, ws), found) ↦
              let (r, g, e) = take_group_sound s w ws found in
              let ev : (c ∷ w) ≡ v = ground arith in
              let es : ws ≡ vs = ground arith in (r, rw (← ev) (more plain g), rw (← es) e)
          | inl missing ↦ elim (Option-cases (rest s)) [
            | inl stuck ↦ absurd (ground arith)
            | inr (ws, found) ↦
                let ev : (c ∷ []) ≡ v = ground arith in
                let es : ws ≡ vs = ground arith in (s, rw (← ev) (one plain), rw (← es) found)
          ]
        ]
  ]

  take_group_complete :
      {v s r : String} (vs : List String)
      → Group v s r
      → rest r ≡ some vs
      → is_some (take_group rest s) ≡ true
  unfolding take_group
  take_group_complete vs (one {c} {s} plain) e = ground arith
  take_group_complete vs (more {c} {v} {s} {r} plain g) e =
      ground (arith, take_group_complete vs g e)

match_parts_sound :
    (ps : List Part) (s : String) (vs : List String) → match_parts ps s ≡ some vs → Matches ps s vs
unfolding match_parts
match_parts_sound List.[] s vs h = elim (Bool-cases (s == "")) [
  | inl e ↦
      let same : vs ≡ List.[] = ground arith in
      let empty : s ≡ "" = (eq_iff _ _).0 e in rw (same, empty) done
  | inr n ↦
      let same : vs ≡ List.[] = ground arith in
      let ended : (s == "/") ≡ true = ground arith in rw same (slash ((eq_iff _ _).0 ended))
]
match_parts_sound (List.◌∷◌ (lit c) ps) [] vs h = cc
match_parts_sound (List.◌∷◌ (lit c) ps) (d ∷ s) vs h = elim (Bool-cases (eqb (code c) (code d))) [
  | inl same ↦ char ((eqb_iff _ _).0 same) (match_parts_sound ps s vs (ground arith))
  | inr other ↦ absurd (ground arith)
]
match_parts_sound (List.◌∷◌ (param k) ps) s vs h =
    elim (Option-cases (take_group (match_parts ps) s)) [
      | inl missing ↦ absurd (ground arith)
      | inr ((v, ws), found) ↦
          let (r, g, e) = take_group_sound (match_parts ps) s v ws found in
          let same : List.◌∷◌ v ws ≡ vs = ground arith in
          rw (← same) (group g (match_parts_sound ps r ws e))
    ]

is_some-map :
    {A B : Type 0} (f : A → B) (o : Option A) → is_some o ≡ true → is_some (Option.map f o) ≡ true
is_some-map f none h = cc
is_some-map f (some a) h = refl

match_parts_complete :
    {ps : List Part} {s : String} {vs : List String}
    → Matches ps s vs
    → is_some (match_parts ps s) ≡ true
unfolding match_parts
match_parts_complete done = refl
match_parts_complete (slash {s} e) = rw e
match_parts_complete (char {c} {d} e m) =
    rw ((eqb_iff (code c) (code d)).1 e) (match_parts_complete m)
match_parts_complete (group {k} {ps} {v} {s} {r} {vs} g m) =
    elim (Option-cases (match_parts ps r)) [
      | inl missing ↦ let kept = match_parts_complete m in absurd (ground arith)
      | inr (ws, found) ↦ is_some-map _ _ (take_group_complete (match_parts ps) ws g found)
    ]

-- The matcher answers with groups exactly when the expression matches the text with some groups,
-- and those that it answers with are such.
pub match_parts_iff :
    (ps : List Part) (s : String)
    → ((vs : List String) → match_parts ps s ≡ some vs → Matches ps s vs)
      × ((vs : List String) → Matches ps s vs → (ws : List String) × (match_parts ps s ≡ some ws))
match_parts_iff ps s = (match_parts_sound ps s, λ vs m. found m)
  where
    found : {vs : List String} → Matches ps s vs → (ws : List String) × (match_parts ps s ≡ some ws)
    found m = elim (Option-cases (match_parts ps s)) [
      | inr answer ↦ answer
      | inl missing ↦ let kept = match_parts_complete m in absurd (ground arith)
    ]
