-- ===== src/Common/Lists.antt =====
-- Lists with Boolean tests (`filter`, `find`, `some`, `every`) and native lengths.
use Prim.Native.Nat.{ℕ, suc, ◌+◌}
use Prim.Native.String.{String}
use mathlib.Core.Path.{◌≡◌, refl, sym, ap, ◌∙◌}
use mathlib.Core.Bool.{Bool, true, false, ◌&&◌, ◌||◌}
use mathlib.Core.Logic.{inl, inr}
use mathlib.Core.Option.{Option, none, some}
use mathlib.Core.List.{List, [], ◌∷◌, ◌++◌, map, Memᴰ}
use native.Mathlib.Omega.{arith}
use text.Mathlib.Text.{◌==◌}
use api_gateway_platform.Common.Tests.{if◌then◌else◌, Bool-cases, and-eq-true, or-eq-true}

module _ {ℓ} {A : Type ℓ} where
  abbrev pub length : List A → ℕ
  length [] = 0
  length (x ∷ xs) = suc (length xs)

  pub length-append : (xs ys : List A) → length (xs ++ ys) ≡ length xs + length ys
  length-append [] ys = omega arith
  length-append (x ∷ xs) ys = omega (arith, length-append xs ys)

  -- `xs.filter(p)`
  abbrev pub filter : (A → Bool) → List A → List A
  filter p [] = []
  filter p (x ∷ xs) = let rest = filter p xs in if p x then x ∷ rest else rest

  -- `xs.some(p)`
  abbrev pub any : (A → Bool) → List A → Bool
  any p [] = false
  any p (x ∷ xs) = p x || any p xs

  -- `xs.every(p)`
  abbrev pub all : (A → Bool) → List A → Bool
  all p [] = true
  all p (x ∷ xs) = p x && all p xs

  -- `xs.find(p)`
  abbrev pub find : (A → Bool) → List A → Option A
  find p [] = none
  find p (x ∷ xs) = let rest = find p xs in if p x then some x else rest

  pub find-eq-some : (p : A → Bool) (xs : List A) {a : A} → find p xs ≡ some a → p a ≡ true
  find-eq-some p [] h = cc
  find-eq-some p (x ∷ xs) h = elim (Bool-cases (p x)) [
    | inl k ↦ ground arith
    | inr k ↦ find-eq-some p xs (rw k at h)
  ]

  abbrev pub is_empty : List A → Bool
  is_empty [] = true
  is_empty (_ ∷ _) = false

  pub filter-append :
      (p : A → Bool) (xs ys : List A) → filter p (xs ++ ys) ≡ filter p xs ++ filter p ys
  filter-append p [] ys = refl
  filter-append p (x ∷ xs) ys = ground (arith, filter-append p xs ys)

  pub filter-filter_self : (p : A → Bool) (xs : List A) → filter p (filter p xs) ≡ filter p xs
  filter-filter_self p [] = refl
  filter-filter_self p (x ∷ xs) = elim (Bool-cases (p x)) [
    | inl h ↦ rw h (rw h (ap (λ t. x ∷ t) (filter-filter_self p xs)))
    | inr h ↦ rw h (filter-filter_self p xs)
  ]

  pub mem-filter :
      (p : A → Bool) {a : A} (xs : List A) → Memᴰ a (filter p xs) → Memᴰ a xs × (p a ≡ true)
  mem-filter p [] m = elim m [ ]
  mem-filter p {a} (x ∷ xs) m = elim (Bool-cases (p x)) [
    | inl h ↦ kept (mem-filter p xs) h (rw h at m)
    | inr h ↦ let (k, t) = mem-filter p xs (rw h at m) in (Memᴰ.tail k, t)
  ]
    where
      kept :
          (Memᴰ a (filter p xs) → Memᴰ a xs × (p a ≡ true))
          → p x ≡ true
          → Memᴰ a (x ∷ filter p xs)
          → Memᴰ a (x ∷ xs) × (p a ≡ true)
      kept ih h (Memᴰ.head e) = (Memᴰ.head e, rw e h)
      kept ih h (Memᴰ.tail k) = let (l, t) = ih k in (Memᴰ.tail l, t)

  pub filter-mem :
      (p : A → Bool) {a : A} {xs : List A} → Memᴰ a xs → p a ≡ true → Memᴰ a (filter p xs)
  filter-mem p (Memᴰ.head {x} e) h = rw (ap p (sym e) ∙ h) (Memᴰ.head e)
  filter-mem p (Memᴰ.tail {x} {xs} m) h = elim (Bool-cases (p x)) [
    | inl k ↦ rw k (Memᴰ.tail (filter-mem p m h))
    | inr k ↦ rw k (filter-mem p m h)
  ]

  pub any-eq-true :
      (p : A → Bool) (xs : List A) → any p xs ≡ true → (a : A) × Memᴰ a xs × (p a ≡ true)
  any-eq-true p [] h = cc
  any-eq-true p (x ∷ xs) h = elim (or-eq-true (p x) (any p xs) h) [
    | inl k ↦ (x, Memᴰ.head refl, k)
    | inr k ↦ let (a, m, t) = any-eq-true p xs k in (a, Memᴰ.tail m, t)
  ]

  pub any_of_mem : (p : A → Bool) {a : A} {xs : List A} → Memᴰ a xs → p a ≡ true → any p xs ≡ true
  any_of_mem p {a} (Memᴰ.head {x} {xs} e) h = let k : p x ≡ true = ap p (sym e) ∙ h in rw k
  any_of_mem p (Memᴰ.tail {x} {xs} m) h = let k = any_of_mem p m h in ground arith

  pub all_at : (p : A → Bool) {a : A} {xs : List A} → all p xs ≡ true → Memᴰ a xs → p a ≡ true
  all_at p {a} h (Memᴰ.head {x} {xs} e) = ap p e ∙ (and-eq-true (p x) (all p xs) h).0
  all_at p h (Memᴰ.tail {x} {xs} m) = all_at p (and-eq-true (p x) (all p xs) h).1 m

module _ {ℓ κ} {A : Type ℓ} {B : Type κ} where
  pub mem-map : (f : A → B) {a : A} {xs : List A} → Memᴰ a xs → Memᴰ (f a) (map f xs)
  mem-map f (Memᴰ.head e) = Memᴰ.head (ap f e)
  mem-map f (Memᴰ.tail m) = Memᴰ.tail (mem-map f m)

  pub mem-map_inv :
      (f : A → B) {b : B} (xs : List A) → Memᴰ b (map f xs) → (a : A) × Memᴰ a xs × (b ≡ f a)
  mem-map_inv f [] m = elim m [ ]
  mem-map_inv f (x ∷ xs) (Memᴰ.head e) = (x, Memᴰ.head refl, e)
  mem-map_inv f (x ∷ xs) (Memᴰ.tail m) = let (a, k, e) = mem-map_inv f xs m in (a, Memᴰ.tail k, e)

  pub length-map : (f : A → B) (xs : List A) → length (map f xs) ≡ length xs
  length-map f [] = refl
  length-map f (x ∷ xs) = ap suc (length-map f xs)

  -- `xs.flatMap(f)`
  abbrev pub flat_map : (A → List B) → List A → List B
  flat_map f [] = []
  flat_map f (x ∷ xs) = f x ++ flat_map f xs

-- `xs.includes(x)` on texts
abbrev pub includes : List String → String → Bool
includes xs x = any (λ y. y == x) xs

-- `[...new Set(xs)]`: the first occurrence of each value, in order
abbrev pub unique_values_from : List String → List String → List String
unique_values_from seen [] = seen
unique_values_from seen (x ∷ xs) =
    unique_values_from (if includes seen x then seen else seen ++ x ∷ []) xs

abbrev pub to_unique : List String → List String
to_unique xs = unique_values_from [] xs
