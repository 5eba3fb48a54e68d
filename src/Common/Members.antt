-- ===== src/Common/Members.antt =====
-- Members of lists that are joined, flattened or made unique.
use Prim.Native.String.{String}
use mathlib.Core.Path.{◌≡◌, refl, sym}
use mathlib.Core.Logic.{◌⊎◌, inl, inr}
use mathlib.Core.Bool.{true}
use mathlib.Core.List.{List, [], ◌∷◌, ◌++◌, Memᴰ}
use text.Mathlib.Text.{◌==◌}
use text.Mathlib.TextEquality.{eq_iff}
use text.Mathlib.TextPositions.{eq_refl}
use api_gateway_platform.Common.Tests.{Bool-cases}
use api_gateway_platform.Common.Lists.{
  includes, unique_values_from, any-eq-true, any_of_mem, flat_map,
}

-- Members of a list without its repetitions.
pub mem-unique_from :
    {x : String} (seen xs : List String)
    → Memᴰ x (unique_values_from seen xs)
    → Memᴰ x seen ⊎ Memᴰ x xs
mem-unique_from seen [] m = inl m
mem-unique_from {x} seen (y ∷ ys) m = elim (Bool-cases (includes seen y)) [
  | inl old ↦ elim (mem-unique_from seen ys (rw old at m)) [
    | inl k ↦ inl k
    | inr k ↦ inr (Memᴰ.tail k)
  ]
  | inr new ↦ elim (mem-unique_from (seen ++ y ∷ []) ys (rw new at m)) [
    | inl k ↦ last seen k
    | inr k ↦ inr (Memᴰ.tail k)
  ]
]
  where
    last : (l : List String) → Memᴰ x (l ++ y ∷ []) → Memᴰ x l ⊎ Memᴰ x (y ∷ ys)
    last [] (Memᴰ.head e) = inr (Memᴰ.head e)
    last [] (Memᴰ.tail k) = elim k [ ]
    last (z ∷ l) (Memᴰ.head e) = inl (Memᴰ.head e)
    last (z ∷ l) (Memᴰ.tail k) = later (last l k)
      where
        later : Memᴰ x l ⊎ Memᴰ x (y ∷ ys) → Memᴰ x (z ∷ l) ⊎ Memᴰ x (y ∷ ys)
        later (inl j) = inl (Memᴰ.tail j)
        later (inr j) = inr j

mem-append_left : {A : Type 0} {x : A} {xs : List A} (ys : List A) → Memᴰ x xs → Memᴰ x (xs ++ ys)
mem-append_left ys (Memᴰ.head e) = Memᴰ.head e
mem-append_left ys (Memᴰ.tail m) = Memᴰ.tail (mem-append_left ys m)

mem-append_right : {A : Type 0} {x : A} (xs : List A) {ys : List A} → Memᴰ x ys → Memᴰ x (xs ++ ys)
mem-append_right [] m = m
mem-append_right (x ∷ xs) m = Memᴰ.tail (mem-append_right xs m)

mem-append :
    {A : Type 0} {x : A} (xs : List A) {ys : List A} → Memᴰ x (xs ++ ys) → Memᴰ x xs ⊎ Memᴰ x ys
mem-append [] m = inr m
mem-append (y ∷ xs) (Memᴰ.head e) = inl (Memᴰ.head e)
mem-append (y ∷ xs) (Memᴰ.tail m) = elim (mem-append xs m) [
  | inl k ↦ inl (Memᴰ.tail k)
  | inr k ↦ inr k
]

pub includes-mem : {x : String} (xs : List String) → includes xs x ≡ true → Memᴰ x xs
includes-mem {x} xs h =
    let (y, m, e) = any-eq-true (λ y. y == x) xs h in rw (sym ((eq_iff y x).0 e)) m

pub mem-includes : {x : String} {xs : List String} → Memᴰ x xs → includes xs x ≡ true
mem-includes {x} m = any_of_mem (λ y. y == x) m (eq_refl x)

pub unique_from-mem :
    {x : String} (seen xs : List String)
    → Memᴰ x seen ⊎ Memᴰ x xs
    → Memᴰ x (unique_values_from seen xs)
unique_from-mem seen [] (inl m) = m
unique_from-mem seen [] (inr m) = elim m [ ]
unique_from-mem {x} seen (y ∷ ys) m = elim (Bool-cases (includes seen y)) [
  | inl old ↦ rw old (unique_from-mem seen ys (known m (includes-mem seen old)))
  | inr new ↦ rw new (unique_from-mem (seen ++ y ∷ []) ys (added m))
]
  where
    known : Memᴰ x seen ⊎ Memᴰ x (y ∷ ys) → Memᴰ y seen → Memᴰ x seen ⊎ Memᴰ x ys
    known (inl k) there = inl k
    known (inr (Memᴰ.head e)) there = inl (rw e there)
    known (inr (Memᴰ.tail k)) there = inr k

    added : Memᴰ x seen ⊎ Memᴰ x (y ∷ ys) → Memᴰ x (seen ++ y ∷ []) ⊎ Memᴰ x ys
    added (inl k) = inl (mem-append_left (y ∷ []) k)
    added (inr (Memᴰ.head e)) = inl (mem-append_right seen (Memᴰ.head e))
    added (inr (Memᴰ.tail k)) = inr k

pub mem-flat_map :
    {A B : Type 0} (f : A → List B) {b : B} (xs : List A)
    → Memᴰ b (flat_map f xs)
    → (a : A) × Memᴰ a xs × Memᴰ b (f a)
mem-flat_map f [] m = elim m [ ]
mem-flat_map f (x ∷ xs) m = elim (mem-append (f x) m) [
  | inl k ↦ (x, Memᴰ.head refl, k)
  | inr k ↦ let (a, l, n) = mem-flat_map f xs k in (a, Memᴰ.tail l, n)
]

pub flat_map-mem :
    {A B : Type 0} (f : A → List B) {a : A} {b : B} {xs : List A}
    → Memᴰ a xs
    → Memᴰ b (f a)
    → Memᴰ b (flat_map f xs)
flat_map-mem f {a} {b} (Memᴰ.head {x} {xs} e) k = mem-append_left (flat_map f xs) (rw e at k)
flat_map-mem f (Memᴰ.tail {x} {xs} m) k = mem-append_right (f x) (flat_map-mem f m k)
