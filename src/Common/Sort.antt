-- ===== src/Common/Sort.antt =====
-- `xs.sort(compare)`, which is stable: insertion from the right, an element staying before those
-- that compare equal. `leq a b` is `compare(a, b) <= 0`.
use Prim.Native.Nat.{ℕ, suc}
use mathlib.Core.Path.{◌≡◌, refl, ap, ◌∙◌}
use mathlib.Core.Logic.{inl, inr}
use mathlib.Core.Bool.{Bool, true}
use mathlib.Core.List.{List, [], ◌∷◌, Memᴰ}
use native.Mathlib.Omega.{arith}
use api_gateway_platform.Common.Tests.{if◌then◌else◌, Bool-cases}
use api_gateway_platform.Common.Lists.{length}

module _ {ℓ} {A : Type ℓ} (leq : A → A → Bool) where
  abbrev pub insert_sorted : A → List A → List A
  insert_sorted x [] = x ∷ []
  insert_sorted x (y ∷ ys) =
      let rest = insert_sorted x ys in if leq x y then x ∷ y ∷ ys else y ∷ rest

  abbrev pub sort : List A → List A
  sort [] = []
  sort (x ∷ xs) = insert_sorted x (sort xs)

  -- No element is strictly before an earlier one.
  pub data IsSorted : List A → Type ℓ where
    nil : IsSorted []
    one : (x : A) → IsSorted (x ∷ [])
    more : {x y : A} {l : List A} → leq x y ≡ true → IsSorted (y ∷ l) → IsSorted (x ∷ y ∷ l)

  pub length-insert_sorted : (x : A) (xs : List A) → length (insert_sorted x xs) ≡ suc (length xs)
  length-insert_sorted x [] = refl
  length-insert_sorted x (y ∷ ys) = ground (arith, length-insert_sorted x ys)

  pub length-sort : (xs : List A) → length (sort xs) ≡ length xs
  length-sort [] = refl
  length-sort (x ∷ xs) = length-insert_sorted x (sort xs) ∙ ap suc (length-sort xs)

  pub mem-insert_sorted :
      {a : A} (x : A) (xs : List A) → Memᴰ a (insert_sorted x xs) → Memᴰ a (x ∷ xs)
  mem-insert_sorted x [] m = m
  mem-insert_sorted {a} x (y ∷ ys) m = elim (Bool-cases (leq x y)) [
    | inl h ↦ rw h at m
    | inr h ↦ later (mem-insert_sorted x ys) (rw h at m)
  ]
    where
      swap : Memᴰ a (x ∷ ys) → Memᴰ a (x ∷ y ∷ ys)
      swap (Memᴰ.head e) = Memᴰ.head e
      swap (Memᴰ.tail k) = Memᴰ.tail (Memᴰ.tail k)

      later :
          (Memᴰ a (insert_sorted x ys) → Memᴰ a (x ∷ ys))
          → Memᴰ a (y ∷ insert_sorted x ys)
          → Memᴰ a (x ∷ y ∷ ys)
      later ih (Memᴰ.head e) = Memᴰ.tail (Memᴰ.head e)
      later ih (Memᴰ.tail k) = swap (ih k)

  pub mem-sort : {a : A} (xs : List A) → Memᴰ a (sort xs) → Memᴰ a xs
  mem-sort [] m = m
  mem-sort {a} (x ∷ xs) m = down (mem-sort xs) (mem-insert_sorted x (sort xs) m)
    where
      down : (Memᴰ a (sort xs) → Memᴰ a xs) → Memᴰ a (x ∷ sort xs) → Memᴰ a (x ∷ xs)
      down ih (Memᴰ.head e) = Memᴰ.head e
      down ih (Memᴰ.tail k) = Memᴰ.tail (ih k)

  insert_sorted-mem : {a : A} (x : A) (xs : List A) → Memᴰ a (x ∷ xs) → Memᴰ a (insert_sorted x xs)
  insert_sorted-mem x [] m = m
  insert_sorted-mem {a} x (y ∷ ys) m = elim (Bool-cases (leq x y)) [
    | inl h ↦ rw h m
    | inr h ↦ rw h (later (insert_sorted-mem x ys) m)
  ]
    where
      later :
          (Memᴰ a (x ∷ ys) → Memᴰ a (insert_sorted x ys))
          → Memᴰ a (x ∷ y ∷ ys)
          → Memᴰ a (y ∷ insert_sorted x ys)
      later ih (Memᴰ.head e) = Memᴰ.tail (ih (Memᴰ.head e))
      later ih (Memᴰ.tail (Memᴰ.head e)) = Memᴰ.head e
      later ih (Memᴰ.tail (Memᴰ.tail k)) = Memᴰ.tail (ih (Memᴰ.tail k))

  pub sort-mem : {a : A} {xs : List A} → Memᴰ a xs → Memᴰ a (sort xs)
  sort-mem (Memᴰ.head {x} {xs} e) = insert_sorted-mem x (sort xs) (Memᴰ.head e)
  sort-mem (Memᴰ.tail {x} {xs} m) = insert_sorted-mem x (sort xs) (Memᴰ.tail (sort-mem m))

-- A rearrangement that never carries an element over one of the same rank.
module _ {ℓ} {A : Type ℓ} (rank : A → ℕ) where
  pub data Reordered : List A → List A → Type ℓ where
    same : (xs : List A) → Reordered xs xs
    cons : (x : A) {xs ys : List A} → Reordered xs ys → Reordered (x ∷ xs) (x ∷ ys)
    swap : (x y : A) (xs : List A) → (rank x ≡ rank y → ⊥) → Reordered (x ∷ y ∷ xs) (y ∷ x ∷ xs)
    trans : {xs ys zs : List A} → Reordered xs ys → Reordered ys zs → Reordered xs zs
