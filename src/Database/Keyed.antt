-- ===== src/Database/Keyed.antt =====
-- Rows that are looked up and updated by a key.
use api_gateway_platform.Common.{
  String, ◌≡◌, refl, sym, ◌∙◌, inl, inr, Bool, true, false, none, some, List, [], ◌∷◌, ◌++◌, ◌==◌,
  eq_iff, Bool-cases,
}
use api_gateway_platform.Database.Tables.{find_key, update_key}

module _ {A : Type 0} (key : A → String) where
  -- The row that has a key passes a test.
  abbrev pub holds : (A → Bool) → String → List A → Bool
  holds good j rows = elim (find_key key j rows) [ none ↦ false | some a ↦ good a ]

  pub update_key-holds :
      (good : A → Bool) (k : String) (f : A → A) (j : String) (rows : List A)
      → ((a : A) → key (f a) ≡ key a)
      → ((a : A) → find_key key j rows ≡ some a → j ≡ k → good a ≡ true → good (f a) ≡ true)
      → holds good j rows ≡ true
      → holds good j (update_key key k f rows) ≡ true
  update_key-holds good k f j [] keeps preserves h = h
  update_key-holds good k f j (a ∷ rows) keeps preserves h =
      let kept = keeps a in
      elim (Bool-cases (key a == j)) [
        | inr other ↦
            let before : holds good j rows ≡ true = rw (other, holds) at h in
            let rest =
              update_key-holds good k f j rows keeps (λ b found. preserves b (rw other found))
                before in
            elim (Bool-cases (key a == k)) [
              | inl e ↦ rw (e, holds) (rw (kept, other) rest)
              | inr e ↦ rw (e, holds) (rw other rest)
            ]
        | inl here ↦
            let good_a : good a ≡ true = rw (here, holds) at h in
            elim (Bool-cases (key a == k)) [
              | inl e ↦
                  let same : j ≡ k = sym ((eq_iff (key a) j).0 here) ∙ (eq_iff (key a) k).0 e in
                  rw (e, holds) (rw (kept, here) (preserves a (rw here refl) same good_a))
              | inr e ↦ rw (e, holds) (rw here good_a)
            ]
      ]

  pub append-holds :
      (good : A → Bool) (j : String) (rows more : List A)
      → holds good j rows ≡ true
      → holds good j (rows ++ more) ≡ true
  append-holds good j [] more h = cc
  append-holds good j (a ∷ rows) more h = elim (Bool-cases (key a == j)) [
    | inl here ↦ rw (here, holds) (rw (here, holds) at h)
    | inr other ↦ rw (other, holds) (append-holds good j rows more (rw (other, holds) at h))
  ]
