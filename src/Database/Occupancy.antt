-- ===== src/Database/Occupancy.antt =====
-- The writes of a deployment keep the table exclusive.
use mathlib.Core.List.{Memᴰ}
use api_gateway_platform.Common.{
  ◌≤◌, String, ◌≡◌, refl, sym, ap, ◌∙◌, ◌⊎◌, inl, inr, true, ◌&&◌, Option, none, some, List, [],
  ◌∷◌, ◌++◌, filter, ◌==◌, arith, eq_iff, Bool-cases, and-eq-true, filter-append, length-append,
}
use api_gateway_platform.Database.Rows.{Deployment}
use api_gateway_platform.Database.Deployments.{is_active, is_active_in, same_scope, replaces}
use api_gateway_platform.Database.Exclusive.{count, IsExclusive}

mem_snoc : {A : Type 0} {d n : A} (xs : List A) → Memᴰ d (xs ++ n ∷ []) → Memᴰ d xs ⊎ (d ≡ n)
mem_snoc [] (Memᴰ.head e) = inr e
mem_snoc [] (Memᴰ.tail m) = elim m [ ]
mem_snoc (x ∷ xs) (Memᴰ.head e) = inl (Memᴰ.head e)
mem_snoc (x ∷ xs) (Memᴰ.tail m) = elim (mem_snoc xs m) [ inl k ↦ inl (Memᴰ.tail k) | inr e ↦ inr e ]

same_scope-eq : (a b : Option String) → same_scope a b ≡ true → a ≡ b
same_scope-eq none none h = refl
same_scope-eq none (some b) h = cc
same_scope-eq (some a) none h = cc
same_scope-eq (some a) (some b) h = ap some ((eq_iff a b).0 h)

-- A list of deployments without conflict, and the one that is added to it.
module _ (ds : List Deployment) (exclusive : IsExclusive ds) (old : List Deployment)
    (n : Deployment)
    (kept : (environment_id : String) (scope : Option String) (d : Deployment)
      → Memᴰ d old
      → is_active_in environment_id scope d ≡ true
      → Memᴰ d ds)
    (fewer : (proxy_id environment_id : String) (scope : Option String)
      → count proxy_id environment_id scope old ≤ count proxy_id environment_id scope ds)
    (room : count n.proxy.id n.environment.id n.lab_workspace_id old ≡ 0)
    (free : (d : Deployment)
      → Memᴰ d ds
      → is_active_in n.environment.id n.lab_workspace_id d ≡ true
      → d.revision.base_path ≡ n.revision.base_path
      → d.proxy.id ≡ n.proxy.id) where
  where-is :
      (environment_id : String) (scope : Option String)
      → is_active_in environment_id scope n ≡ true
      → (environment_id ≡ n.environment.id) × (scope ≡ n.lab_workspace_id)
  where-is environment_id scope h =
      let (h1, s) =
        and-eq-true (is_active n && n.environment.id == environment_id)
          (same_scope n.lab_workspace_id scope) h in
      let (_, e) = and-eq-true (is_active n) (n.environment.id == environment_id) h1 in
      (sym ((eq_iff _ _).0 e), sym (same_scope-eq _ _ s))

  add-single :
      (proxy_id environment_id : String) (scope : Option String)
      → count proxy_id environment_id scope (old ++ n ∷ []) ≤ 1
  add-single proxy_id environment_id scope =
      let p = replaces proxy_id environment_id scope in
      let before = exclusive.single proxy_id environment_id scope in
      let less = fewer proxy_id environment_id scope in
      rw (filter-append p old (n ∷ [])) (
        rw (length-append (filter p old) (filter p (n ∷ []))) (elim (Bool-cases (p n)) [
          | inr other' ↦ rw other' (omega (arith, before, less))
          | inl mine ↦
              let (here, who) =
                and-eq-true (is_active_in environment_id scope n) (n.proxy.id == proxy_id) mine in
              let (env, sc) = where-is environment_id scope here in
              let pr : proxy_id ≡ n.proxy.id = sym ((eq_iff _ _).0 who) in
              let none' : count proxy_id environment_id scope old ≡ 0 =
                rw env (rw sc (rw pr room)) in
              rw mine (omega (arith, none'))
        ]))

  add-own_path :
      (environment_id : String) (scope : Option String) (d e : Deployment)
      → Memᴰ d (old ++ n ∷ [])
      → Memᴰ e (old ++ n ∷ [])
      → is_active_in environment_id scope d ≡ true
      → is_active_in environment_id scope e ≡ true
      → d.revision.base_path ≡ e.revision.base_path
      → d.proxy.id ≡ e.proxy.id
  add-own_path environment_id scope d e m k a b same = elim (mem_snoc old m) [
    | inl dm ↦ elim (mem_snoc old k) [
      | inl em ↦
          exclusive.own_path environment_id scope d e (kept environment_id scope d dm a)
            (kept environment_id scope e em b) a b same
      | inr en ↦
          with-new d (kept environment_id scope d dm a) a (rw en at b) (rw en at same)
          ∙ ap (λ x. x.proxy.id) (sym en)
    ]
    | inr dn ↦ elim (mem_snoc old k) [
      | inl em ↦
          ap (λ x. x.proxy.id) dn
          ∙ sym (with-new e (kept environment_id scope e em b) b (rw dn at a) (sym (rw dn at same)))
      | inr en ↦ ap (λ x. x.proxy.id) (dn ∙ sym en)
    ]
  ]
    where
      with-new :
          (x : Deployment)
          → Memᴰ x ds
          → is_active_in environment_id scope x ≡ true
          → is_active_in environment_id scope n ≡ true
          → x.revision.base_path ≡ n.revision.base_path
          → x.proxy.id ≡ n.proxy.id
      with-new x l h i path =
          let (env, sc) = where-is environment_id scope i in free x l (rw env at (rw sc at h)) path

  pub add-IsExclusive : IsExclusive (old ++ n ∷ [])
  add-IsExclusive = record { single = add-single; own_path = add-own_path }
