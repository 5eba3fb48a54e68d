-- ===== src/Labs/Counts.antt =====
-- Workspaces that are counted, and deactivations that leave them outside the count.
use api_gateway_platform.Common.{
  ℕ, ◌+◌, ◌≤◌, String, ◌≡◌, refl, sym, ap, ◌∙◌, inl, inr, Bool, true, false, none, some, List, [],
  ◌∷◌, ◌++◌, filter, find, length, if◌then◌else◌, ◌==◌, arith, eq_refl, Bool-cases, filter-append,
  length-append,
}
use api_gateway_platform.Database.Tables.{
  LabWorkspaceStatus, expired_workspace, revoked_workspace, LabWorkspace, Tables, update_key,
}
use api_gateway_platform.Labs.Resources.{
  LabPrincipal, is_current, workspace_key, deactivate_workspace_resources,
  disable_workspace_resources, record_lab_audit,
}
use api_gateway_platform.Labs.Workspaces.{deactivate_for}

abbrev pub count : (LabWorkspace → Bool) → List LabWorkspace → ℕ
count p ws = length (filter p ws)

module _ (p : LabWorkspace → Bool) (id : String) (f : LabWorkspace → LabWorkspace) where
  -- A change that leaves a row outside the count.
  pub update-count_le :
      (ws : List LabWorkspace)
      → ((w : LabWorkspace) → p (f w) ≡ false)
      → count p (update_key workspace_key id f ws) ≤ count p ws
  update-count_le [] clears = omega arith
  update-count_le (w ∷ ws) clears =
      let rest = update-count_le ws clears in
      let gone = clears w in
      elim (Bool-cases (w.id == id)) [
        | inl e ↦ rw e (
            rw gone
              (elim (Bool-cases (p w)) [ inl k ↦ rw k (omega (arith, rest)) | inr k ↦ rw k rest ]))
        | inr e ↦
            rw e
              (elim (Bool-cases (p w)) [ inl k ↦ rw k (omega (arith, rest)) | inr k ↦ rw k rest ])
      ]

-- The only row in the count leaves it.
pub update-count_none :
    (p : LabWorkspace → Bool) (f : LabWorkspace → LabWorkspace) (ws : List LabWorkspace)
    (c : LabWorkspace)
    → ((w : LabWorkspace) → p (f w) ≡ false)
    → find p ws ≡ some c
    → count p ws ≤ 1
    → count p (update_key workspace_key c.id f ws) ≤ 0
update-count_none p f [] c clears found one = omega arith
update-count_none p f (w ∷ ws) c clears found one = elim (Bool-cases (p w)) [
  | inl k ↦
      let same : w ≡ c = ap (λ o. elim o [ none ↦ c | some x ↦ x ]) (rw k at found) in
      let few : count p ws ≤ 0 = let counted = rw k at one in omega (arith, counted) in
      let rest = update-count_le p c.id f ws clears in
      let here : (w.id == c.id) ≡ true = ap (λ x. w.id == x.id) (sym same) ∙ eq_refl w.id in
      rw here (rw (clears w) (omega (arith, few, rest)))
  | inr k ↦
      let rest = update-count_none p f ws c clears (rw k at found) (rw k at one) in
      elim (Bool-cases (w.id == c.id)) [
        | inl e ↦ rw e (rw (clears w) rest)
        | inr e ↦ rw e (rw k rest)
      ]
]

pub count-none :
    (p : LabWorkspace → Bool) (ws : List LabWorkspace) → find p ws ≡ none → count p ws ≤ 0
count-none p [] h = omega arith
count-none p (w ∷ ws) h = elim (Bool-cases (p w)) [
  | inl k ↦ absurd (ground arith)
  | inr k ↦ rw k (count-none p ws (rw k at h))
]

pub count-append :
    (p : LabWorkspace → Bool) (ws : List LabWorkspace) (w : LabWorkspace)
    → count p (ws ++ w ∷ []) ≡ count p ws + (if p w then 1 else 0)
count-append p ws w =
    rw (filter-append p ws (w ∷ []), length-append (filter p ws) (filter p (w ∷ [])))
      (elim (Bool-cases (p w)) [ inl k ↦ rw k refl | inr k ↦ rw k refl ])

abbrev pub closes : LabWorkspaceStatus → LabWorkspace → LabWorkspace
closes status w = record w { status = status }

-- The statuses of the two kinds of deactivation.
pub data IsClosing : LabWorkspaceStatus → Type 0 where
  expires : IsClosing expired_workspace
  revokes : IsClosing revoked_workspace

pub closes-clears :
    (status : LabWorkspaceStatus)
    → IsClosing status
    → (principal : LabPrincipal) (w : LabWorkspace) → is_current principal (closes status w) ≡ false
closes-clears _ expires principal w = ground arith
closes-clears _ revokes principal w = ground arith

pub deactivate-workspaces :
    (principal : LabPrincipal) (status : LabWorkspaceStatus) (now : ℕ) (w : LabWorkspace)
    (db : Tables)
    → (deactivate_for principal status now w db).workspaces
      ≡ update_key workspace_key w.id (closes status) db.workspaces
unfolding deactivate_workspace_resources disable_workspace_resources record_lab_audit
deactivate-workspaces principal status now w db = refl
