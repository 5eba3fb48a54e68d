-- ===== src/Sync/Drains.antt =====
-- The runs of the reloader: what it has applied, and what was asked of it.
use api_gateway_platform.Common.{
  ℕ, max, ◌≤◌, ◌<◌, ltb, ◌≡◌, refl, ◌⊎◌, inl, inr, arith, Bool-cases, tests, le→ltb,
}
use api_gateway_platform.Sync.Reloader.{
  Reloader, ActiveReload, idle, loading, reporting, leaving, reported, settled, begin_round, settle,
  finish_round, Step, requested, finished, failed, unreachable, Steps, none_left, one_more,
}

-- The applied version is not above the requested one, and a round is for a version that is newer
-- than the applied one and was requested.
abbrev pub Orders : ℕ → ℕ → ActiveReload → Type 0
Orders applied wanted idle = applied ≤ wanted
Orders applied wanted reporting = applied ≤ wanted
Orders applied wanted leaving = applied ≤ wanted
Orders applied wanted (loading target) = (applied < target) × (target ≤ wanted)

abbrev pub IsOrdered : Reloader → Type 0
IsOrdered s = Orders s.applied_version s.requested_version s.active_reload

-- And where no round is to follow, the applied version is the requested one.
abbrev pub Fits : ℕ → ℕ → ActiveReload → Type 0
Fits applied wanted idle = wanted ≡ applied
Fits applied wanted reporting = applied ≤ wanted
Fits applied wanted leaving = wanted ≡ applied
Fits applied wanted (loading target) = (applied < target) × (target ≤ wanted)

abbrev pub IsCaughtUp : Reloader → Type 0
IsCaughtUp s = Fits s.applied_version s.requested_version s.active_reload

-- A late request is for a version newer than the applied one, and comes between the end of the loop
-- and its `finally` callback.
abbrev pub IsLate : {s t : Reloader} → Step s t → Type 0
IsLate (requested version s) = (s.active_reload ≡ leaving) × (s.applied_version < version)
IsLate (finished now target s e) = ⊥
IsLate (failed error target s e) = ⊥
IsLate (reported s e) = ⊥
IsLate (settled s e) = ⊥
IsLate (unreachable error s) = ⊥

abbrev pub HasLate : {s t : Reloader} → Steps s t → Type 0
HasLate none_left = ⊥
HasLate (one_more step rest) = IsLate step ⊎ HasLate rest

abbrev asked : ℕ → Reloader → Reloader
asked version s = record s { requested_version = max s.requested_version version }

-- With no further request, at most two rounds that succeed bring a reloader that is in a round to
-- the end of the loop at the requested version, and then, after the `finally` callback, to rest.
pub finish_round-idle :
    (s : Reloader) (target now later : ℕ)
    → s.active_reload ≡ loading target
    → IsCaughtUp s
    → (((begin_round (finish_round target now s)).active_reload ≡ leaving)
        × ((settle (begin_round (finish_round target now s))).active_reload ≡ idle)
        × ((begin_round (finish_round target now s)).applied_version ≡ s.requested_version))
      ⊎ (((begin_round (finish_round target now s)).active_reload ≡ loading s.requested_version)
          × ((begin_round (
                finish_round s.requested_version later
                  (begin_round (finish_round target now s)))).active_reload
              ≡ leaving)
          × ((settle (
                begin_round (
                  finish_round s.requested_version later
                    (begin_round (finish_round target now s))))).active_reload
              ≡ idle)
          × ((begin_round (
                finish_round s.requested_version later
                  (begin_round (finish_round target now s)))).applied_version
              ≡ s.requested_version))
unfolding finish_round begin_round settle
finish_round-idle s target now later e h =
    let (above, within) : (s.applied_version < target) × (target ≤ s.requested_version) =
      rw e at h in
    elim (Bool-cases (ltb target s.requested_version)) [
      | inr level ↦ inl (rw level refl, refl, rw level (omega (tests, level, within)))
      | inl behind ↦
          let rest = le→ltb s.requested_version s.requested_version (omega arith) in
          inr (rw behind refl, rw behind (rw rest refl), refl, rw behind (rw rest refl))
    ]
