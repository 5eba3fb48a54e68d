-- ===== src/Sync/Queue.antt =====
-- The versions that are queued in the log of changes, and what the marks do to them.
use api_gateway_platform.Common.{
  ℕ, ◌+◌, String, ◌≡◌, refl, ap, Bool, not, none, some, List, [], ◌∷◌, map, filter, any, eqb,
  if◌then◌else◌, arith,
}
use api_gateway_platform.Common.Text.{slice_to}
use api_gateway_platform.Database.Changes.{
  ConfigChange, ChangeLog, is_pending, mark_gateway_config_change_publish_failed,
}

abbrev pub version_of : ConfigChange → ℕ
version_of c = c.version

-- The versions that are queued, in the order of the log.
abbrev pub queued : ChangeLog → List ℕ
queued log = map version_of (filter is_pending log.changes)

abbrev pub is_in : List ℕ → ℕ → Bool
is_in vs v = any (λ x. eqb v x) vs

abbrev pub without : List ℕ → List ℕ → List ℕ
without vs l = filter (λ v. not (is_in vs v)) l

pub queued-published :
    (version now : ℕ) (cs : List ConfigChange)
    → map version_of (
        filter is_pending (
          map
            (λ c.
              if eqb c.version version
              then record c {
                published_at = some now;
                publish_attempts = c.publish_attempts + 1;
                last_error = none;
              }
              else c)
            cs))
      ≡ without (version ∷ []) (map version_of (filter is_pending cs))
queued-published version now [] = refl
queued-published version now (c ∷ cs) = ground (arith, queued-published version now cs)

pub queued-failed :
    (version : ℕ) (error : String) (log : ChangeLog)
    → queued (mark_gateway_config_change_publish_failed version error log) ≡ queued log
unfolding mark_gateway_config_change_publish_failed
queued-failed version error log = step log.changes
  where
    step :
        (cs : List ConfigChange)
        → map version_of (
            filter is_pending (
              map
                (λ c.
                  if eqb c.version version
                  then record c {
                    publish_attempts = c.publish_attempts + 1;
                    last_error = some (slice_to 1000 error);
                  }
                  else c)
                cs))
          ≡ map version_of (filter is_pending cs)
    step [] = refl
    step (c ∷ cs) = ground (arith, step cs)

pub without_nothing : (l : List ℕ) → without [] l ≡ l
without_nothing [] = refl
without_nothing (v ∷ l) = ap (λ t. v ∷ t) (without_nothing l)

pub without-without : (v : ℕ) (vs l : List ℕ) → without vs (without (v ∷ []) l) ≡ without (v ∷ vs) l
without-without v vs [] = refl
without-without v vs (x ∷ l) = ground (arith, without-without v vs l)
