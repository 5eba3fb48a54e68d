-- ===== src/Database/Changes.antt =====
-- packages/database/src/gateway-config-changes.ts: the log of configuration changes. The table
-- numbers its rows with a serial; rows are kept in ascending version.
use api_gateway_platform.Common.{
  ℕ, ◌+◌, ◌-◌, ◌≤◌, ◌<◌, max, String, ◌≡◌, Bool, true, false, Option, none, some, List, [], ◌∷◌,
  ◌++◌, map, filter, length, eqb, if◌then◌else◌, arith,
}
use api_gateway_platform.Common.Text.{slice_to}

pub record ConfigChange : Type 0 where
  pub version : ℕ
  pub change_type : String
  pub resource_type : String
  pub resource_id : String
  pub environment_id : Option String
  pub published_at : Option ℕ
  pub publish_attempts : ℕ
  pub last_error : Option String

pub record ChangeLog : Type 0 where
  pub changes : List ConfigChange
  pub serial : ℕ

pub record RecordGatewayConfigChangeInput : Type 0 where
  pub change_type : String
  pub resource_type : String
  pub resource_id : String
  pub environment_id : Option String

-- The change that is created, with its version.
unfoldable pub record_gateway_config_change :
    RecordGatewayConfigChangeInput → ChangeLog → ℕ × ChangeLog
record_gateway_config_change input log = (
  log.serial + 1,
  record {
    changes =
        log.changes
        ++ record {
          version = log.serial + 1;
          change_type = input.change_type;
          resource_type = input.resource_type;
          resource_id = input.resource_id;
          environment_id = input.environment_id;
          published_at = none;
          publish_attempts = 0;
          last_error = none;
        }
          ∷ [];
    serial = log.serial + 1;
  },
)

-- The greatest version, 0 in an empty table.
abbrev latest_of : List ConfigChange → ℕ
latest_of [] = 0
latest_of (c ∷ cs) = max c.version (latest_of cs)

unfoldable pub get_latest_gateway_config_version : ChangeLog → ℕ
get_latest_gateway_config_version log = latest_of log.changes

abbrev pub is_pending : ConfigChange → Bool
is_pending c = elim c.published_at [ none ↦ true | some _ ↦ false ]

unfoldable pub take_first : {A : Type 0} → ℕ → List A → List A
take_first n [] = []
take_first n (x ∷ xs) = let rest = take_first (n - 1) xs in if eqb n 0 then [] else x ∷ rest

unfoldable pub list_pending_gateway_config_changes : ℕ → ChangeLog → List ConfigChange
unfolding take_first
list_pending_gateway_config_changes limit log = take_first limit (filter is_pending log.changes)

unfoldable pub count_pending_gateway_config_changes : ChangeLog → ℕ
count_pending_gateway_config_changes log = length (filter is_pending log.changes)

abbrev update_version : ℕ → (ConfigChange → ConfigChange) → ChangeLog → ChangeLog
update_version version f log = record log {
  changes = map (λ c. if eqb c.version version then f c else c) log.changes;
}

unfoldable pub mark_gateway_config_change_published : ℕ → ℕ → ChangeLog → ChangeLog
mark_gateway_config_change_published version now log =
    update_version version
      (λ c. record c {
        published_at = some now;
        publish_attempts = c.publish_attempts + 1;
        last_error = none;
      })
      log

unfoldable pub mark_gateway_config_change_publish_failed : ℕ → String → ChangeLog → ChangeLog
mark_gateway_config_change_publish_failed version error log =
    update_version version
      (λ c. record c {
        publish_attempts = c.publish_attempts + 1;
        last_error = some (slice_to 1000 error);
      })
      log

latest-append :
    (cs : List ConfigChange) (c : ConfigChange)
    → latest_of (cs ++ c ∷ []) ≡ max (latest_of cs) c.version
latest-append [] c = ground arith
latest-append (d ∷ cs) c = ground (arith, latest-append cs c)

-- No row has a version above the serial.
abbrev pub IsNumbered : ChangeLog → Type 0
IsNumbered log = get_latest_gateway_config_version log ≤ log.serial

-- Recording a change makes its version the latest, above every version before, and the log stays
-- numbered within its serial.
pub record_gateway_config_change-latest :
    (input : RecordGatewayConfigChangeInput) (log : ChangeLog)
    → IsNumbered log
    → (get_latest_gateway_config_version (record_gateway_config_change input log).1
        ≡ (record_gateway_config_change input log).0)
      × (get_latest_gateway_config_version log
          < get_latest_gateway_config_version (record_gateway_config_change input log).1)
      × IsNumbered (record_gateway_config_change input log).1
unfolding record_gateway_config_change get_latest_gateway_config_version
record_gateway_config_change-latest input log h =
    let l = latest-append log.changes (record {
      version = log.serial + 1;
      change_type = input.change_type;
      resource_type = input.resource_type;
      resource_id = input.resource_id;
      environment_id = input.environment_id;
      published_at = none;
      publish_attempts = 0;
      last_error = none;
    }) in
    (omega (arith, l, h), omega (arith, l, h), omega (arith, l, h))
