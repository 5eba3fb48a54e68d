-- ===== src/Sync/Publisher.antt =====
-- packages/management-api/src/runtime-sync/publisher.ts: `GatewayConfigPublisher.dispatchPending`,
-- over the operations of its store and its client, and over the database's log of changes.
use api_gateway_platform.Common.{
  ℕ, String, Bool, if◌then◌else◌, Option, none, some, List, [], ◌∷◌, ◌++◌,
}
use api_gateway_platform.Database.Changes.{
  ConfigChange, ChangeLog, list_pending_gateway_config_changes,
  mark_gateway_config_change_published, mark_gateway_config_change_publish_failed,
}

-- An awaited call: its value, or the text that `catch` takes from the exception.
pub data Attempt (A : Type 0) : Type 0 where
  done : A → Attempt A
  raised : String → Attempt A

-- `PublisherStore`, and the client's `publish` on the channel of configuration changes.
pub record PublisherStore (W : Type 0) : Type 0 where
  pub list_pending : ℕ → W → Attempt (List ConfigChange) × W
  pub mark_published : ℕ → W → Attempt (Unit {0}) × W
  pub mark_failed : ℕ → String → W → Attempt (Unit {0}) × W
  pub publish : ℕ → W → Attempt (Unit {0}) × W

module _ {W : Type 0} (store : PublisherStore W) where
  open store use {list_pending, mark_published, mark_failed, publish}

  -- The `try` block of a round.
  abbrev pub publish_change : ℕ → W → Attempt (Unit {0}) × W
  publish_change version w =
      let (sent, w') = publish version w in
      elim sent [ done _ ↦ mark_published version w' | raised error ↦ (raised error, w') ]

  -- The loop over the changes: the first one that fails is marked, and ends it.
  unfoldable pub dispatch_changes : List ConfigChange → W → W
  dispatch_changes [] w = w
  dispatch_changes (change ∷ changes) w =
      let (published, w') = publish_change change.version w in
      elim published [
        | done _ ↦ dispatch_changes changes w'
        | raised error ↦ (mark_failed change.version error w').1
      ]

  unfoldable pub dispatch_pending : W → W
  unfolding dispatch_changes
  dispatch_pending w =
      let (read, w') = list_pending 100 w in
      elim read [ done changes ↦ dispatch_changes changes w' | raised _ ↦ w' ]

-- The database's log, and what was sent on the channel.
pub record Outbox : Type 0 where
  pub log : ChangeLog
  pub sent : List ℕ

-- Which calls throw, and with what text: the client's `publish` of a version, the two marks of a
-- version, and reading the log. A `publish` that throws may have reached the channel: `reaches`.
pub record Faults : Type 0 where
  pub refuses : ℕ → Option String
  pub reaches : ℕ → Bool
  pub unmarked : ℕ → Option String
  pub unrecorded : ℕ → Option String
  pub unread : Option String

abbrev send : ℕ → Outbox → Outbox
send version w = record w { sent = w.sent ++ version ∷ [] }

-- The default store, whose operations are those of the database, and a client, where any call may
-- throw; one of the database then changes nothing.
unfoldable pub outbox_store : ℕ → Faults → PublisherStore Outbox
outbox_store now faults = record {
  list_pending = λ limit w. elim faults.unread [
    | none ↦ (done (list_pending_gateway_config_changes limit w.log), w)
    | some error ↦ (raised error, w)
  ];
  mark_published = λ version w. elim (faults.unmarked version) [
    | none ↦ (done tt, record w { log = mark_gateway_config_change_published version now w.log })
    | some error ↦ (raised error, w)
  ];
  mark_failed = λ version text w. elim (faults.unrecorded version) [
    | none ↦
        (done tt, record w { log = mark_gateway_config_change_publish_failed version text w.log })
    | some error ↦ (raised error, w)
  ];
  publish = λ version w. elim (faults.refuses version) [
    | none ↦ (done tt, send version w)
    | some error ↦ (raised error, if faults.reaches version then send version w else w)
  ];
}
