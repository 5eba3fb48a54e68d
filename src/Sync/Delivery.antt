-- ===== src/Sync/Delivery.antt =====
-- What a dispatch sends, and what stays queued.
use api_gateway_platform.Common.{
  ℕ, String, ◌≡◌, ◌⊎◌, none, some, List, [], ◌∷◌, ◌++◌, if◌then◌else◌,
}
use api_gateway_platform.Database.Changes.{mark_gateway_config_change_published}
use api_gateway_platform.Sync.Publisher.{
  Attempt, done, raised, PublisherStore, Outbox, Faults, outbox_store,
}
use api_gateway_platform.Sync.Queue.{queued, without}

-- How a version ends the loop, and what of it was sent: the client throws; or the version was sent
-- and marking it throws.
pub data Fails (faults : Faults) (v : ℕ) : List ℕ → Type 0 where
  refused :
      (error : String)
      → faults.refuses v ≡ some error
      → Fails faults v (if faults.reaches v then v ∷ [] else [])
  unmarked :
      (error : String)
      → faults.refuses v ≡ none
      → faults.unmarked v ≡ some error
      → Fails faults v (v ∷ [])

-- What the loop did with the versions: it sent and took out of the queue a first part of them, in
-- order, and nothing else left the queue. Nothing more was sent, unless the next version failed after
-- it was sent; where one failed, it and those after it stay queued.
pub record Delivers (faults : Faults) (versions : List ℕ) (w w' : Outbox) : Type 0 where
  pub delivered : List ℕ
  pub rest : List ℕ
  pub extra : List ℕ
  pub split : versions ≡ delivered ++ rest
  pub sent : w'.sent ≡ w.sent ++ (delivered ++ extra)
  pub kept : queued w'.log ≡ without delivered (queued w.log)
  pub stopped :
      ((rest ≡ []) × (extra ≡ []))
      ⊎ ((v : ℕ) × (later : List ℕ) × (rest ≡ v ∷ later) × Fails faults v extra)

module _ (now : ℕ) (faults : Faults) where
  abbrev store : PublisherStore Outbox
  store = outbox_store now faults

  abbrev marked : ℕ → Outbox → Outbox
  marked version w = record {
    log = mark_gateway_config_change_published version now w.log;
    sent = w.sent ++ version ∷ [];
  }

  -- The `try` block, by the calls that throw.
  module _ (version : ℕ) (w : Outbox) where
    abbrev after_publish : Attempt (Unit {0}) × Outbox → Attempt (Unit {0}) × Outbox
    after_publish p = elim p.0 [
      | done _ ↦ store.mark_published version p.1
      | raised error ↦ (raised error, p.1)
    ]
