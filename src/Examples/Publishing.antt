-- ===== src/Examples/Publishing.antt =====
-- The theorem on a dispatch at two queued changes, where the client or the database fails.
use api_gateway_platform.Common.{ℕ, refl, true, none, some, [], ◌∷◌, ◌≡◌, eqb, if◌then◌else◌}
use api_gateway_platform.Database.Changes.{
  ConfigChange, list_pending_gateway_config_changes, mark_gateway_config_change_published,
  mark_gateway_config_change_publish_failed, take_first,
}
use api_gateway_platform.Sync.Publisher.{
  Outbox, Faults, outbox_store, dispatch_pending, dispatch_changes,
}
use api_gateway_platform.Sync.Queue.{queued}

abbrev change : ℕ → ConfigChange
change n = record {
  version = n;
  change_type = "proxy.deployed";
  resource_type = "Proxy";
  resource_id = "users";
  environment_id = some "env";
  published_at = none;
  publish_attempts = 0;
  last_error = none;
}

abbrev outbox : Outbox
outbox = record { log = record { changes = change 1 ∷ change 2 ∷ []; serial = 2 }; sent = [] }

-- The client loses the connection at the second change, which has reached the channel.
abbrev loses_two : Faults
loses_two = record {
  refuses = λ n. if eqb n 2 then some "connection lost" else none;
  reaches = λ n. eqb n 2;
  unmarked = λ n. none;
  unrecorded = λ n. none;
  unread = none;
}

-- The database fails when the first change, which was sent, is marked.
abbrev keeps_one : Faults
keeps_one = record {
  refuses = λ n. none;
  reaches = λ n. true;
  unmarked = λ n. if eqb n 1 then some "database error" else none;
  unrecorded = λ n. some "database error";
  unread = none;
}

dispatch_pending_sent : (dispatch_pending (outbox_store 9 loses_two) outbox).sent ≡ 1 ∷ 2 ∷ []
unfolding dispatch_pending outbox_store dispatch_changes list_pending_gateway_config_changes
    take_first
dispatch_pending_sent = refl

queued-dispatch_pending : queued (dispatch_pending (outbox_store 9 loses_two) outbox).log ≡ 2 ∷ []
unfolding dispatch_pending outbox_store dispatch_changes list_pending_gateway_config_changes
    take_first mark_gateway_config_change_published mark_gateway_config_change_publish_failed
queued-dispatch_pending = refl

-- It is sent, stays queued, and is sent again by the next dispatch.
dispatch_pending_again :
    (dispatch_pending
      (outbox_store 9 keeps_one)
      (dispatch_pending (outbox_store 9 keeps_one) outbox)).sent
    ≡ 1 ∷ 1 ∷ []
unfolding dispatch_pending outbox_store dispatch_changes list_pending_gateway_config_changes
    take_first
dispatch_pending_again = refl
