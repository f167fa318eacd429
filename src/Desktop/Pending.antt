-- ===== src/Desktop/Pending.antt =====
-- The queue of messages that could not be delivered: retry_pending_messages and the functions that it
-- calls of src-tauri/src/services/sync_service.rs, queue_pending_message and
-- delete_pending_messages_to_recipient of message_service.rs beside it, and
-- queue_pending_channel_message of src-tauri/src/commands/community.rs. The rows of the table stand in
-- the order of their ids. What the manager of routes answers is a parameter, and what it is told a call.
pub mod State
pub mod Sending
pub mod Routes
pub mod Due
pub mod Kept
mod Detached
pub mod Drains
pub mod Tests
pub use State.*
unfoldable pub use Sending.*
use rekindle.Base.{
  ℕ, ◌+◌, ◌==◌, leb, if◌then◌else◌, String, str_eq, Bool, not, ◌&&◌, List, [], ◌∷◌, ◌++◌, map,
  retain, Option, none, some,
}
use rekindle.Base.Results.{Result, failed, done}
use rekindle.Base.Actions.{Act, pure, throw, continue, ◌>>=◌, ◌>>◌}
use rekindle.Messaging.Envelope.{MessageEnvelope}
use rekindle.Server.Protocol.{CommunityResponse, error}

module _ (O : Outside) where
  -- A statement, or the database's fault and no change.
  unfoldable pub run_statement : Statement → Action (Unit {0})
  run_statement st q = elim (O.fault st) [
    | none ↦ (execute st q, done tt)
    | some why ↦ (q, failed why)
  ]

  abbrev pub delete_pending_message : ℕ → Action (Unit {0})
  delete_pending_message id = run_statement (delete_pending id)

  abbrev pub increment_retry_count : ℕ → Action (Unit {0})
  increment_retry_count id = run_statement (increment_retry id)

  unfoldable pub queue_pending_message : String → String → ℕ → Action (Unit {0})
  queue_pending_message recipient body now =
      run_statement (insert_pending O.owner_key recipient body now)

  -- An error is only logged.
  unfoldable pub queue_pending_channel_message : PendingChannelMessage → ℕ → Queue → Queue
  queue_pending_channel_message m now q = elim (O.to_json m) [
    | failed why ↦ q
    | done body ↦ (run_statement (insert_pending O.owner_key m.community_id body now) q).0
  ]

  unfoldable pub delete_pending_messages_to_recipient : String → Queue → Queue
  delete_pending_messages_to_recipient recipient q =
      (run_statement (delete_to_recipient O.owner_key recipient) q).0

  abbrev pub imported : List ℕ → Queue → Queue × Option ℕ
  imported blob q = (
    q,
    elim (O.get_or_import_route q.calls blob) [ failed why ↦ none | done route_id ↦ some route_id ],
  )

  -- The route that is imported from the mailbox's blob, once that is cached.
  abbrev pub import_mailbox : String → Result String (Option (List ℕ)) → Queue → Queue × Option ℕ
  import_mailbox recipient (failed why) q = (q, none)
  import_mailbox recipient (done none) q = (q, none)
  import_mailbox recipient (done (some [])) q = (q, none)
  import_mailbox recipient (done (some (b ∷ blob))) q =
      if O.has_manager
      then imported (b ∷ blob) (call (cache_route recipient (b ∷ blob)) q)
      else (q, none)

  unfoldable pub try_mailbox_route_fallback : String → Queue → Queue × Option ℕ
  try_mailbox_route_fallback recipient q = elim (O.mailbox_dht_key recipient) [
    | none ↦ (q, none)
    | some key ↦
        if O.has_node
        then import_mailbox recipient (O.read_peer_mailbox_route q.calls key) q
        else (q, none)
  ]

  -- The cached route; one that cannot be imported is invalidated.
  unfoldable pub known_route : String → Queue → Queue × Option ℕ
  known_route recipient q =
      if O.has_manager
      then (elim (O.get_cached_route q.calls recipient) [
        | none ↦ (q, none)
        | some blob ↦ elim (O.get_or_import_route q.calls blob) [
          | failed why ↦ (call (invalidate_route_for_peer recipient) q, none)
          | done route_id ↦ (q, some route_id)
        ]
      ])
      else (q, none)

  abbrev pub or_mailbox : String → Queue × Option ℕ → Queue × Option ℕ
  or_mailbox recipient (q, some route_id) = (q, some route_id)
  or_mailbox recipient (q, none) = try_mailbox_route_fallback recipient q

  -- Delivered, or to be tried again.
  abbrev pub settled : ℕ → Result String (Unit {0}) → Action (Unit {0})
  settled id (done u) = delete_pending_message id
  settled id (failed why) = increment_retry_count id

  abbrev pub send_by : ℕ → MessageEnvelope → Queue × Option ℕ → Queue × Result String (Unit {0})
  send_by id envelope (q, none) = increment_retry_count id q
  send_by id envelope (q, some route_id) =
      settled id (O.sends q.calls route_id envelope) (call (send_envelope route_id envelope) q)

  unfoldable pub retry_pending_dm : ℕ → String → MessageEnvelope → Action (Unit {0})
  retry_pending_dm id recipient envelope q =
      if O.has_node
      then send_by id envelope (or_mailbox recipient (known_route recipient q))
      else increment_retry_count id q

  abbrev pub settled_after : ℕ → Queue × Result String (Unit {0}) → Queue × Result String (Unit {0})
  settled_after id (q, r) = settled id r q

  abbrev pub retry_channel : ℕ → PendingChannelMessage → Option (List ℕ) → Action (Unit {0})
  retry_channel id m none q = increment_retry_count id q
  retry_channel id m (some route_blob) q =
      settled_after id (send_encrypted_to_server O m route_blob q)

  abbrev pub retry_other : ℕ → Result String PendingChannelMessage → Action (Unit {0})
  retry_other id (done m) q = retry_channel id m (O.server_route_blob q.calls m.community_id) q
  retry_other id (failed why) q = delete_pending_message id q

  abbrev pub retry_body : PendingMessage → Result String MessageEnvelope → Action (Unit {0})
  retry_body m (done envelope) = retry_pending_dm m.id m.recipient_key envelope
  retry_body m (failed why) = retry_other m.id (O.channel_message m.body)

  unfoldable pub retry_single_pending : PendingMessage → Action (Unit {0})
  retry_single_pending m =
      if leb max_retries m.retry_count
      then delete_pending_message m.id
      else retry_body m (O.envelope m.body)

  -- One after the other, until an error.
  unfoldable pub retry_each : List PendingMessage → Action (Unit {0})
  retry_each [] = pure tt
  retry_each (m ∷ ms) = retry_single_pending m >>= λ u. retry_each ms

  abbrev pub is_own : PendingMessage → Bool
  is_own m = str_eq m.owner_key O.owner_key

  -- The rows of the owner, unless they cannot be read.
  abbrev pub retry_rows : Option String → Action (Unit {0})
  retry_rows none q = retry_each (retain is_own q.rows) q
  retry_rows (some why) q = (q, failed why)

  unfoldable pub retry_pending_messages : Action (Unit {0})
  retry_pending_messages q = retry_rows O.query_fault q

-- A number of ticks, each with what it meets; an error is only logged.
unfoldable pub run_ticks : List Outside → Queue → Queue
run_ticks [] q = q
run_ticks (O ∷ os) q = run_ticks os (retry_pending_messages O q).0
