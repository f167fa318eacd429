-- ===== src/Desktop/Pending/State.antt =====
-- The table of undelivered messages, its statements, and what the application meets outside.
use rekindle.Base.{
  ℕ, ◌+◌, ◌==◌, if◌then◌else◌, String, str_eq, Bool, not, ◌&&◌, List, [], ◌∷◌, ◌++◌, map, retain,
  Option,
}
use rekindle.Base.Results.{Result}
use rekindle.Base.Actions.{Act}
use rekindle.Messaging.Envelope.{MessageEnvelope}
use rekindle.Server.Protocol.{CommunityResponse}

-- A row of `pending_messages`.
pub record PendingMessage : Type 0 where
  pub id : ℕ
  pub owner_key : String
  pub recipient_key : String
  pub body : String
  pub created_at : ℕ
  pub retry_count : ℕ

pub record PendingChannelMessage : Type 0 where
  pub community_id : String
  pub channel_id : String
  pub ciphertext : List ℕ
  pub mek_generation : ℕ
  pub timestamp : ℕ

-- What is done outside.
pub data Call : Type 0 where
  invalidate_route_for_peer : String → Call
  cache_route : String → List ℕ → Call
  send_envelope : ℕ → MessageEnvelope → Call
  send_call : ℕ → PendingChannelMessage → Call
  invalidate_route_blob : List ℕ → Call
  clear_server_route : String → Call

-- The table, the id of the next row, and the calls so far.
pub record Queue : Type 0 where
  pub rows : List PendingMessage
  pub next_id : ℕ
  pub calls : List Call

pub data Statement : Type 0 where
  insert_pending : String → String → String → ℕ → Statement
  delete_pending : ℕ → Statement
  delete_to_recipient : String → String → Statement
  increment_retry : ℕ → Statement

-- What is met outside: the database's faults, JSON, the node, the routes and the answers. What the
-- manager of routes and the network answer depends on the calls so far.
pub record Outside : Type 0 where
  pub owner_key : String
  pub query_fault : Option String
  pub fault : Statement → Option String
  pub envelope : String → Result String MessageEnvelope
  pub channel_message : String → Result String PendingChannelMessage
  pub to_json : PendingChannelMessage → Result String String
  pub has_node : Bool
  pub has_manager : Bool
  pub get_cached_route : List Call → String → Option (List ℕ)
  pub get_or_import_route : List Call → List ℕ → Result String ℕ
  pub mailbox_dht_key : String → Option String
  pub read_peer_mailbox_route : List Call → String → Result String (Option (List ℕ))
  pub sends : List Call → ℕ → MessageEnvelope → Result String (Unit {0})
  pub server_route_blob : List Call → String → Option (List ℕ)
  pub is_attached : Bool
  pub has_identity_secret : Bool
  pub request_json : PendingChannelMessage → Result String (List ℕ)
  pub import_remote_private_route : List ℕ → Result String ℕ
  pub answers : List Call → ℕ → PendingChannelMessage → Result String (List ℕ)
  pub response_of : List ℕ → Option CommunityResponse

abbrev pub Action : Type 0 → Type 0
Action A = Act String Queue A

abbrev pub without_id : ℕ → List PendingMessage → List PendingMessage
without_id id rows = retain (λ (r : PendingMessage). not (r.id == id)) rows

abbrev pub retried : ℕ → PendingMessage → PendingMessage
retried id r = record r { retry_count = if r.id == id then r.retry_count + 1 else r.retry_count }

abbrev pub execute : Statement → Queue → Queue
execute (insert_pending owner recipient body at) q = record q {
  rows =
      q.rows
      ++ (record {
        id = q.next_id;
        owner_key = owner;
        recipient_key = recipient;
        body = body;
        created_at = at;
        retry_count = 0;
      }
          ∷ []);
  next_id = q.next_id + 1;
}
execute (delete_pending id) q = record q { rows = without_id id q.rows }
execute (delete_to_recipient owner recipient) q = record q {
  rows =
      retain
        (λ (r : PendingMessage). not (str_eq r.owner_key owner && str_eq r.recipient_key recipient))
        q.rows;
}
execute (increment_retry id) q = record q { rows = map (retried id) q.rows }

abbrev pub call : Call → Queue → Queue
call c q = record q { calls = q.calls ++ (c ∷ []) }

abbrev pub max_retries : ℕ
max_retries = 20
