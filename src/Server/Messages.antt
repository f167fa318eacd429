-- ===== src/Server/Messages.antt =====
-- Sending and reading channel messages: crates/rekindle-server/src/rpc.rs.
use Prim.Native.String.{◌++◌ as append}
use rekindle.Base.{
  ℕ, ◌-◌, ◌^◌, min, ◌==◌, String, str_eq, List, [], Option, none, some, find, get, reverse,
}
use rekindle.Base.Text.{decimal}
use rekindle.Permissions.{PermissionOverwrite, calculate_permissions, has_permission, send_messages}
use rekindle.Server.State.{HostedCommunity, ServerMember, ServerChannel}
use rekindle.Server.Protocol.{CommunityResponse, error, messages, new_message}
use rekindle.Server.Store.{Database, insert_message}
use rekindle.Server.Core.{
  Env, Server, Check, Handled, pass, require, found, ◌>>=◌, ◌>>◌, settle, timestamp_now,
}
use rekindle.Server.Guards.{find_member, verify_membership}
use rekindle.Server.Effects.{broadcast_to_members}

abbrev pub find_channel : HostedCommunity → String → Option ServerChannel
find_channel c channel_id = find (λ ch. str_eq ch.id channel_id) c.channels

-- No overwrites where the channel is not known.
abbrev pub overwrites_of : Option ServerChannel → List PermissionOverwrite
overwrites_of none = []
overwrites_of (some ch) = ch.permission_overwrites

-- The sender's permissions in the channel. A creator who is not in the roster is not checked.
abbrev pub check_send :
    Env → HostedCommunity → String → String → Option ServerMember → Check (Unit {0})
check_send env c sender channel_id none = pass tt
check_send env c sender channel_id (some m) =
    require
      (has_permission
        (calculate_permissions env.now m.role_ids c.roles
          (overwrites_of (find_channel c channel_id)) sender m.timeout_until)
        send_messages)
      403 "you do not have permission to send messages in this channel"

pub mismatch : ℕ → ℕ → String
mismatch sent current =
    append "MEK generation mismatch: sent " (
      append (decimal sent)
        (append ", current is " (append (decimal current) ". Request new MEK.")))

unfoldable pub check_message : Env → HostedCommunity → String → String → ℕ → Check (Unit {0})
unfolding mismatch
check_message env c sender channel_id mek_generation = do
  verify_membership c sender
  check_send env c sender channel_id (find_member c sender)
  require (mek_generation == c.mek.generation) 409 (mismatch mek_generation c.mek.generation)

-- `before.try_into().unwrap_or(i64::MAX)`
abbrev pub as_i64 : Option ℕ → Option ℕ
as_i64 none = none
as_i64 (some before) = some (min before (2 ^ 63 - 1))

module _ {D : Database} where
  -- A message that cannot be stored is not sent on.
  unfoldable pub deliver : Env → String → String → String → List ℕ → ℕ → Server D → Handled D
  deliver env cid sender channel_id ciphertext mek_generation s =
      elim (D.execute
        (insert_message cid channel_id sender ciphertext (min mek_generation (2 ^ 63 - 1))
          (timestamp_now env))
        s.db) [
          | none ↦ (s, error 500 "failed to store message")
          | some db' ↦ (
            broadcast_to_members cid sender
                (new_message cid channel_id sender ciphertext mek_generation (timestamp_now env))
                (record s { db = db' }),
            CommunityResponse.ok,
          )
        ]

  unfoldable pub handle_send_message :
      Env → String → String → String → List ℕ → ℕ → Server D → Handled D
  unfolding deliver
  handle_send_message env cid sender channel_id ciphertext mek_generation s = settle s do
    c ← found (get cid s.hosted) 404 "community not found"
    check_message env c sender channel_id mek_generation
    pass (deliver env cid sender channel_id ciphertext mek_generation s)

  unfoldable pub read_messages : String → String → Option ℕ → ℕ → Server D → Handled D
  read_messages cid channel_id before_timestamp limit s =
      elim (D.query_messages s.db cid channel_id (as_i64 before_timestamp) (min limit 500)) [
        | none ↦ (s, error 500 "failed to query messages")
        | some rows ↦ (s, messages (reverse rows))
      ]

  -- Membership is checked only if the community is hosted.
  unfoldable pub handle_get_messages :
      String → String → String → Option ℕ → ℕ → Server D → Handled D
  unfolding read_messages
  handle_get_messages cid sender channel_id before_timestamp limit s = elim (get cid s.hosted) [
    | none ↦ read_messages cid channel_id before_timestamp limit s
    | some c ↦
        settle s do
          verify_membership c sender
          pass (read_messages cid channel_id before_timestamp limit s)
  ]
