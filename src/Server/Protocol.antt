-- ===== src/Server/Protocol.antt =====
-- The community server's requests, replies and broadcasts:
-- crates/rekindle-protocol/src/messaging/envelope.rs.
use rekindle.Base.{ℕ, Bool, String, List, Option}
use rekindle.Base.Int.{ℤ}

pub record RoleDto : Type 0 where
  pub id : ℕ
  pub name : String
  pub color : ℕ
  pub permissions : ℕ
  pub position : ℤ
  pub hoist : Bool
  pub mentionable : Bool

pub record BannedMemberDto : Type 0 where
  pub pseudonym_key : String
  pub display_name : String
  pub banned_at : ℕ

pub record ChannelMessageDto : Type 0 where
  pub sender_pseudonym : String
  pub ciphertext : List ℕ
  pub mek_generation : ℕ
  pub timestamp : ℕ

pub record ChannelInfoDto : Type 0 where
  pub id : String
  pub name : String
  pub channel_type : String

-- Arguments in the order of the source's fields; `Join` without its invite code and prekey bundle,
-- which the server ignores.
pub data CommunityRequest : Type 0 where
  join : String → String → Option (List ℕ) → CommunityRequest
  send_message : String → List ℕ → ℕ → CommunityRequest
  get_messages : String → Option ℕ → ℕ → CommunityRequest
  request_mek : CommunityRequest
  leave : CommunityRequest
  kick : String → CommunityRequest
  create_channel : String → String → CommunityRequest
  delete_channel : String → CommunityRequest
  rotate_mek : CommunityRequest
  rename_channel : String → String → CommunityRequest
  update_community : Option String → Option String → CommunityRequest
  ban : String → CommunityRequest
  unban : String → CommunityRequest
  get_ban_list : CommunityRequest
  create_role : String → ℕ → ℕ → Bool → Bool → CommunityRequest
  edit_role :
      ℕ
      → Option String
      → Option ℕ
      → Option ℕ
      → Option ℤ
      → Option Bool
      → Option Bool
      → CommunityRequest
  delete_role : ℕ → CommunityRequest
  assign_role : String → ℕ → CommunityRequest
  unassign_role : String → ℕ → CommunityRequest
  set_channel_overwrite : String → String → String → ℕ → ℕ → CommunityRequest
  delete_channel_overwrite : String → String → String → CommunityRequest
  timeout_member : String → ℕ → Option String → CommunityRequest
  remove_timeout : String → CommunityRequest
  get_roles : CommunityRequest

pub data CommunityResponse : Type 0 where
  ok : CommunityResponse
  joined : List ℕ → ℕ → List ChannelInfoDto → List ℕ → List RoleDto → CommunityResponse
  messages : List ChannelMessageDto → CommunityResponse
  mek : List ℕ → ℕ → CommunityResponse
  channel_created : String → CommunityResponse
  community_updated : CommunityResponse
  ban_list : List BannedMemberDto → CommunityResponse
  role_created : ℕ → CommunityResponse
  roles_list : List RoleDto → CommunityResponse
  error : ℕ → String → CommunityResponse

pub data CommunityBroadcast : Type 0 where
  new_message : String → String → String → List ℕ → ℕ → ℕ → CommunityBroadcast
  mek_rotated : String → ℕ → CommunityBroadcast
  member_joined : String → String → String → List ℕ → CommunityBroadcast
  member_removed : String → String → CommunityBroadcast
  roles_changed : String → List RoleDto → CommunityBroadcast
  member_roles_changed : String → String → List ℕ → CommunityBroadcast
  member_timed_out : String → String → Option ℕ → CommunityBroadcast
  channel_overwrite_changed : String → String → CommunityBroadcast
