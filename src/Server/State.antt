-- ===== src/Server/State.antt =====
-- What the community server keeps: crates/rekindle-server/src/server_state.rs, and the key record of
-- crates/rekindle-crypto/src/group/media_key.rs. Bytes are numbers; a route id, which the code only
-- compares, is a number; times are seconds.
use rekindle.Base.{ℕ, String, List, Option}
use rekindle.Base.Int.{ℤ}
use rekindle.Permissions.{RoleDefinition, PermissionOverwrite}

pub record MediaEncryptionKey : Type 0 where
  pub key : List ℕ
  pub generation : ℕ

pub record ServerMember : Type 0 where
  pub pseudonym_key_hex : String
  pub display_name : String
  pub role_ids : List ℕ
  pub joined_at : ℤ
  pub route_blob : Option (List ℕ)
  pub timeout_until : Option ℕ

pub record ServerChannel : Type 0 where
  pub id : String
  pub name : String
  pub channel_type : String
  pub sort_order : ℤ
  pub permission_overwrites : List PermissionOverwrite

pub record HostedCommunity : Type 0 where
  pub community_id : String
  pub dht_record_key : String
  pub owner_keypair_hex : String
  pub name : String
  pub description : String
  pub route_id : Option ℕ
  pub route_blob : Option (List ℕ)
  pub mek : MediaEncryptionKey
  pub members : List ServerMember
  pub channels : List ServerChannel
  pub roles : List RoleDefinition
  pub creator_pseudonym_hex : String
