-- ===== src/Server/Tests/Town.antt =====
-- The sample: one community with its creator, a moderator and a plain member, on a database in memory.
use rekindle.Base.{ℕ, false, String, List, [], ◌∷◌, none, some}
use rekindle.Base.Int.{pos}
use rekindle.Permissions.{RoleDefinition}
use rekindle.Server.State.{HostedCommunity, ServerMember, ServerChannel}
use rekindle.Server.Store.Memory.{memory}
use rekindle.Server.Core.{Env, Server}

abbrev pub env_at : ℕ → Env
env_at now = record {
  now = now;
  random_key = 7 ∷ 8 ∷ 9 ∷ [];
  random_hex = "abcd";
  public_key = λ s. s;
}

-- Moderator may kick, ban, moderate, and manage roles, channels and the community.
abbrev pub role : ℕ → String → ℕ → RoleDefinition
role id name perms = record {
  id = id;
  name = name;
  color = 0;
  permissions = perms;
  position = pos id;
  hoist = false;
  mentionable = false;
}

abbrev pub person : String → List ℕ → ServerMember
person key ids = record {
  pseudonym_key_hex = key;
  display_name = key;
  role_ids = ids;
  joined_at = pos 100;
  route_blob = none;
  timeout_until = none;
}

abbrev pub lobby : ServerChannel
lobby = record {
  id = "ch1";
  name = "lobby";
  channel_type = "text";
  sort_order = pos 0;
  permission_overwrites = [];
}

abbrev pub town : HostedCommunity
town = record {
  community_id = "c1";
  dht_record_key = "dht";
  owner_keypair_hex = "owner";
  name = "Town";
  description = "";
  route_id = some 5;
  route_blob = none;
  mek = record { key = 1 ∷ 2 ∷ 3 ∷ []; generation = 4 };
  members =
      person "ann" (0 ∷ 1 ∷ 2 ∷ 3 ∷ [])
      ∷ person "bob" (0 ∷ 1 ∷ 2 ∷ [])
      ∷ person "eve" (0 ∷ 1 ∷ [])
      ∷ [];
  channels = lobby ∷ [];
  roles =
      role 0 "@everyone" 3072
      ∷ role 1 "Member" 2048
      ∷ role 2 "Moderator" 1099780063286
      ∷ role 3 "Owner" 8
      ∷ [];
  creator_pseudonym_hex = "ann";
}

abbrev pub start : Server memory
start = record { hosted = ("c1", town) ∷ []; db = []; sent = [] }
