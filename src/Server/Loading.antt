-- ===== src/Server/Loading.antt =====
-- What the database holds of a community, as it is loaded: the load functions of
-- crates/rekindle-server/src/community_host.rs, and load_latest_mek and create_initial_mek of mek.rs.
use rekindle.Base.{
  ℕ, ◌==◌, ltb, if◌then◌else◌, String, str_eq, List, [], ◌∷◌, ◌++◌, map, Option, none, some, length,
  update_first,
}
use rekindle.Base.Int.{ℤ, pos, negsuc}
use rekindle.Permissions.{RoleDefinition, PermissionOverwrite, OverwriteType}
use rekindle.Server.State.{ServerMember, ServerChannel, MediaEncryptionKey}
use rekindle.Server.Store.{Database, replace_mek}
use rekindle.Server.Core.{Env, Server, store, timestamp_now}
use rekindle.Server.Guards.{is_member}

-- A row of server_members, server_channels and server_channel_overwrites.
pub record MemberRow : Type 0 where
  pub pseudonym_key_hex : String
  pub display_name : Option String
  pub joined_at : ℤ
  pub route_blob : Option (List ℕ)

pub record ChannelRow : Type 0 where
  pub id : String
  pub name : String
  pub channel_type : String
  pub sort_order : ℤ

pub record OverwriteRow : Type 0 where
  pub channel_id : String
  pub target_type : String
  pub target_id : String
  pub allow : ℕ
  pub deny : ℕ

-- The queries of a community, with the rows that can be read; `none` where the query fails.
-- `latest_mek` has the generation and the bytes of the highest generation.
pub record Queries (D : Database) : Type 0 where
  pub member_rows : D.Db → String → Option (List MemberRow)
  pub member_role_rows : D.Db → String → Option (List (String × ℕ))
  pub timeout_rows : D.Db → String → Option (List (String × ℕ))
  pub channel_rows : D.Db → String → Option (List ChannelRow)
  pub overwrite_rows : D.Db → String → Option (List OverwriteRow)
  pub role_rows : D.Db → String → Option (List RoleDefinition)
  pub description : D.Db → String → Option String
  pub creator_pseudonym : D.Db → String → Option String
  pub name : D.Db → String → Option String
  pub latest_mek : D.Db → String → Option (ℤ × List ℕ)

-- `unwrap_or_default`
abbrev pub or_empty : Option String → String
or_empty none = ""
or_empty (some text) = text

infixl 5 ◌>>=◌
abbrev ◌>>=◌ {ℓ κ} : {A : Type ℓ} {B : Type κ} → Option A → (A → Option B) → Option B
none >>= f = none
some a >>= f = f a

abbrev pub loaded_member : MemberRow → ServerMember
loaded_member row = record {
  pseudonym_key_hex = row.pseudonym_key_hex;
  display_name = or_empty row.display_name;
  role_ids = [];
  joined_at = row.joined_at;
  route_blob = row.route_blob;
  timeout_until = none;
}

abbrev pub push_role : ℕ → ServerMember → ServerMember
push_role id m = record m { role_ids = m.role_ids ++ (id ∷ []) }

-- The loop over the rows of server_member_roles.
abbrev pub add_roles : List (String × ℕ) → List ServerMember → List ServerMember
add_roles [] members = members
add_roles ((key, id) ∷ rows) members =
    add_roles rows (update_first (is_member key) (push_role id) members)

abbrev pub time_out : ℕ → ServerMember → ServerMember
time_out until m = record m { timeout_until = some until }

-- The loop over the rows of server_member_timeouts: those that are over are left out.
abbrev pub add_timeouts : ℕ → List (String × ℕ) → List ServerMember → List ServerMember
add_timeouts now [] members = members
add_timeouts now ((key, until) ∷ rows) members =
    add_timeouts now rows
      (if ltb now until then update_first (is_member key) (time_out until) members else members)

abbrev pub loaded_channel : ChannelRow → ServerChannel
loaded_channel row = record {
  id = row.id;
  name = row.name;
  channel_type = row.channel_type;
  sort_order = row.sort_order;
  permission_overwrites = [];
}

abbrev pub loaded_overwrite : OverwriteRow → PermissionOverwrite
loaded_overwrite row = record {
  target_type =
      if str_eq row.target_type "member" then OverwriteType.member else OverwriteType.role;
  target_id = row.target_id;
  allow = row.allow;
  deny = row.deny;
}

abbrev pub push_overwrite : PermissionOverwrite → ServerChannel → ServerChannel
push_overwrite ow ch = record ch { permission_overwrites = ch.permission_overwrites ++ (ow ∷ []) }

abbrev pub add_overwrites : List OverwriteRow → List ServerChannel → List ServerChannel
add_overwrites [] channels = channels
add_overwrites (row ∷ rows) channels = add_overwrites rows (
    update_first (λ ch. str_eq ch.id row.channel_id) (push_overwrite (loaded_overwrite row))
      channels)

-- `i64` to `u64`, zero where it is negative.
abbrev pub generation_of : ℤ → ℕ
generation_of (pos n) = n
generation_of (negsuc n) = 0

abbrev pub loaded_mek : Option (ℤ × List ℕ) → Option MediaEncryptionKey
loaded_mek none = none
loaded_mek (some (generation, bytes)) =
    if length bytes == 32
    then some (record { key = bytes; generation = generation_of generation })
    else none

module _ {D : Database} (Q : Queries D) where
  unfoldable pub load_members_from_db : Env → D.Db → String → Option (List ServerMember)
  load_members_from_db env db cid = do
    rows ← Q.member_rows db cid
    roles ← Q.member_role_rows db cid
    timeouts ← Q.timeout_rows db cid
    some (add_timeouts env.now timeouts (add_roles roles (map loaded_member rows)))

  unfoldable pub load_channels_from_db : D.Db → String → Option (List ServerChannel)
  load_channels_from_db db cid = do
    rows ← Q.channel_rows db cid
    overwrites ← Q.overwrite_rows db cid
    some (add_overwrites overwrites (map loaded_channel rows))

  abbrev pub load_roles_from_db : D.Db → String → Option (List RoleDefinition)
  load_roles_from_db db cid = Q.role_rows db cid

  unfoldable pub load_latest_mek : D.Db → String → Option MediaEncryptionKey
  load_latest_mek db cid = loaded_mek (Q.latest_mek db cid)

abbrev pub initial_mek : Env → MediaEncryptionKey
initial_mek env = record { key = env.random_key; generation = 1 }

unfoldable pub create_initial_mek :
    {D : Database} → Env → String → Server D → Server D × MediaEncryptionKey
create_initial_mek env cid s =
    (store (replace_mek cid 1 env.random_key (timestamp_now env)) s, initial_mek env)
