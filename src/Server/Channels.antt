-- ===== src/Server/Channels.antt =====
-- Channels, the community's texts and the channel overwrites: crates/rekindle-server/src/rpc.rs.
use Prim.Native.String.{◌++◌ as append}
use rekindle.Base.{
  ℕ, ◌-◌, ◌^◌, min, if◌then◌else◌, Bool, not, ◌&&◌, ◌||◌, String, str_eq, List, [], ◌∷◌, ◌++◌,
  Option, none, some, any, get, length, retain, update_first,
}
use rekindle.Base.Int.{pos}
use rekindle.Permissions.{
  PermissionOverwrite, OverwriteType, is_role, manage_channels, manage_community, manage_roles,
}
use rekindle.Server.State.{HostedCommunity, ServerChannel}
use rekindle.Server.Protocol.{
  CommunityResponse, error, channel_created, community_updated, channel_overwrite_changed,
}
use rekindle.Server.Store.{
  Database, insert_channel, delete_channel, rename_channel, update_name, update_description,
  replace_overwrite, delete_overwrite,
}
use rekindle.Server.Core.{
  Env, Server, Handled, pass, require, found, ◌>>=◌, ◌>>◌, settle, change, store,
}
use rekindle.Server.Guards.{authorise}
use rekindle.Server.Messages.{find_channel}
use rekindle.Server.Effects.{broadcast_to_members, publish_metadata}

abbrev pub is_channel : String → ServerChannel → Bool
is_channel channel_id ch = str_eq ch.id channel_id

invalid_type : String → String
invalid_type channel_type =
    append "invalid channel type '" (append channel_type "': must be 'text' or 'voice'")

abbrev pub new_channel : Env → HostedCommunity → String → String → ServerChannel
new_channel env c name channel_type = record {
  id = append "channel_" env.random_hex;
  name = name;
  channel_type = channel_type;
  sort_order = pos (min (length c.channels) (2 ^ 31 - 1));
  permission_overwrites = [];
}

abbrev pub with_channel : ServerChannel → HostedCommunity → HostedCommunity
with_channel ch c = record c { channels = c.channels ++ (ch ∷ []) }

abbrev pub without_channel : String → HostedCommunity → HostedCommunity
without_channel channel_id c = record c {
  channels = retain (λ ch. not (is_channel channel_id ch)) c.channels;
}

abbrev pub edit_channel :
    String → (ServerChannel → ServerChannel) → HostedCommunity → HostedCommunity
edit_channel channel_id f c = record c {
  channels = update_first (is_channel channel_id) f c.channels;
}

abbrev pub or_keep {ℓ} : {A : Type ℓ} → Option A → A → A
or_keep none old = old
or_keep (some new) old = new

abbrev pub with_texts : Option String → Option String → HostedCommunity → HostedCommunity
with_texts name description c = record c {
  name = or_keep name c.name;
  description = or_keep description c.description;
}

-- Any text but "member" stands for a role.
abbrev pub overwrite_type : String → OverwriteType
overwrite_type target_type =
    if str_eq target_type "member" then OverwriteType.member else OverwriteType.role

abbrev pub same_type : OverwriteType → OverwriteType → Bool
same_type a b = if is_role a then is_role b else not (is_role b)

abbrev pub is_overwrite : OverwriteType → String → PermissionOverwrite → Bool
is_overwrite target_type target_id ow =
    same_type ow.target_type target_type && str_eq ow.target_id target_id

-- Update the first overwrite of the target, or add one at the end.
unfoldable pub upsert :
    OverwriteType → String → ℕ → ℕ → List PermissionOverwrite → List PermissionOverwrite
upsert target_type target_id allow deny ows =
    if any (is_overwrite target_type target_id) ows
    then update_first (is_overwrite target_type target_id)
        (λ ow. record ow { allow = allow; deny = deny }) ows
    else ows
      ++ (record { target_type = target_type; target_id = target_id; allow = allow; deny = deny }
          ∷ [])

module _ {D : Database} where
  unfoldable pub add_channel : String → HostedCommunity → ServerChannel → Server D → Handled D
  add_channel cid c ch s =
      elim (D.execute (insert_channel c.community_id ch.id ch.name ch.channel_type ch.sort_order)
        s.db) [
          | none ↦ (s, error 500 "failed to create channel")
          | some db' ↦ (change cid (with_channel ch) (record s { db = db' }), channel_created ch.id)
        ]

  unfoldable pub handle_create_channel :
      Env → String → String → String → String → Server D → Handled D
  unfolding add_channel invalid_type
  handle_create_channel env cid sender name channel_type s = settle s do
    c ← authorise env cid sender manage_channels s
    require (str_eq channel_type "text" || str_eq channel_type "voice") 400
        (invalid_type channel_type)
    pass (add_channel cid c (new_channel env c name channel_type) s)

  unfoldable pub handle_delete_channel : Env → String → String → String → Server D → Handled D
  handle_delete_channel env cid sender channel_id s = settle s do
    c ← authorise env cid sender manage_channels s
    pass (
      store (delete_channel c.community_id channel_id) (change cid (without_channel channel_id) s),
      CommunityResponse.ok,
    )

  unfoldable pub handle_rename_channel :
      Env → String → String → String → String → Server D → Handled D
  handle_rename_channel env cid sender channel_id new_name s = settle s do
    c ← authorise env cid sender manage_channels s
    ch ← found (find_channel c channel_id) 404 "channel not found"
    pass (
      store (rename_channel c.community_id channel_id new_name)
          (change cid (edit_channel channel_id (λ ch. record ch { name = new_name })) s),
      CommunityResponse.ok,
    )

  unfoldable pub store_name : String → Option String → Server D → Server D
  store_name cid none s = s
  store_name cid (some name) s = store (update_name cid name) s

  unfoldable pub store_description : String → Option String → Server D → Server D
  store_description cid none s = s
  store_description cid (some description) s = store (update_description cid description) s

  -- The new name is read back before it is published.
  unfoldable pub publish_texts : Env → String → Server D → Server D
  publish_texts env cid s = elim (get cid s.hosted) [
    | none ↦ s
    | some c ↦ publish_metadata env cid c.name s
  ]

  unfoldable pub handle_update_community :
      Env → String → String → Option String → Option String → Server D → Handled D
  handle_update_community env cid sender new_name new_description s = settle s do
    c ← authorise env cid sender manage_community s
    pass (
      publish_texts env cid (
          store_description cid new_description
            (store_name cid new_name (change cid (with_texts new_name new_description) s))),
      community_updated,
    )

  unfoldable pub handle_set_channel_overwrite :
      Env → String → String → String → String → String → ℕ → ℕ → Server D → Handled D
  handle_set_channel_overwrite env cid sender channel_id target_type target_id allow deny s =
      settle s do
        c ← authorise env cid sender manage_roles s
        ch ← found (find_channel c channel_id) 404 "channel not found"
        let put = λ (ch : ServerChannel). record ch {
          permission_overwrites =
              upsert (overwrite_type target_type) target_id allow deny ch.permission_overwrites;
        }
        pass (
          broadcast_to_members cid "" (channel_overwrite_changed cid channel_id) (
              store (replace_overwrite c.community_id channel_id target_type target_id allow deny)
                (change cid (edit_channel channel_id put) s)),
          CommunityResponse.ok,
        )

  unfoldable pub handle_delete_channel_overwrite :
      Env → String → String → String → String → String → Server D → Handled D
  handle_delete_channel_overwrite env cid sender channel_id target_type target_id s = settle s do
    c ← authorise env cid sender manage_roles s
    let cut = λ (ch : ServerChannel). record ch {
      permission_overwrites =
          retain (λ ow. not (is_overwrite (overwrite_type target_type) target_id ow))
            ch.permission_overwrites;
    }
    pass (
      store (delete_overwrite c.community_id channel_id target_type target_id)
          (change cid (edit_channel channel_id cut) s),
      CommunityResponse.ok,
    )
