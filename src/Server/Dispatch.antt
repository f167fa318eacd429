-- ===== src/Server/Dispatch.antt =====
-- `dispatch_request` of crates/rekindle-server/src/rpc.rs. What it spawns (publishing the channels)
-- comes after the handler.
use rekindle.Base.{ℕ, if◌then◌else◌, not, String, str_eq, Option, none, some}
use rekindle.Server.Protocol.{
  CommunityRequest, CommunityResponse, error, channel_created, role_created,
}
use rekindle.Server.Store.{Database}
use rekindle.Server.Core.{Env, Server, Handled}
use rekindle.Server.Guards.{resolve_community_id}
use rekindle.Server.Effects.{
  publish_channels, broadcast_roles_changed, broadcast_member_roles_changed,
}
use rekindle.Server.Keys.{handle_request_mek, handle_rotate_mek}
use rekindle.Server.Join.{handle_join}
use rekindle.Server.Departure.{
  handle_leave, handle_kick, handle_ban, handle_unban, handle_get_ban_list,
}
use rekindle.Server.Messages.{handle_send_message, handle_get_messages}
use rekindle.Server.Channels.{
  handle_create_channel, handle_delete_channel, handle_rename_channel, handle_update_community,
  handle_set_channel_overwrite, handle_delete_channel_overwrite,
}
use rekindle.Server.Roles.{
  handle_create_role, handle_edit_role, handle_delete_role, handle_assign_role,
  handle_unassign_role, handle_get_roles,
}
use rekindle.Server.Timeouts.{handle_timeout_member, handle_remove_timeout}

module _ {D : Database} where
  -- `if matches!(resp, …) { … }`
  abbrev pub after_ok : (Server D → Server D) → Handled D → Handled D
  after_ok f (s, CommunityResponse.ok) = (f s, CommunityResponse.ok)
  after_ok f (s, r) = (s, r)

  abbrev pub after_channel_created : (Server D → Server D) → Handled D → Handled D
  after_channel_created f (s, CommunityResponse.channel_created id) = (f s, channel_created id)
  after_channel_created f (s, r) = (s, r)

  abbrev pub after_role_created : (Server D → Server D) → Handled D → Handled D
  after_role_created f (s, CommunityResponse.role_created id) = (f s, role_created id)
  after_role_created f (s, r) = (s, r)

  -- The requests other than `Join`, for the community that was resolved.
  unfoldable pub handle : Env → String → String → CommunityRequest → Server D → Handled D
  handle env cid sender (CommunityRequest.join pseudonym name route) s = (s, CommunityResponse.ok)
  handle env cid sender (CommunityRequest.send_message ch text gen) s =
      handle_send_message env cid sender ch text gen s
  handle env cid sender (CommunityRequest.get_messages ch before limit) s =
      handle_get_messages cid sender ch before limit s
  handle env cid sender CommunityRequest.request_mek s = handle_request_mek cid sender s
  handle env cid sender CommunityRequest.leave s = handle_leave env cid sender s
  handle env cid sender (CommunityRequest.kick target) s = handle_kick env cid sender target s
  handle env cid sender (CommunityRequest.create_channel name type) s =
      after_channel_created (publish_channels cid)
        (handle_create_channel env cid sender name type s)
  handle env cid sender (CommunityRequest.delete_channel ch) s =
      after_ok (publish_channels cid) (handle_delete_channel env cid sender ch s)
  handle env cid sender CommunityRequest.rotate_mek s = handle_rotate_mek env cid sender s
  handle env cid sender (CommunityRequest.rename_channel ch name) s =
      after_ok (publish_channels cid) (handle_rename_channel env cid sender ch name s)
  handle env cid sender (CommunityRequest.update_community name description) s =
      handle_update_community env cid sender name description s
  handle env cid sender (CommunityRequest.ban target) s = handle_ban env cid sender target s
  handle env cid sender (CommunityRequest.unban target) s = handle_unban env cid sender target s
  handle env cid sender CommunityRequest.get_ban_list s = handle_get_ban_list env cid sender s
  handle env cid sender (CommunityRequest.create_role name color perms hoist mentionable) s =
      after_role_created (broadcast_roles_changed cid)
        (handle_create_role env cid sender name color perms hoist mentionable s)
  handle env cid sender (CommunityRequest.edit_role rid name color perms position hoist mentionable)
        s =
      after_ok (broadcast_roles_changed cid)
        (handle_edit_role env cid sender rid name color perms position hoist mentionable s)
  handle env cid sender (CommunityRequest.delete_role rid) s =
      after_ok (broadcast_roles_changed cid) (handle_delete_role env cid sender rid s)
  handle env cid sender (CommunityRequest.assign_role target rid) s =
      after_ok (broadcast_member_roles_changed cid target)
        (handle_assign_role env cid sender target rid s)
  handle env cid sender (CommunityRequest.unassign_role target rid) s =
      after_ok (broadcast_member_roles_changed cid target)
        (handle_unassign_role env cid sender target rid s)
  handle env cid sender (CommunityRequest.set_channel_overwrite ch type target allow deny) s =
      handle_set_channel_overwrite env cid sender ch type target allow deny s
  handle env cid sender (CommunityRequest.delete_channel_overwrite ch type target) s =
      handle_delete_channel_overwrite env cid sender ch type target s
  handle env cid sender (CommunityRequest.timeout_member target duration reason) s =
      handle_timeout_member env cid sender target duration reason s
  handle env cid sender (CommunityRequest.remove_timeout target) s =
      handle_remove_timeout env cid sender target s
  handle env cid sender CommunityRequest.get_roles s = handle_get_roles cid sender s

  unfoldable pub dispatch_resolved :
      Env → String → CommunityRequest → Option String → Server D → Handled D
  dispatch_resolved env sender request none s =
      (s, error 403 "not a member of any hosted community")
  dispatch_resolved env sender request (some cid) s = handle env cid sender request s

  unfoldable pub dispatch_request :
      Env → String → CommunityRequest → Option ℕ → Option String → Server D → Handled D
  unfolding dispatch_resolved
  dispatch_request env sender (CommunityRequest.join pseudonym name route) incoming ipc s =
      if not (str_eq pseudonym sender)
      then (s, error 403 "pseudonym mismatch: claimed key does not match envelope signature")
      else handle_join env sender name route incoming ipc s
  dispatch_request env sender request incoming ipc s =
      dispatch_resolved env sender request (resolve_community_id s.hosted sender incoming ipc) s
