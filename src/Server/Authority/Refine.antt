-- ===== src/Server/Authority/Refine.antt =====
-- The `match` of `dispatch_request` (crates/rekindle-server/src/rpc.rs) refines the allowed changes.
use rekindle.Base.{String, arith, ◌≡◌, refl, ◌∙◌}
use rekindle.Server.Protocol.{CommunityRequest}
use rekindle.Server.Store.{Database}
use rekindle.Server.Core.{Env, Server, Handled}
use rekindle.Server.Effects.Frame.{
  broadcast_roles_changed-Same, broadcast_member_roles_changed-Same, publish_channels-Same,
}
use rekindle.Server.Effects.{
  broadcast_roles_changed, broadcast_member_roles_changed, publish_channels,
}
use rekindle.Server.Dispatch.{after_ok, after_channel_created, after_role_created, handle}
use rekindle.Server.Authority.{Moves, still, moved}
use rekindle.Server.Authority.Departures.{
  handle_request_mek-Moves, handle_rotate_mek-Moves, handle_get_messages-Moves,
  handle_send_message-Moves, handle_get_ban_list-Moves, handle_unban-Moves, leave-Moves,
  handle_kick-Moves, handle_ban-Moves,
}
use rekindle.Server.Authority.Administration.{
  handle_create_channel-Moves, handle_delete_channel-Moves, handle_rename_channel-Moves,
  handle_update_community-Moves, handle_set_channel_overwrite-Moves,
  handle_delete_channel_overwrite-Moves, handle_create_role-Moves, handle_edit_role-Moves,
  handle_delete_role-Moves, handle_assign_role-Moves, handle_unassign_role-Moves,
  handle_get_roles-Moves, handle_timeout_member-Moves, handle_remove_timeout-Moves,
}

module _ {D : Database} (env : Env) (cid sender : String) (s : Server D) where
  Moves-follow :
      {t u : Server D} → u.hosted ≡ t.hosted → Moves env cid sender s t → Moves env cid sender s u
  Moves-follow same (still e) = still (same ∙ e)
  Moves-follow same (moved c f e h a) = moved c f e (same ∙ h) a

  module _ (f : Server D → Server D) (same : (t : Server D) → (f t).hosted ≡ t.hosted)
      (r : Handled D) where
    hosted-after_ok : (after_ok f r).0.hosted ≡ r.0.hosted
    hosted-after_ok = ground (arith, same r.0)

    hosted-after_channel_created : (after_channel_created f r).0.hosted ≡ r.0.hosted
    hosted-after_channel_created = ground (arith, same r.0)

    hosted-after_role_created : (after_role_created f r).0.hosted ≡ r.0.hosted
    hosted-after_role_created = ground (arith, same r.0)

  roles_changed : (t : Server D) → (broadcast_roles_changed cid t).hosted ≡ t.hosted
  roles_changed t = (broadcast_roles_changed-Same cid t).0

  member_changed :
      (target : String) (t : Server D)
      → (broadcast_member_roles_changed cid target t).hosted ≡ t.hosted
  member_changed target t = (broadcast_member_roles_changed-Same cid target t).0

  channels : (t : Server D) → (publish_channels cid t).hosted ≡ t.hosted
  channels t = (publish_channels-Same cid t).0

  -- Every request but `Join`: nothing hosted changes, or the one community that the request is for
  -- changes in a way that the sender's membership, permissions and rank allow.
  pub handle-Moves :
      (request : CommunityRequest) → Moves env cid sender s (handle env cid sender request s).0
  unfolding handle
  handle-Moves (CommunityRequest.join p name route) = still refl
  handle-Moves (CommunityRequest.send_message ch text gen) =
      handle_send_message-Moves env cid sender s ch text gen
  handle-Moves (CommunityRequest.get_messages ch before limit) =
      handle_get_messages-Moves env cid sender s ch before limit
  handle-Moves CommunityRequest.request_mek = handle_request_mek-Moves env cid sender s
  handle-Moves CommunityRequest.leave = leave-Moves env cid sender s
  handle-Moves (CommunityRequest.kick target) = handle_kick-Moves env cid sender s target
  handle-Moves (CommunityRequest.create_channel name type) =
      Moves-follow (hosted-after_channel_created (publish_channels cid) channels _)
        (handle_create_channel-Moves env cid sender s name type)
  handle-Moves (CommunityRequest.delete_channel ch) =
      Moves-follow (hosted-after_ok (publish_channels cid) channels _)
        (handle_delete_channel-Moves env cid sender s ch)
  handle-Moves CommunityRequest.rotate_mek = handle_rotate_mek-Moves env cid sender s
  handle-Moves (CommunityRequest.rename_channel ch name) =
      Moves-follow (hosted-after_ok (publish_channels cid) channels _)
        (handle_rename_channel-Moves env cid sender s ch name)
  handle-Moves (CommunityRequest.update_community name description) =
      handle_update_community-Moves env cid sender s name description
  handle-Moves (CommunityRequest.ban target) = handle_ban-Moves env cid sender s target
  handle-Moves (CommunityRequest.unban target) = handle_unban-Moves env cid sender s target
  handle-Moves CommunityRequest.get_ban_list = handle_get_ban_list-Moves env cid sender s
  handle-Moves (CommunityRequest.create_role name color perms hoist mentionable) =
      Moves-follow (hosted-after_role_created (broadcast_roles_changed cid) roles_changed _)
        (handle_create_role-Moves env cid sender s name color perms hoist mentionable)
  handle-Moves (CommunityRequest.edit_role rid name color perms position hoist mentionable) =
      Moves-follow (hosted-after_ok (broadcast_roles_changed cid) roles_changed _)
        (handle_edit_role-Moves env cid sender s rid name color perms position hoist mentionable)
  handle-Moves (CommunityRequest.delete_role rid) =
      Moves-follow (hosted-after_ok (broadcast_roles_changed cid) roles_changed _)
        (handle_delete_role-Moves env cid sender s rid)
  handle-Moves (CommunityRequest.assign_role target rid) =
      Moves-follow
        (hosted-after_ok (broadcast_member_roles_changed cid target) (member_changed target) _)
        (handle_assign_role-Moves env cid sender s target rid)
  handle-Moves (CommunityRequest.unassign_role target rid) =
      Moves-follow
        (hosted-after_ok (broadcast_member_roles_changed cid target) (member_changed target) _)
        (handle_unassign_role-Moves env cid sender s target rid)
  handle-Moves (CommunityRequest.set_channel_overwrite ch type target allow deny) =
      handle_set_channel_overwrite-Moves env cid sender s ch type target allow deny
  handle-Moves (CommunityRequest.delete_channel_overwrite ch type target) =
      handle_delete_channel_overwrite-Moves env cid sender s ch type target
  handle-Moves (CommunityRequest.timeout_member target duration reason) =
      handle_timeout_member-Moves env cid sender s target duration reason
  handle-Moves (CommunityRequest.remove_timeout target) =
      handle_remove_timeout-Moves env cid sender s target
  handle-Moves CommunityRequest.get_roles = handle_get_roles-Moves env cid sender s
