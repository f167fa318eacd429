-- ===== src/Server/Security/Outsiders.antt =====
-- A sender who does not belong to the community gets nothing done (crates/rekindle-server/src/rpc.rs).
use rekindle.Base.{
  ℕ, String, Bool, true, false, some, ◌≡◌, arith, get, any, find-eq_of_any, ◌==◌, Bool-cases, inl,
  inr,
}
use rekindle.Permissions.{has_permission, kick_members}
use rekindle.Server.State.{HostedCommunity}
use rekindle.Server.Protocol.{CommunityRequest, error}
use rekindle.Server.Store.{Database}
use rekindle.Server.Core.{Env, Server, Handled, refuse, checks}
use rekindle.Server.Guards.{
  belongs, is_member, is_creator, is_permitted, member_base_permissions, verify_membership,
  check_permission, authorise,
}
use rekindle.Server.Dispatch.{handle}
use rekindle.Server.Keys.{handle_request_mek, handle_rotate_mek}
use rekindle.Server.Departure.{
  handle_leave, handle_kick, handle_ban, handle_unban, handle_get_ban_list,
}
use rekindle.Server.Messages.{handle_send_message, handle_get_messages, check_message}
use rekindle.Server.Channels.{
  handle_create_channel, handle_delete_channel, handle_rename_channel, handle_update_community,
  handle_set_channel_overwrite, handle_delete_channel_overwrite,
}
use rekindle.Server.Roles.{
  handle_create_role, handle_edit_role, handle_delete_role, handle_assign_role,
  handle_unassign_role, handle_get_roles,
}
use rekindle.Server.Timeouts.{handle_timeout_member, handle_remove_timeout}

abbrev pub is_join : CommunityRequest → Bool
is_join (CommunityRequest.join p name route) = true
is_join CommunityRequest.leave = false
is_join _ = false

module _ {D : Database} (env : Env) (cid sender : String) (s : Server D) (c : HostedCommunity)
    (hosted : get cid s.hosted ≡ some c) (outside : belongs c sender ≡ false) where
  -- An error reply, and not the least change.
  abbrev IsRefused : Handled D → Type 0
  IsRefused r = (code : ℕ) × (message : String) × (r ≡ (s, error code message))

  no_member : any (is_member sender) c.members ≡ false
  no_member = unfold belongs in ground arith

  not_creator : is_creator c sender ≡ false
  not_creator = unfold belongs in ground arith

  no_kick : is_permitted env c sender kick_members ≡ false
  unfolding is_permitted member_base_permissions has_permission
  no_kick =
      rw (
        not_creator,
        find-eq_of_any (is_member sender) c.members no_member,
        member_base_permissions,
      )

  not_authorised :
      (required : ℕ) → authorise env cid sender required s ≡ refuse (error 403 "not a member")
  unfolding authorise verify_membership checks
  not_authorised required = rw (hosted, outside)

  send_refused :
      (ch : String) (generation : ℕ)
      → check_message env c sender ch generation ≡ refuse (error 403 "not a member")
  unfolding check_message verify_membership checks
  send_refused ch generation = rw outside

  -- Whatever the request (other than `Join`), if the sender neither is in the roster nor created the
  -- community, the reply is an error and the server is exactly as before: its communities, its
  -- database, and all that it has sent.
  pub outsider-IsRefused :
      (request : CommunityRequest)
      → is_join request ≡ false
      → IsRefused (handle env cid sender request s)
  unfolding handle checks verify_membership check_permission handle_send_message handle_get_messages
      handle_request_mek handle_leave handle_kick handle_create_channel handle_delete_channel
      handle_rotate_mek handle_rename_channel handle_update_community handle_ban handle_unban
      handle_get_ban_list handle_create_role handle_edit_role handle_delete_role handle_assign_role
      handle_unassign_role handle_set_channel_overwrite handle_delete_channel_overwrite
      handle_timeout_member handle_remove_timeout handle_get_roles
  outsider-IsRefused (CommunityRequest.join p name route) other = cc
  outsider-IsRefused (CommunityRequest.send_message ch text gen) other =
      (403, "not a member", rw (hosted, send_refused ch gen))
  outsider-IsRefused (CommunityRequest.get_messages ch before limit) other =
      (403, "not a member", rw (hosted, handle_get_messages) (rw outside))
  outsider-IsRefused CommunityRequest.request_mek other =
      (403, "not a member", rw (hosted, outside))
  outsider-IsRefused CommunityRequest.leave other =
      (403, "not a member", rw (hosted, handle_leave) (rw outside))
  outsider-IsRefused (CommunityRequest.kick target) other =
      (403, "insufficient permissions", rw (hosted, no_kick))
  outsider-IsRefused (CommunityRequest.create_channel name type) other =
      (403, "not a member", rw not_authorised)
  outsider-IsRefused (CommunityRequest.delete_channel ch) other =
      (403, "not a member", rw not_authorised)
  outsider-IsRefused CommunityRequest.rotate_mek other = (403, "not a member", rw (hosted, outside))
  outsider-IsRefused (CommunityRequest.rename_channel ch name) other =
      (403, "not a member", rw not_authorised)
  outsider-IsRefused (CommunityRequest.update_community name description) other =
      (403, "not a member", rw not_authorised)
  outsider-IsRefused (CommunityRequest.ban target) other =
      (403, "not a member", rw (hosted, outside))
  outsider-IsRefused (CommunityRequest.unban target) other =
      (403, "not a member", rw (hosted, outside))
  outsider-IsRefused CommunityRequest.get_ban_list other =
      (403, "not a member", rw (hosted, outside))
  outsider-IsRefused (CommunityRequest.create_role name color perms hoist mentionable) other =
      (403, "not a member", rw not_authorised)
  outsider-IsRefused (CommunityRequest.edit_role rid n co pe po h m) other =
      (403, "not a member", rw not_authorised)
  outsider-IsRefused (CommunityRequest.delete_role rid) other = elim (Bool-cases (rid == 0)) [
    | inl e ↦ (400, "cannot delete the @everyone role", rw e)
    | inr e ↦ (403, "not a member", rw (e, not_authorised))
  ]
  outsider-IsRefused (CommunityRequest.assign_role target rid) other =
      (403, "not a member", rw not_authorised)
  outsider-IsRefused (CommunityRequest.unassign_role target rid) other =
      elim (Bool-cases (rid == 0)) [
        | inl e ↦ (400, "cannot remove the @everyone role", rw e)
        | inr e ↦ (403, "not a member", rw (e, not_authorised))
      ]
  outsider-IsRefused (CommunityRequest.set_channel_overwrite ch type target allow deny) other =
      (403, "not a member", rw not_authorised)
  outsider-IsRefused (CommunityRequest.delete_channel_overwrite ch type target) other =
      (403, "not a member", rw not_authorised)
  outsider-IsRefused (CommunityRequest.timeout_member target duration reason) other =
      (403, "not a member", rw not_authorised)
  outsider-IsRefused (CommunityRequest.remove_timeout target) other =
      (403, "not a member", rw not_authorised)
  outsider-IsRefused CommunityRequest.get_roles other = (403, "not a member", rw (hosted, outside))
