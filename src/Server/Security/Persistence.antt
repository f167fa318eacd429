-- ===== src/Server/Security/Persistence.antt =====
-- A ban stays until it is lifted (crates/rekindle-server/src/rpc.rs).
use rekindle.Base.{
  ℕ, Bool, true, false, not, String, str_eq, List, [], ◌∷◌, Option, none, some, All, ◌≡◌, get,
  Bool-cases, inl, inr,
}
use rekindle.Server.Protocol.{CommunityRequest}
use rekindle.Server.Store.{Database}
use rekindle.Server.Store.Laws.{IsLawful}
use rekindle.Server.Core.{Env, Server, Handled}
use rekindle.Server.Effects.{
  publish_channels, broadcast_roles_changed, broadcast_member_roles_changed,
}
use rekindle.Server.Effects.Frame.{
  publish_channels-Same, broadcast_roles_changed-Same, broadcast_member_roles_changed-Same,
}
use rekindle.Server.Security.Records.{Banned, handle_leave-banned}
use rekindle.Server.Protocol.{error}
use rekindle.Server.Join.{is_hosted}
use rekindle.Server.Guards.{or_else, by_route, resolve_community_id}
use rekindle.Server.Dispatch.{
  handle, dispatch_request, dispatch_resolved, after_ok, after_channel_created, after_role_created,
}
use rekindle.Server.Security.Bans.{join_barred}
use rekindle.Server.Security.Records.Channels.{
  handle_create_channel-Kept, handle_delete_channel-Kept, handle_rename_channel-Kept,
  handle_rotate_mek-Kept, handle_set_channel_overwrite-Kept, handle_delete_channel_overwrite-Kept,
}
use rekindle.Server.Security.Records.Members.{
  handle_create_role-Kept, handle_edit_role-Kept, handle_delete_role-Kept, handle_assign_role-Kept,
  handle_unassign_role-Kept, handle_get_roles-Kept, handle_request_mek-Kept,
  handle_timeout_member-Kept, handle_remove_timeout-Kept, handle_kick-Kept, handle_ban-Kept,
  handle_unban-Kept, handle_get_ban_list-Kept,
}
use rekindle.Server.Security.Records.Joining.{join-Banned}
use rekindle.Server.Security.Records.Requests.{
  handle_send_message-Kept, handle_get_messages-Kept, handle_update_community-Kept, ok-Kept,
  channel-Kept, role-Kept,
}

-- The request lifts the ban of p, if it succeeds.
abbrev pub is_unban : String → CommunityRequest → Bool
is_unban p (CommunityRequest.unban target) = str_eq target p
is_unban p _ = false

module _ {D : Database} (lawful : IsLawful D) (bcid p : String) (env : Env) (cid sender : String)
    (s : Server D) (h : Banned lawful bcid p s.db) where
  module _ (r : Handled D) (g : Banned lawful bcid p r.0.db) where
    channels : Banned lawful bcid p (after_channel_created (publish_channels cid) r).0.db
    channels =
        channel-Kept lawful bcid p env cid sender s h (publish_channels cid)
          (λ t. (publish_channels-Same cid t).1) r g

    listed : Banned lawful bcid p (after_ok (publish_channels cid) r).0.db
    listed =
        ok-Kept lawful bcid p env cid sender s h (publish_channels cid)
          (λ t. (publish_channels-Same cid t).1) r g

    role_added : Banned lawful bcid p (after_role_created (broadcast_roles_changed cid) r).0.db
    role_added =
        role-Kept lawful bcid p env cid sender s h (broadcast_roles_changed cid)
          (λ t. (broadcast_roles_changed-Same cid t).1) r g

    roles : Banned lawful bcid p (after_ok (broadcast_roles_changed cid) r).0.db
    roles =
        ok-Kept lawful bcid p env cid sender s h (broadcast_roles_changed cid)
          (λ t. (broadcast_roles_changed-Same cid t).1) r g

    member_roles :
        (target : String)
        → Banned lawful bcid p (after_ok (broadcast_member_roles_changed cid target) r).0.db
    member_roles target =
        ok-Kept lawful bcid p env cid sender s h (broadcast_member_roles_changed cid target)
          (λ t. (broadcast_member_roles_changed-Same cid target t).1) r g

  handle-Kept :
      (request : CommunityRequest)
      → is_unban p request ≡ false
      → Banned lawful bcid p (handle env cid sender request s).0.db
  unfolding handle
  handle-Kept (CommunityRequest.join q name route) u = h
  handle-Kept (CommunityRequest.send_message ch text gen) u =
      handle_send_message-Kept lawful bcid p env cid sender s h ch text gen
  handle-Kept (CommunityRequest.get_messages ch before limit) u =
      handle_get_messages-Kept lawful bcid p env cid sender s h ch before limit
  handle-Kept CommunityRequest.request_mek u =
      handle_request_mek-Kept lawful bcid p env cid sender s h
  handle-Kept CommunityRequest.leave u = handle_leave-banned lawful bcid p env cid sender s h
  handle-Kept (CommunityRequest.kick target) u =
      handle_kick-Kept lawful bcid p env cid sender s h target
  handle-Kept (CommunityRequest.create_channel name type) u =
      channels _ (handle_create_channel-Kept lawful bcid p env cid sender s h name type)
  handle-Kept (CommunityRequest.delete_channel ch) u =
      listed _ (handle_delete_channel-Kept lawful bcid p env cid sender s h ch)
  handle-Kept CommunityRequest.rotate_mek u =
      handle_rotate_mek-Kept lawful bcid p env cid sender s h
  handle-Kept (CommunityRequest.rename_channel ch name) u =
      listed _ (handle_rename_channel-Kept lawful bcid p env cid sender s h ch name)
  handle-Kept (CommunityRequest.update_community name description) u =
      handle_update_community-Kept lawful bcid p env cid sender s h name description
  handle-Kept (CommunityRequest.ban target) u =
      handle_ban-Kept lawful bcid p env cid sender s h target
  handle-Kept (CommunityRequest.unban target) u =
      handle_unban-Kept lawful bcid p env cid sender s h target u
  handle-Kept CommunityRequest.get_ban_list u =
      handle_get_ban_list-Kept lawful bcid p env cid sender s h
  handle-Kept (CommunityRequest.create_role name color perms hoist mentionable) u =
      role_added _ (
        handle_create_role-Kept lawful bcid p env cid sender s h name color perms hoist mentionable)
  handle-Kept (CommunityRequest.edit_role rid n co pe po ho me) u =
      roles _ (handle_edit_role-Kept lawful bcid p env cid sender s h rid n co pe po ho me)
  handle-Kept (CommunityRequest.delete_role rid) u =
      roles _ (handle_delete_role-Kept lawful bcid p env cid sender s h rid)
  handle-Kept (CommunityRequest.assign_role target rid) u =
      member_roles _ (handle_assign_role-Kept lawful bcid p env cid sender s h target rid) target
  handle-Kept (CommunityRequest.unassign_role target rid) u =
      member_roles _ (handle_unassign_role-Kept lawful bcid p env cid sender s h target rid) target
  handle-Kept (CommunityRequest.set_channel_overwrite ch type target allow deny) u =
      handle_set_channel_overwrite-Kept lawful bcid p env cid sender s h ch type target allow deny
  handle-Kept (CommunityRequest.delete_channel_overwrite ch type target) u =
      handle_delete_channel_overwrite-Kept lawful bcid p env cid sender s h ch type target
  handle-Kept (CommunityRequest.timeout_member target duration reason) u =
      handle_timeout_member-Kept lawful bcid p env cid sender s h target duration reason
  handle-Kept (CommunityRequest.remove_timeout target) u =
      handle_remove_timeout-Kept lawful bcid p env cid sender s h target
  handle-Kept CommunityRequest.get_roles u = handle_get_roles-Kept lawful bcid p env cid sender s h

-- One request with what it meets: its sender, and the way it comes.
pub record Call : Type 0 where
  pub env : Env
  pub sender : String
  pub request : CommunityRequest
  pub incoming : Option ℕ
  pub ipc : Option String

abbrev pub serve : {D : Database} → List Call → Server D → Server D
serve [] s = s
serve (x ∷ xs) s = serve xs (dispatch_request x.env x.sender x.request x.incoming x.ipc s).0

-- None of the requests is to lift the ban of p.
abbrev pub IsNoUnban : String → List Call → Type 0
IsNoUnban p = All (λ x. is_unban p x.request ≡ false)

module _ {D : Database} (lawful : IsLawful D) (bcid p : String) where
  module _ (env : Env) (sender : String) (s : Server D) (h : Banned lawful bcid p s.db) where
    resolved-Kept :
        (request : CommunityRequest) (o : Option String)
        → is_unban p request ≡ false
        → Banned lawful bcid p (dispatch_resolved env sender request o s).0.db
    unfolding dispatch_resolved
    resolved-Kept request none u = h
    resolved-Kept request (some cid) u = handle-Kept lawful bcid p env cid sender s h request u

    dispatch-Kept :
        (request : CommunityRequest) (incoming : Option ℕ) (ipc : Option String)
        → is_unban p request ≡ false
        → Banned lawful bcid p (dispatch_request env sender request incoming ipc s).0.db
    unfolding dispatch_request
    dispatch-Kept (CommunityRequest.join q name route) incoming ipc u =
        elim (Bool-cases (not (str_eq q sender))) [
          | inl e ↦ rw e h
          | inr e ↦ rw e (join-Banned lawful bcid p env sender name route s h incoming ipc)
        ]
    dispatch-Kept request incoming ipc u =
        resolved-Kept request (resolve_community_id s.hosted sender incoming ipc) u

  serve-Banned :
      (calls : List Call) (s : Server D)
      → IsNoUnban p calls
      → Banned lawful bcid p s.db
      → Banned lawful bcid p (serve calls s).db
  serve-Banned [] s u h = h
  serve-Banned (x ∷ xs) s u h =
      serve-Banned xs _ u.1 (dispatch-Kept x.env x.sender s h x.request x.incoming x.ipc u.0)

  -- A ban that is on record lasts through any requests to the community server, from anybody, none of
  -- which is to lift it:
  -- after them the banned key still cannot join. Its `Join` for the community, as long as that is
  -- hosted, is answered with the error 403 and changes nothing.
  pub ban_lasts :
      (calls : List Call) (s : Server D) (env : Env) (name : String) (route : Option (List ℕ))
      (incoming : Option ℕ) (ipc : Option String)
      → D.banned s.db bcid p ≡ true
      → IsNoUnban p calls
      → or_else ipc (by_route (serve calls s).hosted incoming) ≡ some bcid
      → is_hosted (get bcid (serve calls s).hosted) ≡ true
      → dispatch_request env p (CommunityRequest.join p name route) incoming ipc (serve calls s)
        ≡ (serve calls s, error 403 "you are banned from this community")
  ban_lasts calls s env name route incoming ipc h none_lifts here hosted =
      join_barred env bcid p name route incoming ipc (serve calls s) here hosted
        (serve-Banned calls s none_lifts h)
