-- ===== src/Server/Departure.antt =====
-- Leaving, kicking and banning: crates/rekindle-server/src/rpc.rs.
use rekindle.Base.{not, String, str_eq, List, [], Option, none, some, get, retain}
use rekindle.Permissions.{kick_members, ban_members}
use rekindle.Server.State.{HostedCommunity, ServerMember}
use rekindle.Server.Protocol.{
  CommunityResponse, BannedMemberDto, ban_list, member_removed, mek_rotated,
}
use rekindle.Server.Store.{Database, delete_member, replace_ban, delete_ban}
use rekindle.Server.Core.{
  Env, Server, Handled, pass, require, found, ◌>>=◌, ◌>>◌, settle, change, store, timestamp_now,
}
use rekindle.Server.Guards.{
  find_member, is_member, check_permission, check_hierarchy, verify_membership,
}
use rekindle.Server.Keys.{rotate_mek}
use rekindle.Server.Effects.{broadcast_to_members, publish_member_roster, publish_mek_bundle}

abbrev pub without_member : String → HostedCommunity → HostedCommunity
without_member pseudonym c = record c {
  members = retain (λ m. not (is_member pseudonym m)) c.members;
}

abbrev pub name_of : Option ServerMember → String
name_of none = ""
name_of (some m) = m.display_name

abbrev pub or_empty : Option (List BannedMemberDto) → List BannedMemberDto
or_empty none = []
or_empty (some rows) = rows

module _ {D : Database} where
  -- The row goes, then the roster's entry, and a new key is made.
  unfoldable pub remove_member : Env → String → String → Server D → Server D
  unfolding rotate_mek
  remove_member env cid pseudonym s =
      let s' = store (delete_member cid pseudonym) s in
      elim (get cid s.hosted) [
        | none ↦ s'
        | some c ↦ rotate_mek env cid c (change cid (without_member pseudonym) s')
      ]

  -- The last message goes out only if the community is there, with its new generation.
  unfoldable pub announce_key : String → String → Server D → Server D
  announce_key cid pseudonym s = elim (get cid s.hosted) [
    | none ↦ s
    | some c ↦ broadcast_to_members cid pseudonym (mek_rotated cid c.mek.generation) s
  ]

  unfoldable pub announce_departure : String → String → Server D → Server D
  unfolding announce_key
  announce_departure cid pseudonym s = announce_key cid pseudonym (
      broadcast_to_members cid pseudonym (member_removed cid pseudonym)
        (publish_mek_bundle cid (publish_member_roster cid s)))

  unfoldable pub depart : Env → String → String → Server D → Handled D
  unfolding remove_member announce_departure
  depart env cid pseudonym s =
      (announce_departure cid pseudonym (remove_member env cid pseudonym s), CommunityResponse.ok)

  -- Membership is checked only if the community is hosted.
  unfoldable pub handle_leave : Env → String → String → Server D → Handled D
  unfolding depart
  handle_leave env cid pseudonym s = elim (get cid s.hosted) [
    | none ↦ depart env cid pseudonym s
    | some c ↦ settle s do verify_membership c pseudonym; pass (depart env cid pseudonym s)
  ]

  unfoldable pub handle_kick : Env → String → String → String → Server D → Handled D
  handle_kick env cid sender target s = settle s do
    c ← found (get cid s.hosted) 403 "not a member"
    check_permission env c sender kick_members
    require (not (str_eq sender target)) 400 "cannot kick yourself — use Leave instead"
    check_hierarchy c sender target
    pass (handle_leave env cid target s)

  unfoldable pub handle_ban : Env → String → String → String → Server D → Handled D
  handle_ban env cid sender target s = settle s do
    c ← found (get cid s.hosted) 404 "community not found"
    verify_membership c sender
    check_permission env c sender ban_members
    require (not (str_eq sender target)) 400 "cannot ban yourself"
    check_hierarchy c sender target
    let name = name_of (find_member c target)
    pass (handle_leave env cid target (store (replace_ban cid target name (timestamp_now env)) s))

  unfoldable pub handle_unban : Env → String → String → String → Server D → Handled D
  handle_unban env cid sender target s = settle s do
    c ← found (get cid s.hosted) 404 "community not found"
    verify_membership c sender
    check_permission env c sender ban_members
    pass (store (delete_ban c.community_id target) s, CommunityResponse.ok)

  unfoldable pub handle_get_ban_list : Env → String → String → Server D → Handled D
  handle_get_ban_list env cid sender s = settle s do
    c ← found (get cid s.hosted) 404 "community not found"
    verify_membership c sender
    check_permission env c sender ban_members
    pass (s, ban_list (or_empty (D.query_bans s.db c.community_id)))
