-- ===== src/Server/Roles.antt =====
-- Roles and who holds them: crates/rekindle-server/src/rpc.rs.
use rekindle.Base.{
  ℕ, ◌+◌, ◌-◌, ◌%◌, ◌^◌, max, ◌==◌, if◌then◌else◌, Bool, not, ◌||◌, String, List, [], ◌∷◌, ◌++◌,
  Option, none, some, any, find, get, map, retain, update_first,
}
use rekindle.Base.Int.{ℤ, pos, ltb_ℤ, below_at_least_one}
use rekindle.Permissions.{RoleDefinition, role_everyone_id, is_administrator, manage_roles}
use rekindle.Server.State.{HostedCommunity, ServerMember}
use rekindle.Server.Protocol.{CommunityResponse, error, role_created, roles_list}
use rekindle.Server.Store.{
  Database, insert_role, update_role, delete_role, delete_role_assignments, insert_member_role,
  delete_member_role,
}
use rekindle.Server.Core.{
  Env, Server, Handled, pass, require, found, ◌>>=◌, ◌>>◌, settle, change, store,
}
use rekindle.Server.Guards.{
  authorise, verify_membership, check_hierarchy, highest_role_position, member_base_permissions,
  is_member, find_member,
}
use rekindle.Server.Channels.{or_keep}
use rekindle.Server.Effects.{roles_to_dto}

abbrev pub has_id : ℕ → RoleDefinition → Bool
has_id role_id r = r.id == role_id

unfoldable pub max_id : List RoleDefinition → ℕ
max_id [] = 0
max_id (r ∷ rs) = max r.id (max_id rs)

-- `max().unwrap_or(0) + 1` on a `u32`.
unfoldable pub next_role_id : List RoleDefinition → ℕ
next_role_id roles = (max_id roles + 1) % 2 ^ 32

-- One position below the sender's highest, but never below 1.
abbrev pub new_role : HostedCommunity → String → String → ℕ → ℕ → Bool → Bool → RoleDefinition
new_role c sender name color perms hoist mentionable = record {
  id = next_role_id c.roles;
  name = name;
  color = color;
  permissions = perms;
  position = below_at_least_one (highest_role_position c sender);
  hoist = hoist;
  mentionable = mentionable;
}

abbrev pub i32_max : ℤ
i32_max = pos (2 ^ 31 - 1)

-- The position of a role, the highest for one that is not defined.
abbrev pub position_or_max : Option RoleDefinition → ℤ
position_or_max none = i32_max
position_or_max (some r) = r.position

abbrev pub with_role : RoleDefinition → HostedCommunity → HostedCommunity
with_role r c = record c { roles = c.roles ++ (r ∷ []) }

abbrev pub edited :
    Option String
    → Option ℕ
    → Option ℕ
    → Option ℤ
    → Option Bool
    → Option Bool
    → RoleDefinition
    → RoleDefinition
edited name color perms position hoist mentionable r = record r {
  name = or_keep name r.name;
  color = or_keep color r.color;
  permissions = or_keep perms r.permissions;
  position = or_keep position r.position;
  hoist = or_keep hoist r.hoist;
  mentionable = or_keep mentionable r.mentionable;
}

abbrev pub edit_first : ℕ → (RoleDefinition → RoleDefinition) → HostedCommunity → HostedCommunity
edit_first role_id f c = record c { roles = update_first (has_id role_id) f c.roles }

abbrev pub drop_role_id : ℕ → ServerMember → ServerMember
drop_role_id role_id m = record m { role_ids = retain (λ rid. not (rid == role_id)) m.role_ids }

-- The role goes from the definitions and from every member.
abbrev pub without_role : ℕ → HostedCommunity → HostedCommunity
without_role role_id c = record c {
  roles = retain (λ r. not (has_id role_id r)) c.roles;
  members = map (drop_role_id role_id) c.members;
}

abbrev pub edit_member : String → (ServerMember → ServerMember) → HostedCommunity → HostedCommunity
edit_member pseudonym f c = record c { members = update_first (is_member pseudonym) f c.members }

abbrev pub holds : ℕ → ServerMember → Bool
holds role_id m = any (λ rid. rid == role_id) m.role_ids

abbrev pub push_role_id : ℕ → ServerMember → ServerMember
push_role_id role_id m =
    if holds role_id m then m else record m { role_ids = m.role_ids ++ (role_id ∷ []) }

-- Below the sender's highest position, unless a role of the sender's is ADMINISTRATOR.
unfoldable pub may_edit : Env → HostedCommunity → String → RoleDefinition → Bool
may_edit env c sender r =
    ltb_ℤ r.position (highest_role_position c sender)
    || is_administrator (member_base_permissions env c sender)

unfoldable pub below_sender : HostedCommunity → String → ℕ → Bool
below_sender c sender role_id =
    ltb_ℤ (position_or_max (find (has_id role_id) c.roles)) (highest_role_position c sender)

module _ {D : Database} where
  unfoldable pub add_role : String → HostedCommunity → RoleDefinition → Server D → Handled D
  add_role cid c r s = elim (D.execute (insert_role c.community_id r) s.db) [
    | none ↦ (s, error 500 "failed to create role")
    | some db' ↦ (change cid (with_role r) (record s { db = db' }), role_created r.id)
  ]

  unfoldable pub handle_create_role :
      Env → String → String → String → ℕ → ℕ → Bool → Bool → Server D → Handled D
  unfolding add_role
  handle_create_role env cid sender name color perms hoist mentionable s = settle s do
    c ← authorise env cid sender manage_roles s
    pass (add_role cid c (new_role c sender name color perms hoist mentionable) s)

  unfoldable pub handle_edit_role :
      Env
      → String
      → String
      → ℕ
      → Option String
      → Option ℕ
      → Option ℕ
      → Option ℤ
      → Option Bool
      → Option Bool
      → Server D
      → Handled D
  unfolding may_edit
  handle_edit_role env cid sender role_id name color perms position hoist mentionable s =
      settle s do
        c ← authorise env cid sender manage_roles s
        r ← found (find (has_id role_id) c.roles) 404 "role not found"
        require (may_edit env c sender r) 403 "cannot edit a role at or above your position"
        let f = edited name color perms position hoist mentionable
        pass (
          store (update_role c.community_id role_id (f r)) (change cid (edit_first role_id f) s),
          CommunityResponse.ok,
        )

  unfoldable pub handle_delete_role : Env → String → String → ℕ → Server D → Handled D
  unfolding below_sender
  handle_delete_role env cid sender role_id s = settle s do
    require (not (role_id == role_everyone_id)) 400 "cannot delete the @everyone role"
    c ← authorise env cid sender manage_roles s
    require (below_sender c sender role_id) 403 "cannot delete a role at or above your position"
    pass (
      store (delete_role_assignments c.community_id role_id)
          (store (delete_role c.community_id role_id) (change cid (without_role role_id) s)),
      CommunityResponse.ok,
    )

  unfoldable pub store_assignment : String → String → ℕ → ServerMember → Server D → Server D
  store_assignment cid target role_id m s =
      if holds role_id m then s else store (insert_member_role cid target role_id) s

  unfoldable pub handle_assign_role : Env → String → String → String → ℕ → Server D → Handled D
  handle_assign_role env cid sender target role_id s = settle s do
    c ← authorise env cid sender manage_roles s
    check_hierarchy c sender target
    require (below_sender c sender role_id) 403 "cannot assign a role at or above your position"
    m ← found (find_member c target) 404 "target member not found"
    pass (
      store_assignment c.community_id target role_id m
          (change cid (edit_member target (push_role_id role_id)) s),
      CommunityResponse.ok,
    )

  unfoldable pub handle_unassign_role : Env → String → String → String → ℕ → Server D → Handled D
  handle_unassign_role env cid sender target role_id s = settle s do
    require (not (role_id == role_everyone_id)) 400 "cannot remove the @everyone role"
    c ← authorise env cid sender manage_roles s
    check_hierarchy c sender target
    m ← found (find_member c target) 404 "target member not found"
    pass (
      store (delete_member_role c.community_id target role_id)
          (change cid (edit_member target (drop_role_id role_id)) s),
      CommunityResponse.ok,
    )

  unfoldable pub handle_get_roles : String → String → Server D → Handled D
  handle_get_roles cid sender s = settle s do
    c ← found (get cid s.hosted) 404 "community not found"
    verify_membership c sender
    pass (s, roles_list (roles_to_dto c))
