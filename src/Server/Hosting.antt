-- ===== src/Server/Hosting.antt =====
-- The roles of a new community: `create_default_roles` of crates/rekindle-server/src/community_host.rs.
pub mod Rights
use rekindle.Base.{ℕ, true, false, Bool, String, List, [], ◌∷◌, Option, none, some}
use rekindle.Base.Int.{pos}
use rekindle.Permissions.{
  RoleDefinition, role_everyone_id, everyone_permissions, member_permissions, moderator_permissions,
  admin_permissions, owner_permissions,
}
use rekindle.Server.Store.{Database, insert_default_role}
use rekindle.Server.Core.{Server}

abbrev pub default_role : ℕ → String → ℕ → ℕ → Bool → Bool → RoleDefinition
default_role id name color perms hoist mentionable = record {
  id = id;
  name = name;
  color = color;
  permissions = perms;
  position = pos id;
  hoist = hoist;
  mentionable = mentionable;
}

-- Each at the position of its id.
abbrev pub default_roles : List RoleDefinition
default_roles =
    default_role role_everyone_id "@everyone" 0 everyone_permissions false false
    ∷ default_role 1 "Member" 0 member_permissions false false
    ∷ default_role 2 "Moderator" 3447003 moderator_permissions true true
    ∷ default_role 3 "Admin" 15158332 admin_permissions true true
    ∷ default_role 4 "Owner" 15844367 owner_permissions true false
    ∷ []

-- `none` where a statement fails.
unfoldable pub created : Bool → Option (List RoleDefinition)
created true = some default_roles
created false = none

module _ {D : Database} where
  -- The first statement that fails ends the loop; the rows before it stay.
  unfoldable pub insert_roles : String → List RoleDefinition → Server D → Server D × Bool
  insert_roles cid [] s = (s, true)
  insert_roles cid (r ∷ rs) s = elim (D.execute (insert_default_role cid r) s.db) [
    | none ↦ (s, false)
    | some db' ↦ insert_roles cid rs (record s { db = db' })
  ]

  unfoldable pub create_default_roles : String → Server D → Server D × Option (List RoleDefinition)
  unfolding insert_roles created
  create_default_roles cid s = let r = insert_roles cid default_roles s in (r.0, created r.1)
