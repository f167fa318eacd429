-- ===== src/Permissions.antt =====
-- Roles, channel overwrites and permission masks: the `permissions` module of
-- crates/rekindle-protocol/src/dht/community.rs. A mask is a `u64`, an `i32` position is a ℤ.
mod Flags
pub mod Spec
pub mod Calculation
pub mod Timeout
mod Tests
unfoldable pub use Flags.*
use Prim.Native.Nat.{bit_and, bit_or}
use rekindle.Base.{
  ℕ, ◌==◌, ltb, if◌then◌else◌, Bool, true, false, not, ◌&&◌, String, str_eq, List, [], ◌∷◌, Option,
  none, some, find, any,
}
use rekindle.Base.Int.{ℤ}
use rekindle.Base.Text.{parse_u32}
use rekindle.Bits.{complement}
use Flags.{administrator, view_channel, all_permissions, timeout_mask}

abbrev pub role_everyone_id : ℕ
role_everyone_id = 0

pub record RoleDefinition : Type 0 where
  pub id : ℕ
  pub name : String
  pub color : ℕ
  pub permissions : ℕ
  pub position : ℤ
  pub hoist : Bool
  pub mentionable : Bool

pub data OverwriteType : Type 0 where
  role member : OverwriteType

pub record PermissionOverwrite : Type 0 where
  pub target_type : OverwriteType
  pub target_id : String
  pub allow : ℕ
  pub deny : ℕ

abbrev pub is_role : OverwriteType → Bool
is_role OverwriteType.role = true
is_role OverwriteType.member = false

unfoldable pub is_administrator : ℕ → Bool
is_administrator perms = not (bit_and perms administrator == 0)

unfoldable pub has_permission : ℕ → ℕ → Bool
has_permission member_permissions required =
    if not (bit_and member_permissions administrator == 0)
    then true
    else bit_and member_permissions required == required

-- Step 1: what everyone may do.
everyone_role : List RoleDefinition → ℕ
everyone_role all_roles = elim (find (λ r. r.id == role_everyone_id) all_roles) [
  | none ↦ 0
  | some r ↦ r.permissions
]

-- Step 2: the loop over the member's role ids.
grant_role : List RoleDefinition → ℕ → ℕ → ℕ
grant_role all_roles base role_id =
    if role_id == role_everyone_id then base else elim (find (λ r. r.id == role_id) all_roles) [
      | none ↦ base
      | some r ↦ bit_or base r.permissions
    ]

grant_roles : List RoleDefinition → ℕ → List ℕ → ℕ
grant_roles all_roles base [] = base
grant_roles all_roles base (role_id ∷ role_ids) =
    grant_roles all_roles (grant_role all_roles base role_id) role_ids

base_permissions : List RoleDefinition → List ℕ → ℕ
base_permissions all_roles role_ids = grant_roles all_roles (everyone_role all_roles) role_ids

-- `permissions &= !deny; permissions |= allow;`
overwrite : ℕ → ℕ → ℕ → ℕ
overwrite permissions deny allow = bit_or (bit_and permissions (complement 64 deny)) allow

-- Steps 4 and 6: the overwrites that a test picks, applied in their order.
overwrite_where : (PermissionOverwrite → Bool) → ℕ → List PermissionOverwrite → ℕ
overwrite_where test permissions [] = permissions
overwrite_where test permissions (ow ∷ ows) =
    overwrite_where test (if test ow then overwrite permissions ow.deny ow.allow else permissions)
      ows

abbrev targets_everyone : PermissionOverwrite → Bool
targets_everyone ow = is_role ow.target_type && str_eq ow.target_id "0"

abbrev targets_member : String → PermissionOverwrite → Bool
targets_member pseudonym ow = not (is_role ow.target_type) && str_eq ow.target_id pseudonym

-- Step 5: a role overwrite counts if its target parses to a role of the member's.
held_role : List ℕ → Option ℕ → Bool
held_role role_ids none = false
held_role role_ids (some role_id) =
    not (role_id == role_everyone_id) && any (λ r. r == role_id) role_ids

pub targets_held_role : List ℕ → PermissionOverwrite → Bool
unfolding held_role
targets_held_role role_ids ow =
    is_role ow.target_type && held_role role_ids (parse_u32 ow.target_id)

role_allow : List ℕ → ℕ → List PermissionOverwrite → ℕ
role_allow role_ids acc [] = acc
role_allow role_ids acc (ow ∷ ows) =
    role_allow role_ids (if targets_held_role role_ids ow then bit_or acc ow.allow else acc) ows

role_deny : List ℕ → ℕ → List PermissionOverwrite → ℕ
role_deny role_ids acc [] = acc
role_deny role_ids acc (ow ∷ ows) =
    role_deny role_ids (if targets_held_role role_ids ow then bit_or acc ow.deny else acc) ows

-- Steps 4 to 6.
channel_permissions : List ℕ → String → ℕ → List PermissionOverwrite → ℕ
channel_permissions role_ids pseudonym base [] = base
channel_permissions role_ids pseudonym base (ow ∷ ows) =
    let everyone = overwrite_where targets_everyone base (ow ∷ ows) in
    let deny = role_deny role_ids 0 (ow ∷ ows) in
    let allow = role_allow role_ids 0 (ow ∷ ows) in
    overwrite_where (targets_member pseudonym) (overwrite everyone deny allow) (ow ∷ ows)

-- `now` is the clock in seconds.
unfoldable pub is_timed_out : ℕ → Option ℕ → Bool
is_timed_out now none = false
is_timed_out now (some until) = ltb now until

-- Steps 7 and 8.
restrict : ℕ → Option ℕ → ℕ → ℕ
restrict now timeout_until permissions =
    let rest =
      if is_timed_out now timeout_until
      then bit_and permissions (complement 64 timeout_mask)
      else permissions in
    if bit_and rest view_channel == 0 then 0 else rest

pub calculate_permissions :
    ℕ → List ℕ → List RoleDefinition → List PermissionOverwrite → String → Option ℕ → ℕ
calculate_permissions now role_ids all_roles ows pseudonym timeout_until =
    let base = base_permissions all_roles role_ids in
    if is_administrator base
    then all_permissions
    else restrict now timeout_until (channel_permissions role_ids pseudonym base ows)
