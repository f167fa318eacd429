-- ===== src/Permissions/Tests.antt =====
-- The permission calculation at concrete roles and overwrites.
use rekindle.Base.{ℕ, ◌^◌, true, false, List, [], ◌∷◌, some, ◌≡◌, refl, arith}
use rekindle.Base.Int.{pos}
use rekindle.Base.Text.{parse_u32}
use rekindle.Bits.{has_bit}
use rekindle.Permissions.{
  RoleDefinition, PermissionOverwrite, OverwriteType, has_permission, calculate_permissions,
  is_timed_out, targets_held_role,
}
use rekindle.Permissions.Calculation.{calculate_permissions-bit}
use rekindle.Permissions.Timeout.{timeout_silences, overwrite_defeats_timeout}

abbrev define : ℕ → ℕ → RoleDefinition
define id perms = record {
  id = id;
  name = "";
  color = 0;
  permissions = perms;
  position = pos id;
  hoist = false;
  mentionable = false;
}

-- Everyone may look and send; role 7 is ADMINISTRATOR.
abbrev roles : List RoleDefinition
roles = define 0 3072 ∷ define 7 8 ∷ []

-- For one member: ADMINISTRATOR in this channel.
abbrev gift : PermissionOverwrite
gift = record { target_type = OverwriteType.member; target_id = "eve"; allow = 8; deny = 0 }

-- For role 7: no sending.
abbrev hush : PermissionOverwrite
hush = record { target_type = OverwriteType.role; target_id = "7"; allow = 0; deny = 2048 }

calculate_permissions-bit_example :
    has_bit 11 (calculate_permissions 50 (0 ∷ []) roles (hush ∷ []) "eve" (some 40)) ≡ true
unfolding has_bit is_timed_out targets_held_role parse_u32
calculate_permissions-bit_example =
    calculate_permissions-bit 11 50 (0 ∷ []) roles (hush ∷ []) "eve" (some 40) (omega arith)

timeout_silences_example :
    has_permission (calculate_permissions 30 (0 ∷ []) roles (hush ∷ []) "eve" (some 40)) (2 ^ 11)
    ≡ false
unfolding has_bit targets_held_role parse_u32
timeout_silences_example =
    timeout_silences 30 (0 ∷ []) roles (hush ∷ []) "eve" 11 40 (omega arith) refl (omega arith) refl
      refl

overwrite_defeats_timeout_example :
    has_permission (calculate_permissions 30 (0 ∷ []) roles (gift ∷ []) "eve" (some 40)) (2 ^ 11)
    ≡ true
unfolding has_bit targets_held_role
overwrite_defeats_timeout_example =
    overwrite_defeats_timeout 30 (0 ∷ []) roles (gift ∷ []) "eve" 11 40 (omega arith) refl refl refl
