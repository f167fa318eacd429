-- ===== src/Permissions/Spec.antt =====
-- What the permission calculation promises, one bit at a time and without masks.
use rekindle.Base.{
  ℕ, ◌==◌, if◌then◌else◌, Bool, true, false, not, ◌&&◌, ◌||◌, String, List, [], ◌∷◌, none, some,
  find, any,
}
use rekindle.Bits.{has_bit}
use rekindle.Permissions.{
  RoleDefinition, PermissionOverwrite, role_everyone_id, targets_everyone, targets_member,
  targets_held_role,
}

-- A role gives a bit if it is defined, and has it.
abbrev pub role_gives : ℕ → List RoleDefinition → ℕ → Bool
role_gives i all_roles role_id = elim (find (λ r. r.id == role_id) all_roles) [
  | none ↦ false
  | some r ↦ has_bit i r.permissions
]

-- The bit a member has by the roles: everyone's, or one of the listed.
abbrev pub gives : ℕ → List RoleDefinition → List ℕ → Bool
gives i all_roles role_ids =
    role_gives i all_roles role_everyone_id || any (role_gives i all_roles) role_ids

-- One overwrite on one bit: an allowed bit is set, a denied bit is cleared, and allowing wins.
abbrev pub settle : ℕ → PermissionOverwrite → Bool → Bool
settle i ow b = if has_bit i ow.allow then true else b && not (has_bit i ow.deny)

-- The overwrites that a test picks, in their order.
abbrev pub settle_where : (PermissionOverwrite → Bool) → ℕ → List PermissionOverwrite → Bool → Bool
settle_where test i [] b = b
settle_where test i (ow ∷ ows) b = settle_where test i ows (if test ow then settle i ow b else b)

-- Some overwrite for a role of the member's allows (or denies) the bit.
abbrev pub role_allows : ℕ → List ℕ → List PermissionOverwrite → Bool
role_allows i role_ids = any (λ ow. targets_held_role role_ids ow && has_bit i ow.allow)

abbrev pub role_denies : ℕ → List ℕ → List PermissionOverwrite → Bool
role_denies i role_ids = any (λ ow. targets_held_role role_ids ow && has_bit i ow.deny)

-- Everyone's overwrites, then the roles' together, then the member's own.
abbrev pub in_channel : ℕ → List ℕ → String → List PermissionOverwrite → Bool → Bool
in_channel i role_ids pseudonym ows b =
    let everyone = settle_where targets_everyone i ows b in
    let roles =
      if role_allows i role_ids ows then true else everyone && not (role_denies i role_ids ows) in
    settle_where (targets_member pseudonym) i ows roles
