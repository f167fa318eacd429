-- ===== src/Server/Guards/Permitted.antt =====
-- `check_permission` of crates/rekindle-server/src/rpc.rs without the masks.
use rekindle.Base.{
  ℕ, ◌<◌, ◌^◌, Bool, false, not, ◌&&◌, ◌||◌, String, [], none, some, ◌≡◌, refl, arith, ◌∙◌,
  Option-cases, inl, inr,
}
use rekindle.Bits.{has_bit, has_bit-zero}
use rekindle.Permissions.{
  calculate_permissions, has_permission, is_timed_out, timeout_mask, all_permissions,
}
use rekindle.Permissions.Spec.{gives}
use rekindle.Permissions.Calculation.{has_permission-bit, calculate_permissions-bit}
use rekindle.Server.State.{HostedCommunity, ServerMember}
use rekindle.Server.Core.{Env}
use rekindle.Server.Guards.{is_permitted, is_creator, find_member, member_base_permissions}

-- The roles of a member give a permission: ADMINISTRATOR (bit 3) gives all; any other needs
-- VIEW_CHANNEL (bit 10) too, and is not one that a running timeout takes away.
abbrev pub roles_give : ℕ → ℕ → HostedCommunity → ServerMember → Bool
roles_give now i c m =
    gives 3 c.roles m.role_ids
    || (gives 10 c.roles m.role_ids
        && gives i c.roles m.role_ids
        && not (is_timed_out now m.timeout_until && has_bit i timeout_mask))

roles_permit :
    (now i : ℕ) (c : HostedCommunity) (m : ServerMember) (p : String)
    → i < 64
    → has_permission (calculate_permissions now m.role_ids c.roles [] p m.timeout_until) (2 ^ i)
      ≡ roles_give now i c m
unfolding all_permissions has_bit
roles_permit now i c m p small =
    has_permission-bit i _
    ∙ ground (
      arith,
      calculate_permissions-bit 3 now m.role_ids c.roles [] p m.timeout_until (omega arith),
      calculate_permissions-bit i now m.role_ids c.roles [] p m.timeout_until small,
    )

nothing_permits : (i : ℕ) → has_permission 0 (2 ^ i) ≡ false
nothing_permits i = has_permission-bit i 0 ∙ ground (arith, has_bit-zero 3, has_bit-zero i)

-- The check for one permission (a single bit of 64) passes for the creator, and for the members whose roles give it; for
-- nobody else.
pub is_permitted-bit :
    (env : Env) (c : HostedCommunity) (p : String) (i : ℕ)
    → i < 64
    → is_permitted env c p (2 ^ i) ≡ (
        is_creator c p
        || elim (find_member c p) [ none ↦ false | some m ↦ roles_give env.now i c m ])
unfolding is_permitted member_base_permissions
is_permitted-bit env c p i small = elim (Option-cases (find_member c p)) [
  | inl e ↦ rw (e, member_base_permissions) (rw (nothing_permits i) refl)
  | inr (m, e) ↦ rw (e, member_base_permissions) (rw (roles_permit env.now i c m p small) refl)
]
