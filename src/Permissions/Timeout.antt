-- ===== src/Permissions/Timeout.antt =====
-- What a timeout takes away, and what defeats it.
use rekindle.Base.{
  ℕ, ◌<◌, ◌≤◌, none, ◌^◌, ◌≡◌, refl, true, false, String, List, Option, some, arith, ltb, ◌∙◌,
}
use rekindle.Bits.{has_bit}
use rekindle.Permissions.{
  RoleDefinition, PermissionOverwrite, has_permission, calculate_permissions, is_timed_out,
  restrict, timeout_mask, all_permissions,
}
use rekindle.Permissions.Spec.{gives, in_channel}
use rekindle.Permissions.Calculation.{has_permission-bit, calculate_permissions-bit}

module _ (now : ℕ) (rids : List ℕ) (roles : List RoleDefinition) (ows : List PermissionOverwrite)
    (pseudonym : String) where
  not_before : (until : ℕ) → until ≤ now → ltb now until ≡ false
  not_before until over = ground arith

  -- A member with an ADMINISTRATOR role passes every check, in every channel and during a timeout.
  pub administrator_bypass :
      (i : ℕ) (until : Option ℕ)
      → gives 3 roles rids ≡ true
      → has_permission (calculate_permissions now rids roles ows pseudonym until) (2 ^ i) ≡ true
  unfolding has_bit all_permissions
  administrator_bypass i until h =
      has_permission-bit i _
      ∙ ground (arith, calculate_permissions-bit 3 now rids roles ows pseudonym until (omega arith))

  -- During a timeout, no check for a bit of the timeout mask (sending, reacting, speaking,
  -- streaming, inviting) passes, unless a role or an overwrite of the channel gives ADMINISTRATOR.
  pub timeout_silences :
      (i until : ℕ)
      → i < 64
      → has_bit i timeout_mask ≡ true
      → now < until
      → gives 3 roles rids ≡ false
      → in_channel 3 rids pseudonym ows false ≡ false
      → has_permission (calculate_permissions now rids roles ows pseudonym (some until)) (2 ^ i)
        ≡ false
  unfolding is_timed_out
  timeout_silences i until small masked early plain closed =
      has_permission-bit i _
      ∙ ground (
        arith,
        calculate_permissions-bit 3 now rids roles ows pseudonym (some until) (omega arith),
        calculate_permissions-bit i now rids roles ows pseudonym (some until) small,
      )

  -- An overwrite of a visible channel that gives ADMINISTRATOR defeats the timeout: every check
  -- passes there, although no role of the member's gives it.
  pub overwrite_defeats_timeout :
      (i until : ℕ)
      → now < until
      → gives 3 roles rids ≡ false
      → in_channel 3 rids pseudonym ows false ≡ true
      → in_channel 10 rids pseudonym ows (gives 10 roles rids) ≡ true
      → has_permission (calculate_permissions now rids roles ows pseudonym (some until)) (2 ^ i)
        ≡ true
  unfolding is_timed_out has_bit
  overwrite_defeats_timeout i until early plain open_ visible =
      has_permission-bit i _
      ∙ ground (
        arith,
        calculate_permissions-bit 3 now rids roles ows pseudonym (some until) (omega arith),
      )

  -- A timeout that is over is as none.
  pub expired_lem :
      (until : ℕ)
      → until ≤ now
      → calculate_permissions now rids roles ows pseudonym (some until)
        ≡ calculate_permissions now rids roles ows pseudonym none
  unfolding calculate_permissions restrict is_timed_out
  expired_lem until over = rw (not_before until over) refl
