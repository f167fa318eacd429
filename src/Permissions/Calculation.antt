-- ===== src/Permissions/Calculation.antt =====
-- `calculate_permissions` bit by bit.
use Prim.Native.Nat.{bit_and, bit_or}
use native.Mathlib.Nat.{one-le-pow}
use rekindle.Base.{
  ℕ, ◌<◌, ◌^◌, ◌==◌, ◌≡◌, refl, ◌∙◌, ap, if◌then◌else◌, Bool, true, false, not, ◌&&◌, ◌||◌, String,
  List, [], ◌∷◌, Option, none, some, find, any, arith, ==_iff, Bool-cases, inl, inr,
}
use rekindle.Bits.{
  has_bit, complement, has_bit-zero, has_bit-bit_or, has_bit-bit_and, has_bit-complement,
  bit_and-pow,
}
use rekindle.Permissions.{
  RoleDefinition, PermissionOverwrite, role_everyone_id, targets_everyone, targets_member,
  targets_held_role, has_permission, is_administrator, everyone_role, grant_role, grant_roles,
  base_permissions, overwrite, overwrite_where, role_allow, role_deny, channel_permissions,
  timeout_mask, view_channel, is_timed_out, restrict, calculate_permissions, all_permissions,
}
use rekindle.Permissions.Spec.{
  role_gives, gives, settle_where, role_allows, role_denies, in_channel,
}

pub is_administrator-bit : (p : ℕ) → is_administrator p ≡ has_bit 3 p
unfolding is_administrator
is_administrator-bit p = ground (arith, bit_and-pow 3 p)

-- Whoever has ADMINISTRATOR has every single permission; others have those of their own mask.
pub has_permission-bit : (i p : ℕ) → has_permission p (2 ^ i) ≡ (has_bit 3 p || has_bit i p)
unfolding has_permission
has_permission-bit i p =
    ground (arith, bit_and-pow 3 p, bit_and-pow i p, one-le-pow i 2 (omega arith))

everyone_role-bit :
    (i : ℕ) (roles : List RoleDefinition)
    → has_bit i (everyone_role roles) ≡ role_gives i roles role_everyone_id
unfolding everyone_role
everyone_role-bit i roles = ground (arith, has_bit-zero i)

grant_role-bit :
    (i : ℕ) (roles : List RoleDefinition) (base rid : ℕ)
    → (role_gives i roles role_everyone_id ≡ true → has_bit i base ≡ true)
    → has_bit i (grant_role roles base rid) ≡ (has_bit i base || role_gives i roles rid)
unfolding grant_role
grant_role-bit i roles base rid h = elim (Bool-cases (rid == role_everyone_id)) [
  | inl e ↦ rw e (rw ((==_iff rid 0).0 e) (ground (arith, h)))
  | inr e ↦ rw e (found (find (λ r. r.id == rid) roles))
]
  where
    found :
        (o : Option RoleDefinition)
        → has_bit i (elim o [ none ↦ base | some r ↦ bit_or base r.permissions ])
          ≡ (has_bit i base || elim o [ none ↦ false | some r ↦ has_bit i r.permissions ])
    found none = ground arith
    found (some r) = has_bit-bit_or i base r.permissions

grant_roles-bit :
    (i : ℕ) (roles : List RoleDefinition) (base : ℕ) (rids : List ℕ)
    → (role_gives i roles role_everyone_id ≡ true → has_bit i base ≡ true)
    → has_bit i (grant_roles roles base rids) ≡ (has_bit i base || any (role_gives i roles) rids)
unfolding grant_roles
grant_roles-bit i roles base [] h = ground arith
grant_roles-bit i roles base (rid ∷ rids) h =
    grant_roles-bit i roles (grant_role roles base rid) rids (λ e. rw step (ground (arith, h e)))
    ∙ rw step (ground arith)
  where
    step : has_bit i (grant_role roles base rid) ≡ (has_bit i base || role_gives i roles rid)
    step = grant_role-bit i roles base rid h

base_permissions-bit :
    (i : ℕ) (roles : List RoleDefinition) (rids : List ℕ)
    → has_bit i (base_permissions roles rids) ≡ gives i roles rids
unfolding base_permissions
base_permissions-bit i roles rids =
    grant_roles-bit i roles (everyone_role roles) rids (λ e. everyone_role-bit i roles ∙ e)
    ∙ rw (everyone_role-bit i roles)

module _ (i : ℕ) (small : i < 64) where
  overwrite-bit :
      (p deny allow : ℕ)
      → has_bit i (overwrite p deny allow)
        ≡ (if has_bit i allow then true else has_bit i p && not (has_bit i deny))
  unfolding overwrite
  overwrite-bit p deny allow = ground (
    arith,
    has_bit-bit_or i (bit_and p (complement 64 deny)) allow,
    has_bit-bit_and i p (complement 64 deny),
    has_bit-complement 64 i deny small,
  )

  overwrite_where-bit :
      (test : PermissionOverwrite → Bool) (p : ℕ) (ows : List PermissionOverwrite)
      → has_bit i (overwrite_where test p ows) ≡ settle_where test i ows (has_bit i p)
  unfolding overwrite_where
  overwrite_where-bit test p [] = refl
  overwrite_where-bit test p (ow ∷ ows) = elim (Bool-cases (test ow)) [
    | inl e ↦ rw e (
        overwrite_where-bit test (overwrite p ow.deny ow.allow) ows
        ∙ ap (settle_where test i ows) (overwrite-bit p ow.deny ow.allow))
    | inr e ↦ rw e (overwrite_where-bit test p ows)
  ]

  role_allow-bit :
      (rids : List ℕ) (acc : ℕ) (ows : List PermissionOverwrite)
      → has_bit i (role_allow rids acc ows) ≡ (has_bit i acc || role_allows i rids ows)
  unfolding role_allow
  role_allow-bit rids acc [] = ground arith
  role_allow-bit rids acc (ow ∷ ows) = elim (Bool-cases (targets_held_role rids ow)) [
    | inl e ↦
        rw e (role_allow-bit rids (bit_or acc ow.allow) ows ∙ rw has_bit-bit_or (ground arith))
    | inr e ↦ rw e (role_allow-bit rids acc ows)
  ]

  role_deny-bit :
      (rids : List ℕ) (acc : ℕ) (ows : List PermissionOverwrite)
      → has_bit i (role_deny rids acc ows) ≡ (has_bit i acc || role_denies i rids ows)
  unfolding role_deny
  role_deny-bit rids acc [] = ground arith
  role_deny-bit rids acc (ow ∷ ows) = elim (Bool-cases (targets_held_role rids ow)) [
    | inl e ↦ rw e (role_deny-bit rids (bit_or acc ow.deny) ows ∙ rw has_bit-bit_or (ground arith))
    | inr e ↦ rw e (role_deny-bit rids acc ows)
  ]

  channel_permissions-bit :
      (rids : List ℕ) (pseudonym : String) (base : ℕ) (ows : List PermissionOverwrite)
      → has_bit i (channel_permissions rids pseudonym base ows)
        ≡ in_channel i rids pseudonym ows (has_bit i base)
  unfolding channel_permissions
  channel_permissions-bit rids pseudonym base [] = ground arith
  channel_permissions-bit rids pseudonym base (ow ∷ ows) =
      overwrite_where-bit (targets_member pseudonym) _ (ow ∷ ows)
      ∙ ap (settle_where (targets_member pseudonym) i (ow ∷ ows)) (
          overwrite-bit _ _ _
          ∙ ground (
            arith,
            overwrite_where-bit targets_everyone base (ow ∷ ows),
            role_allow-bit rids 0 (ow ∷ ows),
            role_deny-bit rids 0 (ow ∷ ows),
            has_bit-zero i,
          ))

  timed-bit :
      (timed : Bool) (p : ℕ)
      → has_bit i (if timed then bit_and p (complement 64 timeout_mask) else p)
        ≡ (has_bit i p && not (timed && has_bit i timeout_mask))
  timed-bit true p =
      has_bit-bit_and i p (complement 64 timeout_mask)
      ∙ ap (◌&&◌ (has_bit i p)) (has_bit-complement 64 i timeout_mask small)
  timed-bit false p = ground arith

timed-view :
    (timed : Bool) (p : ℕ)
    → (bit_and (if timed then bit_and p (complement 64 timeout_mask) else p) view_channel == 0)
      ≡ not (has_bit 10 p)
timed-view timed p = ground (
  arith,
  bit_and-pow 10 (if timed then bit_and p (complement 64 timeout_mask) else p),
  timed-bit 10 (omega arith) timed p,
  view_kept,
)
  where
    view_kept : has_bit 10 timeout_mask ≡ false
    view_kept = unfold has_bit in refl

restrict-bit :
    (i : ℕ)
    → i < 64
    → (now : ℕ) (until : Option ℕ) (p : ℕ)
    → has_bit i (restrict now until p)
      ≡ (has_bit 10 p && (has_bit i p && not (is_timed_out now until && has_bit i timeout_mask)))
unfolding restrict
restrict-bit i small now until p = ground (
  arith,
  timed-view (is_timed_out now until) p,
  timed-bit i small (is_timed_out now until) p,
  has_bit-zero i,
)

channel-bit :
    (i : ℕ) (rids : List ℕ) (roles : List RoleDefinition) (ows : List PermissionOverwrite)
    (pseudonym : String)
    → i < 64
    → has_bit i (channel_permissions rids pseudonym (base_permissions roles rids) ows)
      ≡ in_channel i rids pseudonym ows (gives i roles rids)
channel-bit i rids roles ows pseudonym small =
    channel_permissions-bit i small rids pseudonym (base_permissions roles rids) ows
    ∙ ap (in_channel i rids pseudonym ows) (base_permissions-bit i roles rids)

-- Every one of the 64 bits of the calculated mask: all defined permissions for an administrator. For anyone else
-- nothing if the channel is hidden (bit 10), and otherwise what the roles and the channel's
-- overwrites settle, less the bits of the timeout mask while a timeout lasts.
pub calculate_permissions-bit :
    (i now : ℕ) (rids : List ℕ) (roles : List RoleDefinition) (ows : List PermissionOverwrite)
    (pseudonym : String) (until : Option ℕ)
    → i < 64
    → has_bit i (calculate_permissions now rids roles ows pseudonym until) ≡ (
        if gives 3 roles rids
        then has_bit i all_permissions
        else in_channel 10 rids pseudonym ows (gives 10 roles rids)
          && (in_channel i rids pseudonym ows (gives i roles rids)
              && not (is_timed_out now until && has_bit i timeout_mask)))
unfolding calculate_permissions
calculate_permissions-bit i now rids roles ows pseudonym until small =
    rw admin (branch (gives 3 roles rids))
  where
    admin : is_administrator (base_permissions roles rids) ≡ gives 3 roles rids
    admin = is_administrator-bit _ ∙ base_permissions-bit 3 roles rids

    p : ℕ
    p = channel_permissions rids pseudonym (base_permissions roles rids) ows

    branch :
        (b : Bool)
        → has_bit i (if b then all_permissions else restrict now until p) ≡ (
            if b
            then has_bit i all_permissions
            else in_channel 10 rids pseudonym ows (gives 10 roles rids)
              && (in_channel i rids pseudonym ows (gives i roles rids)
                  && not (is_timed_out now until && has_bit i timeout_mask)))
    branch true = refl
    branch false =
        restrict-bit i small now until p
        ∙ rw (
          channel-bit i rids roles ows pseudonym small,
          channel-bit 10 rids roles ows pseudonym (omega arith),
        )
