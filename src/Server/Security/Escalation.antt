-- ===== src/Server/Security/Escalation.antt =====
-- What the permission to manage roles is worth (crates/rekindle-server/src/rpc.rs).
use rekindle.Base.{
  ℕ, ◌^◌, ◌==◌, String, Bool, true, ◌||◌, List, [], ◌∷◌, none, some, ◌≡◌, refl, ap, ◌∙◌, arith, get,
  get-modify_self, find, any, update_first, ==_iff, Bool-cases, inl, inr,
}
use rekindle.Bits.{has_bit}
use rekindle.Permissions.{RoleDefinition, administrator, manage_roles}
use rekindle.Permissions.Spec.{role_gives}
use rekindle.Permissions.Timeout.{administrator_bypass}
use rekindle.Server.State.{HostedCommunity, ServerMember}
use rekindle.Server.Protocol.{CommunityRequest}
use rekindle.Server.Store.{Database}
use rekindle.Server.Core.{Env, Server, checks}
use rekindle.Server.Guards.{
  belongs, is_permitted, find_member, authorise, verify_membership, check_permission,
  member_base_permissions,
}
use rekindle.Server.Roles.{edited, edit_first, has_id, holds, may_edit, handle_edit_role}
use rekindle.Server.Dispatch.{handle}
use rekindle.Server.Effects.Frame.{broadcast_roles_changed-Same}

-- What the request puts into the role: ADMINISTRATOR alone.
abbrev pub crown : RoleDefinition → RoleDefinition
crown = edited none none (some administrator) none none none

crowned_gives :
    (rid : ℕ) (r : RoleDefinition) (roles : List RoleDefinition)
    → find (has_id rid) roles ≡ some r
    → role_gives 3 (update_first (has_id rid) crown roles) rid ≡ true
unfolding has_bit
crowned_gives rid r [] e = ground arith
crowned_gives rid r (x ∷ xs) e = elim (Bool-cases (x.id == rid)) [
  | inl h ↦ rw (h, role_gives, h) refl
  | inr h ↦ rw (h, role_gives, h) (crowned_gives rid r xs (ground arith))
]

any-of_holds :
    (q : ℕ → Bool) (rid : ℕ) (rids : List ℕ)
    → any (λ x. x == rid) rids ≡ true
    → q rid ≡ true
    → any q rids ≡ true
any-of_holds q rid [] h g = ground arith
any-of_holds q rid (x ∷ xs) h g = elim (Bool-cases (x == rid)) [
  | inl e ↦ rw (ap q ((==_iff x rid).0 e), g) refl
  | inr e ↦ ground (arith, any-of_holds q rid xs)
]

or_true : (a : Bool) → (a || true) ≡ true
or_true a = ground arith

crowned_sender :
    (env : Env) (c : HostedCommunity) (sender : String) (m : ServerMember) (rid i : ℕ)
    (r : RoleDefinition)
    → find_member c sender ≡ some m
    → holds rid m ≡ true
    → find (has_id rid) c.roles ≡ some r
    → is_permitted env (edit_first rid crown c) sender (2 ^ i) ≡ true
unfolding is_permitted member_base_permissions
crowned_sender env c sender m rid i r found_ held defined =
    rw (found_, member_base_permissions)
      (rw
        (administrator_bypass env.now m.role_ids (edit_first rid crown c).roles [] sender i
          m.timeout_until
          (rw
            (any-of_holds (role_gives 3 (edit_first rid crown c).roles) rid m.role_ids held
              (crowned_gives rid r c.roles defined))
            (or_true _)))
        (or_true _))

module _ {D : Database} (env : Env) (cid sender : String) (s : Server D) (c : HostedCommunity)
    (hosted : get cid s.hosted ≡ some c) where
  abbrev pub crowning : ℕ → CommunityRequest
  crowning rid = CommunityRequest.edit_role rid none none (some administrator) none none none

  crowning-hosted :
      (rid : ℕ) (r : RoleDefinition)
      → belongs c sender ≡ true
      → is_permitted env c sender manage_roles ≡ true
      → find (has_id rid) c.roles ≡ some r
      → may_edit env c sender r ≡ true
      → get cid (handle env cid sender (crowning rid) s).0.hosted ≡ some (edit_first rid crown c)
  unfolding handle handle_edit_role authorise verify_membership check_permission checks
  crowning-hosted rid r member permitted defined below =
      rw (hosted, member, permitted, defined, below)
        (ap (get cid) ((broadcast_roles_changed-Same cid _).0)
          ∙ get-modify_self cid (edit_first rid crown) s.hosted c hosted)

  -- Whoever may manage roles and holds a role that it may edit (one below its highest) can give that
  -- role ADMINISTRATOR with one request, and from then on passes every check for a single permission,
  -- whichever it is and whenever.
  pub edit_role_escalates :
      (rid : ℕ) (r : RoleDefinition) (m : ServerMember)
      → belongs c sender ≡ true
      → is_permitted env c sender manage_roles ≡ true
      → find (has_id rid) c.roles ≡ some r
      → may_edit env c sender r ≡ true
      → find_member c sender ≡ some m
      → holds rid m ≡ true
      → (env' : Env) (i : ℕ)
      → (get cid (handle env cid sender (crowning rid) s).0.hosted ≡ some (edit_first rid crown c))
        × (is_permitted env' (edit_first rid crown c) sender (2 ^ i) ≡ true)
  edit_role_escalates rid r m member permitted defined below found_ held env' i = (
    crowning-hosted rid r member permitted defined below,
    crowned_sender env' c sender m rid i r found_ held defined,
  )
