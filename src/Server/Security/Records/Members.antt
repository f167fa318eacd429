-- ===== src/Server/Security/Records/Members.antt =====
-- Requests about roles and members leave a ban on record (crates/rekindle-server/src/rpc.rs).
use rekindle.Base.{
  ℕ, Bool, false, ◌&&◌, String, str_eq, Option, ◌≡◌, refl, arith, Bool-cases, Option-cases, inl,
  inr,
}
use rekindle.Base.Int.{ℤ}
use rekindle.Permissions.{RoleDefinition}
use rekindle.Server.State.{HostedCommunity, ServerMember}
use rekindle.Server.Protocol.{CommunityResponse}
use rekindle.Server.Store.{Database, delete_ban, insert_role}
use rekindle.Server.Store.Laws.{IsLawful}
use rekindle.Server.Core.{Env, Server, Handled}
use rekindle.Server.Effects.Frame.{broadcast_to_members-Same}
use rekindle.Server.Guards.Rules.{
  after_authorise, after_found, after_require, after_membership, after_permission, after_hierarchy,
  after_pass,
}
use rekindle.Server.Keys.{handle_request_mek}
use rekindle.Server.Departure.{handle_kick, handle_ban, handle_unban, handle_get_ban_list}
use rekindle.Server.Roles.{
  add_role, handle_create_role, handle_edit_role, handle_delete_role, store_assignment,
  handle_assign_role, handle_unassign_role, handle_get_roles, holds,
}
use rekindle.Server.Timeouts.{handle_timeout_member, handle_remove_timeout}
use rekindle.Server.Security.Records.{Banned, kept, stored, executed, handle_leave-banned}

module _ {D : Database} (lawful : IsLawful D) (bcid p : String) (env : Env) (cid sender : String)
    (s : Server D) (h : Banned lawful bcid p s.db) where
  abbrev Kept : Handled D → Type 0
  Kept r = Banned lawful bcid p r.0.db

  no : (r : CommunityResponse) → Kept (s, r)
  no r = h

  add_role-Kept : (c : HostedCommunity) (r : RoleDefinition) → Kept (add_role cid c r s)
  unfolding add_role
  add_role-Kept c r = elim (Option-cases (D.execute (insert_role c.community_id r) s.db)) [
    | inl e ↦ rw (e, add_role) h
    | inr (db', e) ↦ rw (e, add_role) (executed lawful bcid p _ s.db db' refl e h)
  ]

  pub handle_create_role-Kept :
      (name : String) (color perms : ℕ) (hoist mentionable : Bool)
      → Kept (handle_create_role env cid sender name color perms hoist mentionable s)
  unfolding handle_create_role
  handle_create_role-Kept name color perms hoist mentionable =
      after_authorise Kept s no env cid sender _ _
        λ c e b q. after_pass Kept s no _ (add_role-Kept c _)

  pub handle_edit_role-Kept :
      (rid : ℕ) (name : Option String) (color perms : Option ℕ) (position : Option ℤ)
      (hoist mentionable : Option Bool)
      → Kept (handle_edit_role env cid sender rid name color perms position hoist mentionable s)
  unfolding handle_edit_role
  handle_edit_role-Kept rid name color perms position hoist mentionable =
      after_authorise Kept s no env cid sender _ _ λ c e b q. after_found Kept s no _ _ _ _ λ r f.
        after_require Kept s no _ _ _ _
          λ m. after_pass Kept s no _ (stored lawful bcid p _ s.db refl h)

  pub handle_delete_role-Kept : (rid : ℕ) → Kept (handle_delete_role env cid sender rid s)
  unfolding handle_delete_role
  handle_delete_role-Kept rid = after_require Kept s no _ _ _ _ λ z.
      after_authorise Kept s no env cid sender _ _ λ c e b q. after_require Kept s no _ _ _ _ λ m.
        after_pass Kept s no _ (stored lawful bcid p _ _ refl (stored lawful bcid p _ s.db refl h))

  store_assignment-Kept :
      (k target : String) (rid : ℕ) (m : ServerMember) (t : Server D)
      → Banned lawful bcid p t.db
      → Banned lawful bcid p (store_assignment k target rid m t).db
  unfolding store_assignment
  store_assignment-Kept k target rid m t g = elim (Bool-cases (holds rid m)) [
    | inl e ↦ rw e g
    | inr e ↦ rw e (stored lawful bcid p _ t.db refl g)
  ]

  pub handle_assign_role-Kept :
      (target : String) (rid : ℕ) → Kept (handle_assign_role env cid sender target rid s)
  unfolding handle_assign_role
  handle_assign_role-Kept target rid = after_authorise Kept s no env cid sender _ _ λ c e b q.
      after_hierarchy Kept s no c sender target _ λ r. after_require Kept s no _ _ _ _ λ m.
        after_found Kept s no _ _ _ _
          λ t f. after_pass Kept s no _ (store_assignment-Kept _ _ _ _ _ h)

  pub handle_unassign_role-Kept :
      (target : String) (rid : ℕ) → Kept (handle_unassign_role env cid sender target rid s)
  unfolding handle_unassign_role
  handle_unassign_role-Kept target rid = after_require Kept s no _ _ _ _ λ z.
      after_authorise Kept s no env cid sender _ _ λ c e b q.
        after_hierarchy Kept s no c sender target _ λ r.
          after_found Kept s no _ _ _ _
            λ t f. after_pass Kept s no _ (stored lawful bcid p _ s.db refl h)

  pub handle_get_roles-Kept : Kept (handle_get_roles cid sender s)
  unfolding handle_get_roles
  handle_get_roles-Kept =
      after_found Kept s no _ _ _ _
        λ c e. after_membership Kept s no c sender _ λ b. after_pass Kept s no _ h

  pub handle_request_mek-Kept : Kept (handle_request_mek cid sender s)
  unfolding handle_request_mek
  handle_request_mek-Kept =
      after_found Kept s no _ _ _ _
        λ c e. after_membership Kept s no c sender _ λ b. after_pass Kept s no _ h

  pub handle_timeout_member-Kept :
      (target : String) (duration : ℕ) (reason : Option String)
      → Kept (handle_timeout_member env cid sender target duration reason s)
  unfolding handle_timeout_member
  handle_timeout_member-Kept target duration reason =
      after_authorise Kept s no env cid sender _ _ λ c e b q.
        after_hierarchy Kept s no c sender target _ λ r. after_found Kept s no _ _ _ _ λ t f.
          after_pass Kept s no _ (
            kept lawful bcid p (broadcast_to_members-Same cid "" _ _).1
              (stored lawful bcid p _ s.db refl h))

  pub handle_remove_timeout-Kept :
      (target : String) → Kept (handle_remove_timeout env cid sender target s)
  unfolding handle_remove_timeout
  handle_remove_timeout-Kept target = after_authorise Kept s no env cid sender _ _ λ c e b q.
      after_pass Kept s no _ (
        kept lawful bcid p (broadcast_to_members-Same cid "" _ _).1
          (stored lawful bcid p _ s.db refl h))

  pub handle_kick-Kept : (target : String) → Kept (handle_kick env cid sender target s)
  unfolding handle_kick
  handle_kick-Kept target = after_found Kept s no _ _ _ _ λ c e.
      after_permission Kept s no env c sender _ _ λ q. after_require Kept s no _ _ _ _ λ m.
        after_hierarchy Kept s no c sender target _
          λ r. after_pass Kept s no _ (handle_leave-banned lawful bcid p env cid target s h)

  pub handle_ban-Kept : (target : String) → Kept (handle_ban env cid sender target s)
  unfolding handle_ban
  handle_ban-Kept target = after_found Kept s no _ _ _ _ λ c e.
      after_membership Kept s no c sender _ λ b. after_permission Kept s no env c sender _ _ λ q.
        after_require Kept s no _ _ _ _ λ m. after_hierarchy Kept s no c sender target _ λ r.
          after_pass Kept s no _ (
            handle_leave-banned lawful bcid p env cid target _ (stored lawful bcid p _ s.db refl h))

  and_false : (a b : Bool) → b ≡ false → (a && b) ≡ false
  and_false a b e = ground arith

  -- Somebody else's ban is lifted.
  pub handle_unban-Kept :
      (target : String) → str_eq target p ≡ false → Kept (handle_unban env cid sender target s)
  unfolding handle_unban
  handle_unban-Kept target other = after_found Kept s no _ _ _ _ λ c e.
      after_membership Kept s no c sender _ λ b. after_permission Kept s no env c sender _ _ λ q.
        after_pass Kept s no _
          (stored lawful bcid p (delete_ban c.community_id target) s.db (and_false _ _ other) h)

  pub handle_get_ban_list-Kept : Kept (handle_get_ban_list env cid sender s)
  unfolding handle_get_ban_list
  handle_get_ban_list-Kept = after_found Kept s no _ _ _ _ λ c e.
      after_membership Kept s no c sender _
        λ b. after_permission Kept s no env c sender _ _ λ q. after_pass Kept s no _ h
