-- ===== src/Server/Authority/Administration.antt =====
-- The handlers of crates/rekindle-server/src/rpc.rs for channels, roles and timeouts change the
-- hosted communities in an allowed way, or not at all.
use rekindle.Base.{
  ℕ, String, Bool, Option, none, some, true, not, arith, ◌≡◌, ◌≢◌, refl, modify, ◌⊎◌, inl, inr,
  retain, ◌==◌,
}
use rekindle.Base.Int.{ℤ}
use rekindle.Permissions.{RoleDefinition}
use rekindle.Server.State.{HostedCommunity, ServerChannel, ServerMember}
use rekindle.Server.Protocol.{CommunityResponse}
use rekindle.Server.Store.{Database}
use rekindle.Server.Core.{Env, Server, Handled}
use rekindle.Server.Guards.Rules.{
  after_require, after_found, after_membership, after_hierarchy, after_authorise,
}
use rekindle.Server.Effects.Frame.{broadcast_to_members-Same, publish_metadata-Same}
use rekindle.Server.Channels.{
  handle_create_channel, handle_delete_channel, handle_rename_channel, handle_update_community,
  handle_set_channel_overwrite, handle_delete_channel_overwrite, add_channel, with_channel,
  without_channel, edit_channel, with_texts, upsert, is_overwrite, overwrite_type, new_channel,
  store_name, store_description, publish_texts,
}
use rekindle.Server.Roles.{
  handle_create_role, handle_edit_role, handle_delete_role, handle_assign_role,
  handle_unassign_role, handle_get_roles, add_role, with_role, new_role, edit_first, edited,
  without_role, edit_member, push_role_id, drop_role_id, store_assignment,
}
use rekindle.Server.Timeouts.{
  handle_timeout_member, handle_remove_timeout, end_of_timeout, set_timeout,
}
use rekindle.Server.Authority.{
  still, moved, renames, adds_channel, drops_channel, names_channel, sets_overwrites, adds_role,
  edits_role, drops_role, assigns_role, unassigns_role, times_out, ends_timeout,
}
use rekindle.Server.Authority.Departures.{Fine, refused, passes}

module _ {D : Database} (env : Env) (cid sender : String) (s : Server D) where
  abbrev Ok : Handled D → Type 0
  Ok = Fine env cid sender s

  no : (r : CommunityResponse) → Ok (s, r)
  no = refused env cid sender s

  hosted-add_channel :
      (c : HostedCommunity) (ch : ServerChannel)
      → ((add_channel cid c ch s).0.hosted ≡ s.hosted)
        ⊎ ((add_channel cid c ch s).0.hosted ≡ modify cid (with_channel ch) s.hosted)
  unfolding add_channel
  hosted-add_channel c ch = ground arith

  hosted-add_role :
      (c : HostedCommunity) (r : RoleDefinition)
      → ((add_role cid c r s).0.hosted ≡ s.hosted)
        ⊎ ((add_role cid c r s).0.hosted ≡ modify cid (with_role r) s.hosted)
  unfolding add_role
  hosted-add_role c r = ground arith

  hosted-store_assignment :
      (cid target : String) (role_id : ℕ) (m : ServerMember) (t : Server D)
      → (store_assignment cid target role_id m t).hosted ≡ t.hosted
  unfolding store_assignment
  hosted-store_assignment cid target role_id m t = ground arith

  hosted-store_texts :
      (name description : Option String) (t : Server D)
      → (publish_texts env cid (store_description cid description (store_name cid name t))).hosted
        ≡ t.hosted
  unfolding store_name store_description publish_texts
  hosted-store_texts name description t = grind (arith, publish_metadata-Same)

  pub handle_create_channel-Moves :
      (name type : String) → Ok (handle_create_channel env cid sender name type s)
  unfolding handle_create_channel
  handle_create_channel-Moves name type = after_authorise Ok s no env cid sender _ _ λ c e b p.
      after_require Ok s no _ _ _ _ λ t.
        passes env cid sender s _ (elim (hosted-add_channel c (new_channel env c name type)) [
          | inl h ↦ still h
          | inr h ↦
              moved c (with_channel (new_channel env c name type)) e h
                (adds_channel _ (record { member = b; permitted = p }) refl)
        ])

  pub handle_delete_channel-Moves :
      (channel_id : String) → Ok (handle_delete_channel env cid sender channel_id s)
  unfolding handle_delete_channel
  handle_delete_channel-Moves channel_id = after_authorise Ok s no env cid sender _ _ λ c e b p.
      passes env cid sender s _ (
        moved c (without_channel channel_id) e refl
          (drops_channel channel_id (record { member = b; permitted = p }) refl))

  pub handle_rename_channel-Moves :
      (channel_id name : String) → Ok (handle_rename_channel env cid sender channel_id name s)
  unfolding handle_rename_channel
  handle_rename_channel-Moves channel_id name =
      after_authorise Ok s no env cid sender _ _ λ c e b p. after_found Ok s no _ _ _ _ λ ch f.
        passes env cid sender s _ (
          moved c (edit_channel channel_id (λ ch. record ch { name = name })) e refl
            (names_channel channel_id name (record { member = b; permitted = p }) refl))

  pub handle_update_community-Moves :
      (name description : Option String)
      → Ok (handle_update_community env cid sender name description s)
  unfolding handle_update_community
  handle_update_community-Moves name description =
      after_authorise Ok s no env cid sender _ _ λ c e b p. passes env cid sender s _ (
        moved c (with_texts name description) e (hosted-store_texts name description _)
          (renames name description (record { member = b; permitted = p }) refl))

  pub handle_set_channel_overwrite-Moves :
      (channel_id type target : String) (allow deny : ℕ)
      → Ok (handle_set_channel_overwrite env cid sender channel_id type target allow deny s)
  unfolding handle_set_channel_overwrite
  handle_set_channel_overwrite-Moves channel_id type target allow deny =
      after_authorise Ok s no env cid sender _ _ λ c e b p. after_found Ok s no _ _ _ _ λ ch f.
        passes env cid sender s _ (
          moved c _ e (broadcast_to_members-Same cid _ _ _).0 (
            sets_overwrites channel_id (upsert (overwrite_type type) target allow deny)
              (record { member = b; permitted = p }) refl))

  pub handle_delete_channel_overwrite-Moves :
      (channel_id type target : String)
      → Ok (handle_delete_channel_overwrite env cid sender channel_id type target s)
  unfolding handle_delete_channel_overwrite
  handle_delete_channel_overwrite-Moves channel_id type target =
      after_authorise Ok s no env cid sender _ _ λ c e b p. passes env cid sender s _ (
        moved c _ e refl (
          sets_overwrites channel_id
            (retain (λ ow. not (is_overwrite (overwrite_type type) target ow)))
            (record { member = b; permitted = p }) refl))

  pub handle_create_role-Moves :
      (name : String) (color perms : ℕ) (hoist mentionable : Bool)
      → Ok (handle_create_role env cid sender name color perms hoist mentionable s)
  unfolding handle_create_role
  handle_create_role-Moves name color perms hoist mentionable =
      after_authorise Ok s no env cid sender _ _ λ c e b p.
        passes env cid sender s _
          (elim (hosted-add_role c (new_role c sender name color perms hoist mentionable)) [
            | inl h ↦ still h
            | inr h ↦
                moved c (with_role (new_role c sender name color perms hoist mentionable)) e h
                  (adds_role _ (record { member = b; permitted = p }) refl refl)
          ])

  pub handle_edit_role-Moves :
      (role_id : ℕ) (name : Option String) (color perms : Option ℕ) (position : Option ℤ)
      (hoist mentionable : Option Bool)
      → Ok (handle_edit_role env cid sender role_id name color perms position hoist mentionable s)
  unfolding handle_edit_role
  handle_edit_role-Moves role_id name color perms position hoist mentionable =
      after_authorise Ok s no env cid sender _ _ λ c e b p. after_found Ok s no _ _ _ _ λ r f.
        after_require Ok s no _ _ _ _ λ m. passes env cid sender s _ (
          moved c (edit_first role_id (edited name color perms position hoist mentionable)) e refl (
            edits_role role_id r name color perms position hoist mentionable
              (record { member = b; permitted = p }) f m refl))

  ne_zero : (role_id : ℕ) → not (role_id == 0) ≡ true → role_id ≢ 0
  ne_zero role_id h e = ground arith

  pub handle_delete_role-Moves : (role_id : ℕ) → Ok (handle_delete_role env cid sender role_id s)
  unfolding handle_delete_role
  handle_delete_role-Moves role_id = after_require Ok s no _ _ _ _ λ z.
      after_authorise Ok s no env cid sender _ _ λ c e b p. after_require Ok s no _ _ _ _ λ m.
        passes env cid sender s _ (
          moved c (without_role role_id) e refl
            (drops_role role_id (ne_zero role_id z) (record { member = b; permitted = p }) m refl))

  pub handle_assign_role-Moves :
      (target : String) (role_id : ℕ) → Ok (handle_assign_role env cid sender target role_id s)
  unfolding handle_assign_role
  handle_assign_role-Moves target role_id = after_authorise Ok s no env cid sender _ _ λ c e b p.
      after_hierarchy Ok s no c sender target _ λ h. after_require Ok s no _ _ _ _ λ m.
        after_found Ok s no _ _ _ _ λ t f. passes env cid sender s _ (
          moved c (edit_member target (push_role_id role_id)) e (hosted-store_assignment _ _ _ _ _)
            (assigns_role role_id target (record { member = b; permitted = p }) h m refl))

  pub handle_unassign_role-Moves :
      (target : String) (role_id : ℕ) → Ok (handle_unassign_role env cid sender target role_id s)
  unfolding handle_unassign_role
  handle_unassign_role-Moves target role_id = after_require Ok s no _ _ _ _ λ z.
      after_authorise Ok s no env cid sender _ _ λ c e b p.
        after_hierarchy Ok s no c sender target _ λ h. after_found Ok s no _ _ _ _ λ t f.
          passes env cid sender s _ (
            moved c (edit_member target (drop_role_id role_id)) e refl (
              unassigns_role role_id target (ne_zero role_id z)
                (record { member = b; permitted = p }) h refl))

  pub handle_get_roles-Moves : Ok (handle_get_roles cid sender s)
  unfolding handle_get_roles
  handle_get_roles-Moves =
      after_found Ok s no _ _ _ _
        λ c e. after_membership Ok s no c sender _ λ b. passes env cid sender s _ (still refl)

  pub handle_timeout_member-Moves :
      (target : String) (duration : ℕ) (reason : Option String)
      → Ok (handle_timeout_member env cid sender target duration reason s)
  unfolding handle_timeout_member
  handle_timeout_member-Moves target duration reason =
      after_authorise Ok s no env cid sender _ _ λ c e b p.
        after_hierarchy Ok s no c sender target _ λ h. after_found Ok s no _ _ _ _ λ t f.
          passes env cid sender s _ (
            moved c (edit_member target (set_timeout (some (end_of_timeout env duration)))) e
              (broadcast_to_members-Same cid _ _ _).0
              (times_out _ target (record { member = b; permitted = p }) h refl))

  pub handle_remove_timeout-Moves :
      (target : String) → Ok (handle_remove_timeout env cid sender target s)
  unfolding handle_remove_timeout
  handle_remove_timeout-Moves target = after_authorise Ok s no env cid sender _ _ λ c e b p.
      passes env cid sender s _ (
        moved c (edit_member target (set_timeout none)) e (broadcast_to_members-Same cid _ _ _).0
          (ends_timeout target (record { member = b; permitted = p }) refl))
