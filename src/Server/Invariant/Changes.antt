-- ===== src/Server/Invariant/Changes.antt =====
-- Every allowed change of a community, and every admission, keeps the invariant.
use mathlib.Core.Path.{subst}
use rekindle.Base.{
  ℕ, String, Bool, true, false, not, List, [], ◌∷◌, Option, none, some, ◌≡◌, ◌≢◌, refl, sym, ap,
  ◌∙◌, ◌==◌, arith, any, all, str_eq, any-eq_of_find,
}
use rekindle.Base.Distinct.{
  Distinct, Distinct-retain, Distinct-append, Distinct-update_first, Distinct-map, any-append,
  any-update_first,
}
use rekindle.Permissions.{RoleDefinition}
use rekindle.Server.State.{HostedCommunity, ServerMember}
use rekindle.Server.Core.{Env}
use rekindle.Server.Guards.{is_member, find_member}
use rekindle.Server.Keys.{with_key}
use rekindle.Server.Departure.{without_member}
use rekindle.Server.Join.{default_role_ids, new_member, with_member, rejoined, set_route}
use rekindle.Server.Roles.{
  has_id, holds, with_role, edit_first, edited, without_role, drop_role_id, push_role_id,
  edit_member,
}
use rekindle.Server.Timeouts.{set_timeout}
use rekindle.Server.Authority.{
  Allowed, leaves, removes, rotates, renames, adds_channel, drops_channel, names_channel,
  sets_overwrites, adds_role, edits_role, drops_role, assigns_role, unassigns_role, times_out,
  ends_timeout,
}
use rekindle.Server.Invariant.{IsValid, HasIds, same_member, same_role}
use rekindle.Server.Invariant.Lists.{
  any-has_id_next, any-retain_kept, all-retain, all-append, all-update_first, all-map, str_eq_comm,
}

module _ (c : HostedCommunity) (v : IsValid c) where
  same_lists : {d : HostedCommunity} → d.members ≡ c.members → d.roles ≡ c.roles → IsValid d
  same_lists em er = record {
    members = subst (Distinct same_member) (sym em) v.members;
    roles = subst (Distinct same_role) (sym er) v.roles;
    everyone = ap (any (has_id 0)) er ∙ v.everyone;
    baseline = ap (all (holds 0)) em ∙ v.baseline;
  }

  without_member-IsValid : (env : Env) (p : String) → IsValid (with_key env (without_member p c))
  without_member-IsValid env p = record {
    members = Distinct-retain same_member _ c.members v.members;
    roles = v.roles;
    everyone = v.everyone;
    baseline = all-retain (holds 0) _ c.members v.baseline;
  }

  with_role-IsValid :
      (r : RoleDefinition) → any (has_id r.id) c.roles ≡ false → IsValid (with_role r c)
  with_role-IsValid r new = record {
    members = v.members;
    roles = Distinct-append same_role (λ a b. ground arith) c.roles r v.roles new;
    everyone = any-append (has_id 0) c.roles (r ∷ []) ∙ rw v.everyone;
    baseline = v.baseline;
  }

  -- A change of one role that leaves its id alone.
  edit_first-IsValid :
      (rid : ℕ) (f : RoleDefinition → RoleDefinition)
      → ((r : RoleDefinition) → (f r).id ≡ r.id)
      → IsValid (edit_first rid f c)
  edit_first-IsValid rid f kept = record {
    members = v.members;
    roles =
        Distinct-update_first f same_role (λ a. ap (λ i. has_id i) (kept a))
          (λ a b. ap (λ i. i == a.id) (kept b)) (has_id rid) c.roles v.roles;
    everyone =
        any-update_first f (has_id 0) (has_id rid) c.roles (λ a. ap (λ i. i == 0) (kept a))
        ∙ v.everyone;
    baseline = v.baseline;
  }

  -- A change of one member that leaves its key and @everyone alone.
  edit_member-IsValid :
      (p : String) (f : ServerMember → ServerMember)
      → ((m : ServerMember) → (f m).pseudonym_key_hex ≡ m.pseudonym_key_hex)
      → ((m : ServerMember) → holds 0 m ≡ true → holds 0 (f m) ≡ true)
      → IsValid (edit_member p f c)
  edit_member-IsValid p f kept held = record {
    members =
        Distinct-update_first f same_member (λ a. ap (λ k. is_member k) (kept a))
          (λ a b. ap (λ k. str_eq k a.pseudonym_key_hex) (kept b)) (is_member p) c.members
          v.members;
    roles = v.roles;
    everyone = v.everyone;
    baseline = all-update_first (holds 0) f held (is_member p) c.members v.baseline;
  }

  drop-holds :
      (rid : ℕ)
      → rid ≢ 0
      → (m : ServerMember) → holds 0 m ≡ true
      → holds 0 (drop_role_id rid m) ≡ true
  drop-holds rid ne m h =
      any-retain_kept (λ r. r == 0) (λ r. not (r == rid)) m.role_ids (λ a e. ground arith) h

  without_role-IsValid : (rid : ℕ) → rid ≢ 0 → IsValid (without_role rid c)
  without_role-IsValid rid ne = record {
    members =
        Distinct-map (drop_role_id rid) same_member (λ a. refl) (λ a b. refl) c.members v.members;
    roles = Distinct-retain same_role _ c.roles v.roles;
    everyone = any-retain_kept (has_id 0) _ c.roles (λ a e. ground arith) v.everyone;
    baseline = all-map (holds 0) (drop_role_id rid) (drop-holds rid ne) c.members v.baseline;
  }

  push-key :
      (rid : ℕ) (m : ServerMember) → (push_role_id rid m).pseudonym_key_hex ≡ m.pseudonym_key_hex
  push-key rid m = ground arith

  push-holds : (rid : ℕ) (m : ServerMember) → holds 0 m ≡ true → holds 0 (push_role_id rid m) ≡ true
  push-holds rid m h = ground (arith, any-append (λ r. r == 0) m.role_ids (rid ∷ []))

  route-key :
      (route : Option (List ℕ)) (m : ServerMember)
      → (set_route route m).pseudonym_key_hex ≡ m.pseudonym_key_hex
  route-key none m = refl
  route-key (some blob) m = refl

  route-holds :
      (route : Option (List ℕ)) (m : ServerMember)
      → holds 0 m ≡ true
      → holds 0 (set_route route m) ≡ true
  route-holds none m h = h
  route-holds (some blob) m h = h

  pub rejoined-IsValid : (route : Option (List ℕ)) (p : String) → IsValid (rejoined route p c)
  rejoined-IsValid route p =
      edit_member-IsValid p (set_route route) (route-key route) (route-holds route)

  new-holds : (first : Bool) → any (λ r. r == 0) (default_role_ids first) ≡ true
  new-holds true = refl
  new-holds false = refl

  -- A newcomer, under a key that is not in the roster.
  pub with_member-IsValid :
      (env : Env) (p name : String) (route : Option (List ℕ)) (first : Bool)
      → find_member c p ≡ none
      → IsValid (with_member env p name route first c)
  with_member-IsValid env p name route first new = record {
    members =
        Distinct-append same_member (λ a b. str_eq_comm _ _) c.members
          (new_member env p name route first) v.members
          (any-eq_of_find (is_member p) c.members new);
    roles = v.roles;
    everyone = v.everyone;
    baseline = all-append (holds 0) c.members _ v.baseline (new-holds first);
  }

  pub Allowed-IsValid :
      (env : Env) (sender : String) (c' : HostedCommunity)
      → HasIds c
      → Allowed env sender c c'
      → IsValid c'
  Allowed-IsValid env sender c' ids (leaves b e) = rw e (without_member-IsValid env sender)
  Allowed-IsValid env sender c' ids (removes target m b e) =
      rw e (without_member-IsValid env target)
  Allowed-IsValid env sender c' ids (rotates m e) = rw e (same_lists refl refl)
  Allowed-IsValid env sender c' ids (renames name description m e) = rw e (same_lists refl refl)
  Allowed-IsValid env sender c' ids (adds_channel ch m e) = rw e (same_lists refl refl)
  Allowed-IsValid env sender c' ids (drops_channel ch m e) = rw e (same_lists refl refl)
  Allowed-IsValid env sender c' ids (names_channel ch name m e) = rw e (same_lists refl refl)
  Allowed-IsValid env sender c' ids (sets_overwrites ch f m e) = rw e (same_lists refl refl)
  Allowed-IsValid env sender c' ids (adds_role r m i e) =
      rw e (with_role-IsValid r (rw i (any-has_id_next c.roles ids)))
  Allowed-IsValid env sender c' ids (edits_role rid r n co pe po h me m f k e) =
      rw e (edit_first-IsValid rid (edited n co pe po h me) (λ r. refl))
  Allowed-IsValid env sender c' ids (drops_role rid ne m b e) = rw e (without_role-IsValid rid ne)
  Allowed-IsValid env sender c' ids (assigns_role rid target m o b e) =
      rw e (edit_member-IsValid target (push_role_id rid) (push-key rid) (push-holds rid))
  Allowed-IsValid env sender c' ids (unassigns_role rid target ne m o e) =
      rw e (edit_member-IsValid target (drop_role_id rid) (λ m. refl) (drop-holds rid ne))
  Allowed-IsValid env sender c' ids (times_out until target m o e) =
      rw e (edit_member-IsValid target (set_timeout (some until)) (λ m. refl) (λ m h. h))
  Allowed-IsValid env sender c' ids (ends_timeout target m e) =
      rw e (edit_member-IsValid target (set_timeout none) (λ m. refl) (λ m h. h))
