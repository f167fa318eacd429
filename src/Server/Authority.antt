-- ===== src/Server/Authority.antt =====
-- The changes that a member may make to a community, stated without the handlers: what each
-- requires of the sender, and what becomes of the community.
mod Departures
mod Administration
pub mod Refine
pub mod Admission
use rekindle.Base.{
  ℕ, String, Bool, List, Option, none, some, ◌≡◌, ◌≢◌, ◌⊎◌, find, get, modify, true, false,
}
use rekindle.Base.Int.{ℤ}
use rekindle.Permissions.{
  RoleDefinition, PermissionOverwrite, kick_members, ban_members, manage_channels, manage_community,
  manage_roles, moderate_members,
}
use rekindle.Server.State.{HostedCommunity, ServerChannel}
use rekindle.Server.Store.{Database}
use rekindle.Server.Core.{Env, Server}
use rekindle.Server.Guards.{belongs, is_permitted, outranks, find_member}
use rekindle.Server.Join.{is_empty, rejoined, with_member}
use rekindle.Server.Keys.{with_key}
use rekindle.Server.Departure.{without_member}
use rekindle.Server.Channels.{with_channel, without_channel, edit_channel, with_texts}
use rekindle.Server.Roles.{
  with_role, next_role_id, edit_first, edited, has_id, may_edit, without_role, below_sender,
  edit_member, push_role_id, drop_role_id,
}
use rekindle.Server.Timeouts.{set_timeout}

module _ (env : Env) (sender : String) (c : HostedCommunity) where
  -- The sender belongs to the community and has the permission.
  pub record MayUse (required : ℕ) : Type 0 where
    pub member : belongs c sender ≡ true
    pub permitted : is_permitted env c sender required ≡ true

  -- Removing somebody else: kicking needs the permission alone, banning membership too.
  pub record MayRemove (target : String) : Type 0 where
    pub other : sender ≢ target
    pub permitted :
        (is_permitted env c sender kick_members ≡ true)
        ⊎ (is_permitted env c sender ban_members ≡ true)
    pub higher : outranks c sender target ≡ true

  -- The community after the change is the last argument.
  pub data Allowed (c' : HostedCommunity) : Type 0 where
    leaves : belongs c sender ≡ true → c' ≡ with_key env (without_member sender c) → Allowed c'
    removes :
        (target : String)
        → MayRemove target
        → belongs c target ≡ true
        → c' ≡ with_key env (without_member target c)
        → Allowed c'
    rotates : MayUse manage_community → c' ≡ with_key env c → Allowed c'
    renames :
        (name description : Option String)
        → MayUse manage_community
        → c' ≡ with_texts name description c
        → Allowed c'
    adds_channel :
        (ch : ServerChannel) → MayUse manage_channels → c' ≡ with_channel ch c → Allowed c'
    drops_channel :
        (channel_id : String)
        → MayUse manage_channels
        → c' ≡ without_channel channel_id c
        → Allowed c'
    names_channel :
        (channel_id name : String)
        → MayUse manage_channels
        → c' ≡ edit_channel channel_id (λ ch. record ch { name = name }) c
        → Allowed c'
    sets_overwrites :
        (channel_id : String) (f : List PermissionOverwrite → List PermissionOverwrite)
        → MayUse manage_roles
        → c'
          ≡ edit_channel channel_id
              (λ ch. record ch { permission_overwrites = f ch.permission_overwrites })
              c
        → Allowed c'
    adds_role :
        (r : RoleDefinition)
        → MayUse manage_roles
        → r.id ≡ next_role_id c.roles
        → c' ≡ with_role r c
        → Allowed c'
    edits_role :
        (role_id : ℕ) (r : RoleDefinition) (name : Option String) (color perms : Option ℕ)
        (position : Option ℤ) (hoist mentionable : Option Bool)
        → MayUse manage_roles
        → find (has_id role_id) c.roles ≡ some r
        → may_edit env c sender r ≡ true
        → c' ≡ edit_first role_id (edited name color perms position hoist mentionable) c
        → Allowed c'
    drops_role :
        (role_id : ℕ)
        → role_id ≢ 0
        → MayUse manage_roles
        → below_sender c sender role_id ≡ true
        → c' ≡ without_role role_id c
        → Allowed c'
    assigns_role :
        (role_id : ℕ) (target : String)
        → MayUse manage_roles
        → outranks c sender target ≡ true
        → below_sender c sender role_id ≡ true
        → c' ≡ edit_member target (push_role_id role_id) c
        → Allowed c'
    unassigns_role :
        (role_id : ℕ) (target : String)
        → role_id ≢ 0
        → MayUse manage_roles
        → outranks c sender target ≡ true
        → c' ≡ edit_member target (drop_role_id role_id) c
        → Allowed c'
    times_out :
        (until : ℕ) (target : String)
        → MayUse moderate_members
        → outranks c sender target ≡ true
        → c' ≡ edit_member target (set_timeout (some until)) c
        → Allowed c'
    ends_timeout :
        (target : String)
        → MayUse moderate_members
        → c' ≡ edit_member target (set_timeout none) c
        → Allowed c'

-- Nothing hosted changes, or one community changes in an allowed way.
pub data Moves {D : Database} (env : Env) (cid sender : String) (s s' : Server D) : Type 0 where
  still : s'.hosted ≡ s.hosted → Moves env cid sender s s'
  moved :
      (c : HostedCommunity) (f : HostedCommunity → HostedCommunity)
      → get cid s.hosted ≡ some c
      → s'.hosted ≡ modify cid f s.hosted
      → Allowed env sender c (f c)
      → Moves env cid sender s s'

-- What one request may do to the hosted communities.
pub data Transition {D : Database} (env : Env) (sender : String) (s s' : Server D) : Type 0 where
  acts : (cid : String) → Moves env cid sender s s' → Transition env sender s s'
  returns :
      (cid : String) (c : HostedCommunity) (route : Option (List ℕ))
      → get cid s.hosted ≡ some c
      → D.banned s.db cid sender ≡ false
      → s'.hosted ≡ modify cid (rejoined route sender) s.hosted
      → Transition env sender s s'
  joins :
      (cid name : String) (c : HostedCommunity) (route : Option (List ℕ))
      → get cid s.hosted ≡ some c
      → D.banned s.db cid sender ≡ false
      → find_member c sender ≡ none
      → s'.hosted ≡ modify cid (with_member env sender name route (is_empty c.members)) s.hosted
      → Transition env sender s s'
