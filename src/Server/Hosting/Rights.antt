-- ===== src/Server/Hosting/Rights.antt =====
-- What the default roles give (crates/rekindle-server/src/community_host.rs and rpc.rs).
use rekindle.Base.{
  ℕ, ◌<◌, ◌^◌, true, false, ◌||◌, String, List, [], ◌∷◌, ◌++◌, Option, none, some, ◌≡◌, refl, ◌∙◌,
  arith, find, eq_iff,
}
use rekindle.Bits.{has_bit, has_bit-bit_or}
use rekindle.Permissions.{
  everyone_permissions, member_permissions, is_timed_out, create_instant_invite,
}
use rekindle.Server.State.{HostedCommunity, ServerMember}
use rekindle.Server.Core.{Env}
use rekindle.Server.Guards.{is_permitted, is_creator, is_member, find_member}
use rekindle.Server.Guards.Permitted.{is_permitted-bit, roles_give}
use rekindle.Server.Join.{with_member, new_member}
use rekindle.Server.Invariant.{IsValid, HasIds}
use rekindle.Server.Roles.{max_id}
use rekindle.Server.Hosting.{default_roles}

-- A member appended to a roster without it is found there.
find-append :
    (p : String) (m : ServerMember) (ms : List ServerMember)
    → find (is_member p) ms ≡ none
    → is_member p m ≡ true
    → find (is_member p) (ms ++ (m ∷ [])) ≡ some m
find-append p m [] e h = rw h
find-append p m (x ∷ xs) e h = ground (arith, find-append p m xs)

member-bit :
    (i : ℕ)
    → (has_bit i everyone_permissions || has_bit i member_permissions)
      ≡ has_bit i member_permissions
unfolding member_permissions
member-bit i = ground (arith, has_bit-bit_or i everyone_permissions create_instant_invite)

everyone_no_admin : has_bit 3 everyone_permissions ≡ false
unfolding has_bit everyone_permissions
everyone_no_admin = refl

everyone_sees : has_bit 10 everyone_permissions ≡ true
unfolding has_bit everyone_permissions
everyone_sees = refl

member_no_admin : has_bit 3 member_permissions ≡ false
unfolding has_bit member_permissions
member_no_admin = refl

newcomer-bit :
    (env : Env) (now i : ℕ) (c : HostedCommunity) (p name : String) (route : Option (List ℕ))
    → c.roles ≡ default_roles
    → roles_give now i c (new_member env p name route false) ≡ has_bit i member_permissions
unfolding is_timed_out
newcomer-bit env now i c p name route e =
    rw e (ground (arith, everyone_no_admin, member_no_admin, everyone_sees, member-bit i))

-- In a community with the default roles, a new member who is not its creator passes the check for a
-- permission (a single bit of 64) exactly if it is one of the default permissions of members.
pub newcomer_rights :
    (env env' : Env) (i : ℕ) (c : HostedCommunity) (p name : String) (route : Option (List ℕ))
    → i < 64
    → c.roles ≡ default_roles
    → find_member c p ≡ none
    → is_creator c p ≡ false
    → is_permitted env' (with_member env p name route false c) p (2 ^ i)
      ≡ has_bit i member_permissions
newcomer_rights env env' i c p name route small roles new other =
    is_permitted-bit env' (with_member env p name route false c) p i small
    ∙ rw
        (
          other,
          find-append p (new_member env p name route false) c.members new ((eq_iff p p).1 refl),
        )
        (newcomer-bit env env'.now i c p name route roles)

-- A community with the default roles and without members meets the invariant, and has a role id left.
default_roles-IsValid :
    (c : HostedCommunity) → c.roles ≡ default_roles → c.members ≡ [] → IsValid c × HasIds c
unfolding max_id
default_roles-IsValid c roles members = (
  record {
    members = rw members tt;
    roles = rw roles (refl, (refl, (refl, (refl, (refl, tt)))));
    everyone = rw roles refl;
    baseline = rw members refl;
  },
  rw roles (omega arith),
)
