-- ===== src/Server/Invariant.antt =====
-- What holds of every hosted community at every moment.
mod Lists
pub mod Changes
pub mod Preservation
pub mod Loaded
pub mod Stored
pub mod Hosted
pub mod Socket
use rekindle.Base.{ℕ, ◌+◌, ◌^◌, ◌<◌, String, Bool, true, List, [], ◌∷◌, ◌≡◌, ◌==◌, any, all, All}
use rekindle.Base.Distinct.{Distinct}
use rekindle.Permissions.{RoleDefinition, role_everyone_id}
use rekindle.Server.State.{HostedCommunity, ServerMember}
use rekindle.Server.Guards.{is_member}
use rekindle.Server.Roles.{has_id, holds, max_id}
use rekindle.Server.Store.{Database}
use rekindle.Server.Core.{Server}

abbrev pub same_member : ServerMember → ServerMember → Bool
same_member a b = is_member a.pseudonym_key_hex b

abbrev pub same_role : RoleDefinition → RoleDefinition → Bool
same_role a b = has_id a.id b

-- No key stands twice in the roster, no id twice among the roles, @everyone is defined, and every
-- member holds it.
pub record IsValid (c : HostedCommunity) : Type 0 where
  pub members : Distinct same_member c.members
  pub roles : Distinct same_role c.roles
  pub everyone : any (has_id role_everyone_id) c.roles ≡ true
  pub baseline : all (holds role_everyone_id) c.members ≡ true

abbrev pub AllValid : {D : Database} → Server D → Type 0
AllValid s = All (λ (e : String × HostedCommunity). IsValid e.1) s.hosted

-- A role id is left after the highest one, in 32 bits.
abbrev pub HasIds : HostedCommunity → Type 0
HasIds c = max_id c.roles + 1 < 2 ^ 32

abbrev pub AllHaveIds : {D : Database} → Server D → Type 0
AllHaveIds s = All (λ (e : String × HostedCommunity). HasIds e.1) s.hosted
