-- ===== src/Server/Guards.antt =====
-- The checks of crates/rekindle-server/src/rpc.rs: permissions, the role hierarchy, membership, and
-- which community a request is for.
pub mod Rules
pub mod Permitted
use rekindle.Base.{
  ℕ, ◌==◌, if◌then◌else◌, Bool, false, not, ◌&&◌, ◌||◌, String, str_eq, List, [], ◌∷◌, Option, none,
  some, find, any, get,
}
use rekindle.Base.Int.{ℤ, negsuc, ltb_ℤ, max_ℤ}
use rekindle.Permissions.{RoleDefinition, calculate_permissions, has_permission}
use rekindle.Server.State.{HostedCommunity, ServerMember}
use rekindle.Server.Store.{Database}
use rekindle.Server.Core.{pass, found, ◌>>=◌, ◌>>◌, Server, Env, Check, require}

abbrev pub is_member : String → ServerMember → Bool
is_member pseudonym m = str_eq m.pseudonym_key_hex pseudonym

abbrev pub find_member : HostedCommunity → String → Option ServerMember
find_member c pseudonym = find (is_member pseudonym) c.members

unfoldable pub member_base_permissions : Env → HostedCommunity → String → ℕ
member_base_permissions env c pseudonym = elim (find_member c pseudonym) [
  | none ↦ 0
  | some m ↦ calculate_permissions env.now m.role_ids c.roles [] pseudonym m.timeout_until
]

abbrev pub is_creator : HostedCommunity → String → Bool
is_creator c sender =
    not (str_eq c.creator_pseudonym_hex "") && str_eq c.creator_pseudonym_hex sender

-- Whether `check_permission` passes.
unfoldable pub is_permitted : Env → HostedCommunity → String → ℕ → Bool
is_permitted env c sender required =
    is_creator c sender || has_permission (member_base_permissions env c sender) required

unfoldable pub check_permission : Env → HostedCommunity → String → ℕ → Check (Unit {0})
check_permission env c sender required =
    require (is_permitted env c sender required) 403 "insufficient permissions"

-- `filter_map` over the member's ids, and `max` of the positions.
unfoldable pub held_positions : List RoleDefinition → List ℕ → List ℤ
held_positions roles [] = []
held_positions roles (rid ∷ rids) =
    let rest = held_positions roles rids in
    elim (find (λ r. r.id == rid) roles) [ none ↦ rest | some r ↦ r.position ∷ rest ]

unfoldable pub max_of : ℤ → List ℤ → ℤ
max_of best [] = best
max_of best (x ∷ xs) = max_of (max_ℤ best x) xs

unfoldable pub max_or : ℤ → List ℤ → ℤ
unfolding max_of
max_or default [] = default
max_or default (x ∷ xs) = max_of x xs

unfoldable pub highest_role_position : HostedCommunity → String → ℤ
highest_role_position c pseudonym = elim (find_member c pseudonym) [
  | none ↦ negsuc 0
  | some m ↦ max_or (negsuc 0) (held_positions c.roles m.role_ids)
]

-- Whether `check_hierarchy` passes.
unfoldable pub outranks : HostedCommunity → String → String → Bool
outranks c sender target =
    is_creator c sender || ltb_ℤ (highest_role_position c target) (highest_role_position c sender)

unfoldable pub check_hierarchy : HostedCommunity → String → String → Check (Unit {0})
check_hierarchy c sender target =
    require (outranks c sender target) 403 "target has equal or higher role position"

-- Whether `verify_membership` passes. Here the creator's key may be empty.
unfoldable pub belongs : HostedCommunity → String → Bool
belongs c sender = str_eq c.creator_pseudonym_hex sender || any (is_member sender) c.members

unfoldable pub verify_membership : HostedCommunity → String → Check (Unit {0})
verify_membership c sender = require (belongs c sender) 403 "not a member"

-- `hosted.get_mut`, membership and one permission: how most handlers begin.
unfoldable pub authorise :
    {D : Database} → Env → String → String → ℕ → Server D → Check HostedCommunity
authorise env cid sender required s = do
  c ← found (get cid s.hosted) 404 "community not found"
  verify_membership c sender
  check_permission env c sender required
  pass c

-- `HashMap::values().find`, in the order of the list.
unfoldable pub find_community_for_member : List (String × HostedCommunity) → String → Option String
find_community_for_member [] pseudonym = none
find_community_for_member ((k, c) ∷ rest) pseudonym =
    if any (is_member pseudonym) c.members
    then some c.community_id
    else find_community_for_member rest pseudonym

same_route : Option ℕ → ℕ → Bool
same_route none route_id = false
same_route (some r) route_id = r == route_id

unfoldable pub find_community_for_route : List (String × HostedCommunity) → ℕ → Option String
unfolding same_route
find_community_for_route [] route_id = none
find_community_for_route ((k, c) ∷ rest) route_id =
    if same_route c.route_id route_id
    then some c.community_id
    else find_community_for_route rest route_id

-- `a.or_else(|| b)`
abbrev pub or_else : Option String → Option String → Option String
or_else none b = b
or_else (some a) b = some a

-- `incoming_route_id.and_then(…)`
abbrev pub by_route : List (String × HostedCommunity) → Option ℕ → Option String
by_route hosted none = none
by_route hosted (some route_id) = find_community_for_route hosted route_id

unfoldable pub resolve_community_id :
    List (String × HostedCommunity) → String → Option ℕ → Option String → Option String
resolve_community_id hosted sender incoming_route_id ipc_community_id =
    or_else ipc_community_id
      (or_else (by_route hosted incoming_route_id) (find_community_for_member hosted sender))
