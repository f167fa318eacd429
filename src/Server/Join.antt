-- ===== src/Server/Join.antt =====
-- Joining and coming back: crates/rekindle-server/src/rpc.rs.
use rekindle.Base.Int.{pos}
use rekindle.Base.{
  ℕ, if◌then◌else◌, Bool, true, false, String, List, [], ◌∷◌, ◌++◌, Option, none, some, get,
  update_first,
}
use rekindle.Permissions.{role_everyone_id}
use rekindle.Server.State.{HostedCommunity, ServerMember}
use rekindle.Server.Protocol.{CommunityResponse, error, joined, member_joined}
use rekindle.Server.Store.{Database, insert_member, insert_member_role, set_creator, update_route}
use rekindle.Server.Core.{Env, Server, Handled, change, store, timestamp_now}
use rekindle.Server.Guards.{find_member, is_member, or_else, by_route}
use rekindle.Server.Effects.{
  mek_payload, roles_to_dto, channel_infos, held_roles, broadcast_to_members, publish_member_roster,
}

unfoldable pub build_rejoin_response : HostedCommunity → String → CommunityResponse
build_rejoin_response c pseudonym =
    joined (mek_payload c) c.mek.generation (channel_infos c) (held_roles (find_member c pseudonym))
      (roles_to_dto c)

abbrev pub is_empty {ℓ} : {A : Type ℓ} → List A → Bool
is_empty [] = true
is_empty (x ∷ xs) = false

-- The first member of a community is its creator.
abbrev pub is_first_member : Option HostedCommunity → Bool
is_first_member none = false
is_first_member (some c) = is_empty c.members

-- @everyone and Member; for the creator Moderator, Admin and Owner too.
abbrev pub default_role_ids : Bool → List ℕ
default_role_ids true = role_everyone_id ∷ 1 ∷ 2 ∷ 3 ∷ 4 ∷ []
default_role_ids false = role_everyone_id ∷ 1 ∷ []

abbrev pub set_route : Option (List ℕ) → ServerMember → ServerMember
set_route none m = m
set_route (some blob) m = record m { route_blob = some blob }

abbrev pub rejoined : Option (List ℕ) → String → HostedCommunity → HostedCommunity
rejoined route pseudonym c = record c {
  members = update_first (is_member pseudonym) (set_route route) c.members;
}

abbrev pub new_member : Env → String → String → Option (List ℕ) → Bool → ServerMember
new_member env pseudonym display_name route first = record {
  pseudonym_key_hex = pseudonym;
  display_name = display_name;
  role_ids = default_role_ids first;
  joined_at = pos (timestamp_now env);
  route_blob = route;
  timeout_until = none;
}

-- The roster grows at its end.
abbrev pub with_member :
    Env → String → String → Option (List ℕ) → Bool → HostedCommunity → HostedCommunity
with_member env pseudonym display_name route first c = record c {
  members = c.members ++ (new_member env pseudonym display_name route first ∷ []);
  creator_pseudonym_hex = if first then pseudonym else c.creator_pseudonym_hex;
}

abbrev pub is_hosted : Option HostedCommunity → Bool
is_hosted none = false
is_hosted (some c) = true

-- Over IPC the community must be hosted; by a route, it is.
unfoldable pub unknown_over_ipc : Option String → Bool → Bool
unknown_over_ipc none hosted = false
unknown_over_ipc (some cid) hosted = if hosted then false else true

module _ {D : Database} where
  unfoldable pub store_route : String → String → Option (List ℕ) → Server D → Server D
  store_route cid pseudonym none s = s
  store_route cid pseudonym (some blob) s = store (update_route cid pseudonym blob) s

  unfoldable pub store_roles : String → String → List ℕ → Server D → Server D
  store_roles cid pseudonym [] s = s
  store_roles cid pseudonym (rid ∷ rids) s =
      store_roles cid pseudonym rids (store (insert_member_role cid pseudonym rid) s)

  unfoldable pub store_creator : Bool → String → String → Server D → Server D
  store_creator true cid pseudonym s = store (set_creator cid pseudonym) s
  store_creator false cid pseudonym s = s

  -- `none` where there is no such community, or no such member in it.
  unfoldable pub handle_rejoin : String → String → Option (List ℕ) → Server D → Option (Handled D)
  handle_rejoin cid pseudonym route s = elim (get cid s.hosted) [
    | none ↦ none
    | some c ↦ elim (find_member c pseudonym) [
      | none ↦ none
      | some m ↦ some (
        store_route cid pseudonym route (change cid (rejoined route pseudonym) s),
        build_rejoin_response (rejoined route pseudonym c) pseudonym,
      )
    ]
  ]

  -- The member's row and its roles are written before the community is looked up.
  unfoldable pub store_member : Env → String → String → String → Bool → Server D → Server D
  store_member env cid pseudonym display_name first s =
      store_roles cid pseudonym (default_role_ids first)
        (store (insert_member cid pseudonym display_name (pos (timestamp_now env))) s)

  unfoldable pub add_new_member :
      Env
      → String
      → String
      → String
      → Option (List ℕ)
      → Server D
      → Server D × Option CommunityResponse
  add_new_member env cid pseudonym display_name route s =
      let first = is_first_member (get cid s.hosted) in
      let stored = store_member env cid pseudonym display_name first s in
      elim (get cid s.hosted) [
        | none ↦ (stored, none)
        | some c ↦ (
          store_route c.community_id pseudonym route (
              change cid (with_member env pseudonym display_name route first)
                (store_creator first cid pseudonym stored)),
          some (
              joined (mek_payload c) c.mek.generation (channel_infos c) (default_role_ids first)
                (roles_to_dto c)),
        )
      ]

  -- A new member is announced.
  unfoldable pub welcome :
      String → String → String → Bool → Server D × Option CommunityResponse → Handled D
  welcome cid pseudonym display_name first (s, none) = (s, error 404 "community not found")
  welcome cid pseudonym display_name first (s, some response) = (
    broadcast_to_members cid pseudonym
        (member_joined cid pseudonym display_name (default_role_ids first))
        (publish_member_roster cid s),
    response,
  )

  unfoldable pub handle_admission :
      Env → String → String → String → Option (List ℕ) → Server D → Handled D
  handle_admission env cid pseudonym display_name route s =
      elim (handle_rejoin cid pseudonym route s) [
        | some back ↦ back
        | none ↦
            welcome cid pseudonym display_name (is_first_member (get cid s.hosted))
              (add_new_member env cid pseudonym display_name route s)
      ]

  unfoldable pub handle_join :
      Env → String → String → Option (List ℕ) → Option ℕ → Option String → Server D → Handled D
  unfolding unknown_over_ipc
  handle_join env pseudonym display_name route incoming_route_id ipc_community_id s =
      elim (or_else ipc_community_id (by_route s.hosted incoming_route_id)) [
        | none ↦ (s, error 404 "no hosted community matches this route")
        | some cid ↦
            if unknown_over_ipc ipc_community_id (is_hosted (get cid s.hosted))
            then (s, error 404 "community not found")
            else if D.banned s.db cid pseudonym
            then (s, error 403 "you are banned from this community")
            else handle_admission env cid pseudonym display_name route s
      ]
