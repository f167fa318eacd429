-- ===== src/Server/Hosted.antt =====
-- Hosting a community, and no longer: host_community, setup_dht_and_route and unhost_community of
-- crates/rekindle-server/src/community_host.rs.
use rekindle.Base.Int.{cast_signed}
use rekindle.Base.{
  ℕ, if◌then◌else◌, String, str_eq, Bool, true, false, not, ◌&&◌, List, [], ◌∷◌, ◌++◌, Option, none,
  some, get, put, erase, any,
}
use rekindle.Permissions.{RoleDefinition, role_everyone_id}
use rekindle.Server.State.{HostedCommunity, ServerMember, ServerChannel, MediaEncryptionKey}
use rekindle.Server.Store.{
  Database, insert_hosted, delete_hosted, insert_member, insert_member_role, set_creator,
}
use rekindle.Server.Core.{Env, Server, store, emit, publish, server_route, release_route}
use rekindle.Server.Guards.{is_member}
use rekindle.Server.Hosting.{create_default_roles}
use rekindle.Server.Effects.{
  publish_metadata, publish_channels, publish_member_roster, publish_mek_bundle,
}
use rekindle.Server.Loading.{
  Queries, load_members_from_db, load_channels_from_db, load_roles_from_db, load_latest_mek,
  create_initial_mek, or_empty,
}

-- What Veilid answers to one call of host_community: whether the keypair can be parsed, whether the
-- record could be opened within the five attempts, and the route with its blob, if one was allocated.
pub record Setup : Type 0 where
  pub keypair_parses : Bool
  pub dht_opened : Bool
  pub route : Option (ℕ × List ℕ)

-- The arguments of host_community.
pub record Hosting : Type 0 where
  pub community_id : String
  pub dht_record_key : String
  pub owner_keypair_hex : String
  pub name : String
  pub creator_pseudonym_key : String
  pub creator_display_name : String

abbrev pub route_id_of : Option (ℕ × List ℕ) → Option ℕ
route_id_of none = none
route_id_of (some (id, blob)) = some id

abbrev pub route_blob_of : Option (ℕ × List ℕ) → Option (List ℕ)
route_blob_of none = none
route_blob_of (some (id, blob)) = some blob

abbrev pub owner_role_ids : List ℕ
owner_role_ids = role_everyone_id ∷ 1 ∷ 2 ∷ 3 ∷ 4 ∷ []

abbrev pub first_member : Env → Hosting → ServerMember
first_member env h = record {
  pseudonym_key_hex = h.creator_pseudonym_key;
  display_name = h.creator_display_name;
  role_ids = owner_role_ids;
  joined_at = cast_signed env.now;
  route_blob = none;
  timeout_until = none;
}

-- Whether the creator is to be registered as the first member.
abbrev pub is_new_creator : Hosting → String → List ServerMember → Bool
is_new_creator h creator members =
    not (str_eq h.creator_pseudonym_key "")
    && (str_eq creator "" && not (any (is_member h.creator_pseudonym_key) members))

-- The creator and the members that the community starts with.
abbrev pub starting : Env → Hosting → String → List ServerMember → Bool → String × List ServerMember
starting env h creator members true =
    (h.creator_pseudonym_key, members ++ (first_member env h ∷ []))
starting env h creator members false = (creator, members)

module _ {D : Database} where
  abbrev pub store_role_ids : String → String → List ℕ → Server D → Server D
  store_role_ids cid key [] s = s
  store_role_ids cid key (id ∷ ids) s =
      store_role_ids cid key ids (store (insert_member_role cid key id) s)

  unfoldable pub store_first_member : Env → Hosting → Bool → Server D → Server D
  store_first_member env h false s = s
  store_first_member env h true s = store (set_creator h.community_id h.creator_pseudonym_key) (
      store_role_ids h.community_id h.creator_pseudonym_key owner_role_ids (
        store
          (insert_member h.community_id h.creator_pseudonym_key h.creator_display_name
            (cast_signed env.now))
          s))

  -- The route is published where the record is open.
  abbrev pub publish_route : Hosting → Setup → Server D → Server D
  publish_route h setup s =
      if setup.dht_opened
      then elim (route_blob_of setup.route) [
        | none ↦ s
        | some blob ↦ emit (publish h.dht_record_key 6 (server_route blob) ∷ []) s
      ]
      else s

  -- `none` where the keypair is malformed.
  unfoldable pub setup_dht_and_route : Hosting → Setup → Server D → Option (Server D)
  setup_dht_and_route h setup s =
      if setup.keypair_parses then some (publish_route h setup s) else none

  unfoldable pub publish_all : Env → Hosting → Setup → Server D → Server D
  publish_all env h setup s =
      if setup.dht_opened
      then publish_mek_bundle h.community_id (
          publish_member_roster h.community_id
            (publish_channels h.community_id (publish_metadata env h.community_id h.name s)))
      else s

  -- `unwrap_or_else`
  unfoldable pub load_or_create_mek :
      Env → String → Option MediaEncryptionKey → Server D → Server D × MediaEncryptionKey
  load_or_create_mek env cid none s = create_initial_mek env cid s
  load_or_create_mek env cid (some mek) s = (s, mek)

  -- The default roles are created where there are none.
  unfoldable pub load_or_create_roles :
      String → List RoleDefinition → Server D → Server D × Option (List RoleDefinition)
  load_or_create_roles cid [] s = create_default_roles cid s
  load_or_create_roles cid (r ∷ rs) s = (s, some (r ∷ rs))

  module _ (Q : Queries D) (env : Env) (setup : Setup) (h : Hosting) where
    abbrev pub community :
        MediaEncryptionKey
        → List ServerChannel
        → List RoleDefinition
        → String
        → String × List ServerMember
        → HostedCommunity
    community mek channels roles description start = record {
      community_id = h.community_id;
      dht_record_key = h.dht_record_key;
      owner_keypair_hex = h.owner_keypair_hex;
      name = h.name;
      description = description;
      route_id = route_id_of setup.route;
      route_blob = route_blob_of setup.route;
      mek = mek;
      members = start.1;
      channels = channels;
      roles = roles;
      creator_pseudonym_hex = start.0;
    }

    -- The last part: the first member, the community in memory, and what is published.
    unfoldable pub begin_hosting :
        MediaEncryptionKey
        → List ServerChannel
        → List RoleDefinition
        → List ServerMember
        → Server D
        → Server D
    begin_hosting mek channels roles members s =
        let description = or_empty (Q.description s.db h.community_id) in
        let creator = or_empty (Q.creator_pseudonym s.db h.community_id) in
        let new = is_new_creator h creator members in
        let s' = store_first_member env h new s in
        publish_all env h setup (record s' {
          hosted =
              put h.community_id
                (community mek channels roles description (starting env h creator members new))
                s'.hosted;
        })

    -- From the members on; `none` where a step fails, with the state that is left.
    unfoldable pub load_and_host :
        MediaEncryptionKey
        → List ServerChannel
        → Option (List RoleDefinition)
        → Server D
        → Server D × Bool
    load_and_host mek channels none s = (s, false)
    load_and_host mek channels (some roles) s =
        elim (load_members_from_db Q env s.db h.community_id) [
          | none ↦ (s, false)
          | some members ↦ elim (setup_dht_and_route h setup s) [
            | none ↦ (s, false)
            | some s' ↦ (begin_hosting mek channels roles members s', true)
          ]
        ]

    unfoldable pub load_roles_and_host :
        MediaEncryptionKey → List ServerChannel → Server D → Server D × Bool
    load_roles_and_host mek channels s = elim (load_roles_from_db Q s.db h.community_id) [
      | none ↦ (s, false)
      | some rows ↦
          let r = load_or_create_roles h.community_id rows s in load_and_host mek channels r.1 r.0
    ]

    unfoldable pub load_channels_and_host : Server D × MediaEncryptionKey → Server D × Bool
    load_channels_and_host (s, mek) = elim (load_channels_from_db Q s.db h.community_id) [
      | none ↦ (s, false)
      | some channels ↦ load_roles_and_host mek channels s
    ]

    -- Whether it succeeds is the second part.
    unfoldable pub host_community : Server D → Server D × Bool
    host_community s = elim (get h.community_id s.hosted) [
      | some c ↦ (s, true)
      | none ↦
          let s1 =
            store (insert_hosted h.community_id h.dht_record_key h.owner_keypair_hex h.name env.now)
              s in
          load_channels_and_host
            (load_or_create_mek env h.community_id (load_latest_mek Q s1.db h.community_id) s1)
    ]

  abbrev pub release : Option ℕ → Server D → Server D
  release none s = s
  release (some id) s = emit (release_route id ∷ []) s

  unfoldable pub unhost_community : String → Server D → Server D
  unhost_community cid s = elim (get cid s.hosted) [
    | none ↦ s
    | some c ↦
        store (delete_hosted cid) (release c.route_id (record s { hosted = erase cid s.hosted }))
  ]
