-- ===== src/Server/Invariant/Hosted.antt =====
-- A community that is hosted anew is valid: host_community of
-- crates/rekindle-server/src/community_host.rs.
use rekindle.Base.Int.{cast_signed}
use rekindle.Base.{
  ℕ, Bool, true, false, String, List, [], ◌∷◌, Option, none, some, all, All, get, erase, ◌≡◌, refl,
  sym, arith, Bool-cases, Option-cases, inl, inr,
}
use mathlib.Core.Path.{subst}
use mathlib.Core.Option.{some-injective}
use rekindle.Base.Distinct.{Distinct, Distinct-append}
use rekindle.Permissions.{RoleDefinition, role_everyone_id}
use rekindle.Server.State.{HostedCommunity, ServerMember, ServerChannel, MediaEncryptionKey}
use rekindle.Server.Store.{Database, insert_hosted, insert_member}
use rekindle.Server.Core.{Env, Server, store}
use rekindle.Server.Roles.{holds}
use rekindle.Server.Effects.Frame.{
  publish_metadata-Same, publish_channels-Same, publish_member_roster-Same, publish_mek_bundle-Same,
}
use rekindle.Server.Hosting.{default_roles, insert_roles, create_default_roles, created}
use rekindle.Server.Loading.{
  Queries, load_members_from_db, load_channels_from_db, load_latest_mek, create_initial_mek,
  or_empty,
}
use rekindle.Server.Hosted.{
  Hosting, Setup, host_community, begin_hosting, load_and_host, load_roles_and_host,
  load_channels_and_host, load_or_create_mek, load_or_create_roles, publish_all, publish_route,
  setup_dht_and_route, store_first_member, store_role_ids, starting, first_member, is_new_creator,
  owner_role_ids, route_blob_of,
}
use rekindle.Server.Invariant.{IsValid, AllValid, same_member}
use rekindle.Server.Invariant.Lists.{all-append, str_eq_comm}
use rekindle.Server.Invariant.Stored.{
  IsSeparate, MembersStored, RolesValid, IsStored, insert_roles-SameMembers, MembersStored-Same,
  IsStored-attempt, loaded-IsValid,
}

pub All-erase {ℓ κ} :
    {V : Type ℓ} (P : V → Type κ) (k : String) (m : List (String × V))
    → All (λ (e : String × V). P e.1) m
    → All (λ (e : String × V). P e.1) (erase k m)
All-erase P k [] h = tt
All-erase P k ((j, v) ∷ m) h = ground (arith, All-erase P k m h.1)

module _ {D : Database} (Q : Queries D) (sep : IsSeparate Q) (env : Env) (setup : Setup)
    (h : Hosting) where
  hosted-store_role_ids :
      (key : String) (ids : List ℕ) (s : Server D)
      → (store_role_ids h.community_id key ids s).hosted ≡ s.hosted
  hosted-store_role_ids key [] s = refl
  hosted-store_role_ids key (id ∷ ids) s = hosted-store_role_ids key ids _

  hosted-store_first_member :
      (new : Bool) (s : Server D) → (store_first_member env h new s).hosted ≡ s.hosted
  unfolding store_first_member
  hosted-store_first_member true s = hosted-store_role_ids h.creator_pseudonym_key owner_role_ids (
      store
        (insert_member h.community_id h.creator_pseudonym_key h.creator_display_name
          (cast_signed env.now))
        s)
  hosted-store_first_member false s = refl

  hosted-publish_all : (s : Server D) → (publish_all env h setup s).hosted ≡ s.hosted
  unfolding publish_all
  hosted-publish_all s = grind (
    arith, publish_metadata-Same, publish_channels-Same, publish_member_roster-Same,
    publish_mek_bundle-Same,
  )

  starting-IsValid :
      (creator : String) (members : List ServerMember) (new : Bool)
      → is_new_creator h creator members ≡ new
      → Distinct same_member members
      → all (holds role_everyone_id) members ≡ true
      → Distinct same_member (starting env h creator members new).1
        × (all (holds role_everyone_id) (starting env h creator members new).1 ≡ true)
  starting-IsValid creator members true e d b = (
    Distinct-append same_member (λ x y. str_eq_comm _ _) members (first_member env h) d
        (ground (arith, e)),
    all-append (holds role_everyone_id) members (first_member env h) b refl,
  )
  starting-IsValid creator members false e d b = (d, b)

  begin_hosting-AllValid :
      (mek : MediaEncryptionKey) (channels : List ServerChannel) (roles : List RoleDefinition)
      (members : List ServerMember) (s : Server D)
      → RolesValid roles
      → Distinct same_member members
      → all (holds role_everyone_id) members ≡ true
      → AllValid s
      → AllValid (begin_hosting Q env setup h mek channels roles members s)
  unfolding begin_hosting
  begin_hosting-AllValid mek channels roles members s r d b valid =
      let creator = or_empty (Q.creator_pseudonym s.db h.community_id) in
      let new = is_new_creator h creator members in
      let start = starting-IsValid creator members new refl d b in
      subst (All (λ (e : String × HostedCommunity). IsValid e.1)) (sym (hosted-publish_all _)) (
        record { members = start.0; roles = r.0; everyone = r.1; baseline = start.1 },
        All-erase IsValid h.community_id _ (
            subst (All (λ (e : String × HostedCommunity). IsValid e.1))
              (sym (hosted-store_first_member new s)) valid),
      )

  same_hosted : (s s' : Server D) → s'.hosted ≡ s.hosted → AllValid s → AllValid s'
  same_hosted s s' e valid =
      subst (All (λ (x : String × HostedCommunity). IsValid x.1)) (sym e) valid

  hosted-publish_route : (s : Server D) → (publish_route h setup s).hosted ≡ s.hosted
  hosted-publish_route s = elim (Bool-cases setup.dht_opened) [
    | inl e ↦ elim (Option-cases (route_blob_of setup.route)) [
      | inl n ↦ rw (e, n) refl
      | inr (blob, n) ↦ rw (e, n) refl
    ]
    | inr e ↦ rw e refl
  ]

  load_and_host-AllValid :
      (mek : MediaEncryptionKey) (channels : List ServerChannel) (o : Option (List RoleDefinition))
      (s : Server D)
      → ((rs : List RoleDefinition) → o ≡ some rs → RolesValid rs)
      → MembersStored Q h.community_id s.db
      → AllValid s
      → AllValid (load_and_host Q env setup h mek channels o s).0
  unfolding load_and_host setup_dht_and_route
  load_and_host-AllValid mek channels none s r m valid = valid
  load_and_host-AllValid mek channels (some roles) s r m valid =
      elim (Option-cases (load_members_from_db Q env s.db h.community_id)) [
        | inl e ↦ rw (e, load_and_host) valid
        | inr (members, e) ↦
            let ok = loaded-IsValid Q sep h.community_id env s.db members m e in
            elim (Bool-cases setup.keypair_parses) [
              | inl k ↦
                  rw (e, k, load_and_host)
                    (begin_hosting-AllValid mek channels roles members (publish_route h setup s)
                      (r roles refl) ok.0 ok.1
                      (same_hosted s (publish_route h setup s) (hosted-publish_route s) valid))
              | inr k ↦ rw (e, k, load_and_host) valid
            ]
      ]

  default_roles-RolesValid : RolesValid default_roles
  default_roles-RolesValid = ((refl, (refl, (refl, (refl, (refl, tt))))), refl)

  created-RolesValid : (b : Bool) (rs : List RoleDefinition) → created b ≡ some rs → RolesValid rs
  unfolding created
  created-RolesValid true rs e =
      subst RolesValid (some-injective default_roles rs e) default_roles-RolesValid
  created-RolesValid false rs e = ground arith

  with_rows :
      (mek : MediaEncryptionKey) (channels : List ServerChannel) (s : Server D)
      → IsStored Q h.community_id s.db
      → AllValid s
      → (rows : List RoleDefinition) → Q.role_rows s.db h.community_id ≡ some rows
      → AllValid
          (load_and_host Q env setup h mek channels
            (load_or_create_roles h.community_id rows s).1
            (load_or_create_roles h.community_id rows s).0).0
  unfolding load_or_create_roles create_default_roles
  with_rows mek channels s stored valid [] e =
      let (same, kept) = insert_roles-SameMembers Q sep h.community_id default_roles s in
      let made = insert_roles h.community_id default_roles s in
      load_and_host-AllValid mek channels (created made.1) made.0 (created-RolesValid made.1)
        (MembersStored-Same Q sep h.community_id s.db (made.0).db same stored.members)
        (same_hosted s made.0 kept valid)
  with_rows mek channels s stored valid (r ∷ rs) e =
      load_and_host-AllValid mek channels (some (r ∷ rs)) s
        (λ rs' q. subst RolesValid (some-injective (r ∷ rs) rs' q) (stored.roles r rs e))
        stored.members valid

  load_roles_and_host-AllValid :
      (mek : MediaEncryptionKey) (channels : List ServerChannel) (s : Server D)
      → IsStored Q h.community_id s.db
      → AllValid s
      → AllValid (load_roles_and_host Q env setup h mek channels s).0
  unfolding load_roles_and_host
  load_roles_and_host-AllValid mek channels s stored valid =
      elim (Option-cases (Q.role_rows s.db h.community_id)) [
        | inl e ↦ rw (e, load_roles_and_host) valid
        | inr (rows, e) ↦ rw (e, load_roles_and_host) (with_rows mek channels s stored valid rows e)
      ]

  with_mek :
      (o : Option MediaEncryptionKey) (s : Server D)
      → IsStored Q h.community_id s.db
      → IsStored Q h.community_id ((load_or_create_mek env h.community_id o s).0).db
        × ((load_or_create_mek env h.community_id o s).0.hosted ≡ s.hosted)
  unfolding load_or_create_mek create_initial_mek
  with_mek none s stored = (IsStored-attempt Q sep h.community_id _ s.db refl refl stored, refl)
  with_mek (some mek) s stored = (stored, refl)

  load_channels_and_host-AllValid :
      (m : Server D × MediaEncryptionKey)
      → IsStored Q h.community_id (m.0).db
      → AllValid m.0
      → AllValid (load_channels_and_host Q env setup h m).0
  unfolding load_channels_and_host
  load_channels_and_host-AllValid (s, mek) stored valid =
      elim (Option-cases (load_channels_from_db Q s.db h.community_id)) [
        | inl c ↦ rw (c, load_channels_and_host) valid
        | inr (channels, c) ↦
            rw (c, load_channels_and_host)
              (load_roles_and_host-AllValid mek channels s stored valid)
      ]

  -- Hosting a community keeps the invariant of all hosted communities, whether it succeeds or fails
  -- on the way, and whatever was stored of the community before: if the rows that the database has
  -- of its members and roles are valid, so is what is loaded, with the creator who is registered if
  -- there is none, and with the default roles that are created if there are none.
  pub host_community-AllValid :
      (s : Server D)
      → IsStored Q h.community_id s.db
      → AllValid s
      → AllValid (host_community Q env setup h s).0
  unfolding host_community
  host_community-AllValid s stored valid = elim (Option-cases (get h.community_id s.hosted)) [
    | inr (c, e) ↦ rw (e, host_community) valid
    | inl e ↦
        rw (e, host_community)
          (let s1 : Server D =
              store
                (insert_hosted h.community_id h.dht_record_key h.owner_keypair_hex h.name env.now)
                s in
            let o = load_latest_mek Q s1.db h.community_id in
            let (stored', kept) =
              with_mek o s1 (IsStored-attempt Q sep h.community_id _ s.db refl refl stored) in
            load_channels_and_host-AllValid (load_or_create_mek env h.community_id o s1) stored'
              (same_hosted s1 (load_or_create_mek env h.community_id o s1).0 kept valid))
  ]
