-- ===== src/Server/Effects.antt =====
-- What the handlers send out: the publishing functions of
-- crates/rekindle-server/src/community_host.rs and the broadcast helpers of rpc.rs. Serialisation and
-- Veilid are outside: an effect carries the value that is serialised.
pub mod Frame
use rekindle.Base.{
  ℕ, zero, suc, ◌/◌, ◌%◌, if◌then◌else◌, String, str_eq, List, [], ◌∷◌, ◌++◌, Option, none, some,
  map, get,
}
use rekindle.Permissions.{RoleDefinition}
use rekindle.Server.State.{HostedCommunity, ServerMember}
use rekindle.Server.Protocol.{
  RoleDto, ChannelInfoDto, CommunityBroadcast, roles_changed, member_roles_changed,
}
use rekindle.Server.Store.{Database}
use rekindle.Base.Bytes.{le_bytes}
use rekindle.Server.Core.{
  Env, Server, publish, send, metadata, channel_list, member_roster, mek_bundle, emit,
}
use rekindle.Server.Guards.{find_member}

-- The 40 bytes by which a member gets the key: the generation, then the key.
unfoldable pub mek_payload : HostedCommunity → List ℕ
unfolding le_bytes
mek_payload c = le_bytes 8 c.mek.generation ++ c.mek.key

abbrev pub role_to_dto : RoleDefinition → RoleDto
role_to_dto r = record {
  id = r.id;
  name = r.name;
  color = r.color;
  permissions = r.permissions;
  position = r.position;
  hoist = r.hoist;
  mentionable = r.mentionable;
}

unfoldable pub roles_to_dto : HostedCommunity → List RoleDto
roles_to_dto c = map role_to_dto c.roles

unfoldable pub channel_infos : HostedCommunity → List ChannelInfoDto
channel_infos c =
    map (λ ch. record { id = ch.id; name = ch.name; channel_type = ch.channel_type }) c.channels

-- The routes of the members but one, of those who left a route.
unfoldable pub routes_except : String → List ServerMember → List (List ℕ)
routes_except excluded [] = []
routes_except excluded (m ∷ ms) =
    let rest = routes_except excluded ms in
    if str_eq m.pseudonym_key_hex excluded
    then rest
    else elim m.route_blob [ none ↦ rest | some blob ↦ blob ∷ rest ]

abbrev pub held_roles : Option ServerMember → List ℕ
held_roles none = []
held_roles (some m) = m.role_ids

module _ {D : Database} where
  unfoldable pub broadcast_to_members : String → String → CommunityBroadcast → Server D → Server D
  unfolding routes_except
  broadcast_to_members cid excluded broadcast s = elim (get cid s.hosted) [
    | none ↦ s
    | some c ↦ emit (map (λ route. send route broadcast) (routes_except excluded c.members)) s
  ]

  unfoldable pub broadcast_roles_changed : String → Server D → Server D
  broadcast_roles_changed cid s = elim (get cid s.hosted) [
    | none ↦ s
    | some c ↦ broadcast_to_members cid "" (roles_changed cid (roles_to_dto c)) s
  ]

  unfoldable pub broadcast_member_roles_changed : String → String → Server D → Server D
  broadcast_member_roles_changed cid target s = elim (get cid s.hosted) [
    | none ↦ s
    | some c ↦
        broadcast_to_members cid ""
          (member_roles_changed cid target (held_roles (find_member c target))) s
  ]

  unfoldable pub publish_metadata : Env → String → String → Server D → Server D
  publish_metadata env cid name s = elim (get cid s.hosted) [
    | none ↦ s
    | some c ↦
        emit
          (publish c.dht_record_key 0 (metadata name none (env.public_key c.owner_keypair_hex))
            ∷ [])
          s
  ]

  unfoldable pub publish_channels : String → Server D → Server D
  publish_channels cid s = elim (get cid s.hosted) [
    | none ↦ s
    | some c ↦
        emit
          (publish c.dht_record_key 1 (
              channel_list (
                map
                  (λ ch. record {
                    id = ch.id;
                    name = ch.name;
                    channel_type = ch.channel_type;
                    sort_order = ch.sort_order;
                  })
                  c.channels))
            ∷ [])
          s
  ]

  unfoldable pub publish_member_roster : String → Server D → Server D
  publish_member_roster cid s = elim (get cid s.hosted) [
    | none ↦ s
    | some c ↦
        emit
          (publish c.dht_record_key 2 (
              member_roster (
                map
                  (λ m. record {
                    pseudonym_key = m.pseudonym_key_hex;
                    role_ids = m.role_ids;
                    display_name = m.display_name;
                    joined_at = m.joined_at;
                  })
                  c.members))
            ∷ [])
          s
  ]

  unfoldable pub publish_mek_bundle : String → Server D → Server D
  publish_mek_bundle cid s = elim (get cid s.hosted) [
    | none ↦ s
    | some c ↦ emit (publish c.dht_record_key 5 (mek_bundle c.mek.generation) ∷ []) s
  ]
