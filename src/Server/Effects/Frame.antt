-- ===== src/Server/Effects/Frame.antt =====
-- Publishing and broadcasting change neither the hosted communities nor the database.
use rekindle.Base.{String, ◌≡◌, arith}
use rekindle.Server.Protocol.{CommunityBroadcast}
use rekindle.Server.Store.{Database}
use rekindle.Server.Core.{Env, Server}
use rekindle.Server.Effects.{
  broadcast_to_members, broadcast_roles_changed, broadcast_member_roles_changed, publish_metadata,
  publish_channels, publish_member_roster, publish_mek_bundle,
}

module _ {D : Database} where
  -- The same communities and the same database.
  abbrev pub Same : Server D → Server D → Type 0
  Same s s' = (s'.hosted ≡ s.hosted) × (s'.db ≡ s.db)

  pub broadcast_to_members-Same :
      (cid excluded : String) (b : CommunityBroadcast) (s : Server D)
      → Same s (broadcast_to_members cid excluded b s)
  unfolding broadcast_to_members
  broadcast_to_members-Same cid excluded b s = ground arith

  pub broadcast_roles_changed-Same :
      (cid : String) (s : Server D) → Same s (broadcast_roles_changed cid s)
  unfolding broadcast_roles_changed
  broadcast_roles_changed-Same cid s = grind (arith, broadcast_to_members-Same)

  pub broadcast_member_roles_changed-Same :
      (cid target : String) (s : Server D) → Same s (broadcast_member_roles_changed cid target s)
  unfolding broadcast_member_roles_changed
  broadcast_member_roles_changed-Same cid target s = grind (arith, broadcast_to_members-Same)

  pub publish_metadata-Same :
      (env : Env) (cid name : String) (s : Server D) → Same s (publish_metadata env cid name s)
  unfolding publish_metadata
  publish_metadata-Same env cid name s = ground arith

  pub publish_channels-Same : (cid : String) (s : Server D) → Same s (publish_channels cid s)
  unfolding publish_channels
  publish_channels-Same cid s = ground arith

  pub publish_member_roster-Same :
      (cid : String) (s : Server D) → Same s (publish_member_roster cid s)
  unfolding publish_member_roster
  publish_member_roster-Same cid s = ground arith

  pub publish_mek_bundle-Same : (cid : String) (s : Server D) → Same s (publish_mek_bundle cid s)
  unfolding publish_mek_bundle
  publish_mek_bundle-Same cid s = ground arith
