-- ===== src/Server/Routes.antt =====
-- The communities' private routes and the refresh of their records: keepalive_refresh_route,
-- rewrite_all_communities and handle_server_route_change of
-- crates/rekindle-server/src/community_host.rs. Each community is visited once in a cycle.
pub mod Live
use rekindle.Base.{
  ℕ, ◌==◌, if◌then◌else◌, String, Bool, true, false, List, [], ◌∷◌, map, Option, none, some, any,
  get, modify,
}
use rekindle.Server.State.{HostedCommunity}
use rekindle.Server.Store.{Database}
use rekindle.Server.Core.{Env, Server, change, emit, publish, server_route, release_route}
use rekindle.Server.Effects.{publish_metadata, publish_channels, publish_member_roster}
use rekindle.Server.Loading.{Queries, or_empty}

-- What Veilid answers in a cycle: whether a keypair and a record's key open it for writing, and the
-- route that is allocated for a community, if one is.
pub record Veilid : Type 0 where
  pub opens : String → String → Bool
  pub new_private_route : String → Option (ℕ × List ℕ)

pub record KeepaliveData : Type 0 where
  pub community_id : String
  pub dht_key : String
  pub owner_keypair : String
  pub route_blob : Option (List ℕ)
  pub name : String

abbrev pub without_route_id : HostedCommunity → HostedCommunity
without_route_id c = record c { route_id = none }

abbrev pub without_route : HostedCommunity → HostedCommunity
without_route c = record c { route_id = none; route_blob = none }

abbrev pub with_route : ℕ → List ℕ → HostedCommunity → HostedCommunity
with_route id blob c = record c { route_id = some id; route_blob = some blob }

-- `dead_routes.contains(rid)`
abbrev pub is_dead : List ℕ → Option ℕ → Bool
is_dead dead none = false
is_dead dead (some id) = any (λ d. d == id) dead

-- The communities whose route is among the dead ones, with the keys of their records.
unfoldable pub affected : List ℕ → List (String × HostedCommunity) → List (String × String)
affected dead [] = []
affected dead ((key, c) ∷ hosted) =
    let rest = affected dead hosted in
    if is_dead dead c.route_id then (c.community_id, c.dht_record_key) ∷ rest else rest

module _ {D : Database} (V : Veilid) where
  abbrev pub release_old : Option ℕ → Server D → Server D
  release_old none s = s
  release_old (some id) s = emit (release_route id ∷ []) s

  abbrev pub old_route : String → Server D → Option ℕ
  old_route cid s = elim (get cid s.hosted) [ none ↦ none | some c ↦ c.route_id ]

  -- The blob to publish: that of the new route, or the one from before.
  abbrev pub renewed : KeepaliveData → Option (ℕ × List ℕ) → Server D → Server D × Option (List ℕ)
  renewed entry none s = (s, entry.route_blob)
  renewed entry (some (id, blob)) s = (change entry.community_id (with_route id blob) s, some blob)

  unfoldable pub keepalive_refresh_route : KeepaliveData → Server D → Server D × Option (List ℕ)
  keepalive_refresh_route entry s =
      renewed entry (V.new_private_route entry.community_id) (
        release_old (old_route entry.community_id s) (change entry.community_id without_route_id s))

  abbrev pub publish_blob : String → Option (List ℕ) → Server D → Server D
  publish_blob dht_key none s = s
  publish_blob dht_key (some blob) s = emit (publish dht_key 6 (server_route blob) ∷ []) s

  abbrev pub keepalive_data : Queries D → D.Db → HostedCommunity → KeepaliveData
  keepalive_data Q db c = record {
    community_id = c.community_id;
    dht_key = c.dht_record_key;
    owner_keypair = c.owner_keypair_hex;
    route_blob = c.route_blob;
    name = or_empty (Q.name db c.community_id);
  }

  abbrev pub refreshed : Env → KeepaliveData → Server D × Option (List ℕ) → Server D
  refreshed env entry (s, blob) = publish_member_roster entry.community_id (
      publish_channels entry.community_id
        (publish_metadata env entry.community_id entry.name (publish_blob entry.dht_key blob s)))

  -- One community of the cycle; it is passed over where its record does not open.
  unfoldable pub rewrite_community : Env → KeepaliveData → Server D → Server D
  rewrite_community env entry s =
      if V.opens entry.owner_keypair entry.dht_key
      then refreshed env entry (keepalive_refresh_route entry s)
      else s

  unfoldable pub rewrite_each : Env → List KeepaliveData → Server D → Server D
  rewrite_each env [] s = s
  rewrite_each env (entry ∷ entries) s = rewrite_each env entries (rewrite_community env entry s)

  unfoldable pub rewrite_all_communities : Queries D → Env → Server D → Server D
  rewrite_all_communities Q env s =
      rewrite_each env (map (λ e. keepalive_data Q s.db e.1) s.hosted) s

  abbrev pub rerouted : String → String → Option (ℕ × List ℕ) → Server D → Server D
  rerouted cid dht_key none s = change cid without_route s
  rerouted cid dht_key (some (id, blob)) s =
      emit (publish dht_key 6 (server_route blob) ∷ []) (change cid (with_route id blob) s)

  unfoldable pub reroute_each : List (String × String) → Server D → Server D
  reroute_each [] s = s
  reroute_each ((cid, dht_key) ∷ es) s =
      reroute_each es
        (rerouted cid dht_key (V.new_private_route cid) (change cid without_route_id s))

  unfoldable pub handle_server_route_change : List ℕ → Server D → Server D
  handle_server_route_change dead s = reroute_each (affected dead s.hosted) s
