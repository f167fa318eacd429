-- ===== src/Server/Tests/Daemon.antt =====
-- The daemon's own work on the sample: hosting, the local socket, and routes.
use rekindle.Server.State.{HostedCommunity}
use rekindle.Base.Int.{pos}
use rekindle.Base.{
  get, ℕ, true, false, String, List, [], ◌∷◌, none, some, ◌≡◌, refl, sym, any, ◌==◌, eq_iff, arith,
}
use mathlib.Core.Option.{some-injective}
use rekindle.Base.Results.{done}
use rekindle.Server.Store.Memory.{memory}
use rekindle.Server.Loading.{Queries, MemberRow}
use rekindle.Server.Hosted.{Hosting}
use rekindle.Server.Ipc.{Daemon, host, handle_ipc_request}
use rekindle.Server.Invariant.{AllValid}
use rekindle.Server.Invariant.Stored.{IsSeparate, IsStored}
use rekindle.Server.Invariant.Socket.{handle_ipc_request-AllValid}
use rekindle.Server.Routes.{
  Veilid, handle_server_route_change, with_route, without_route_id, is_dead, affected, reroute_each,
}
use rekindle.Server.Routes.Live.{Named, handle_server_route_change-LiveRoutes}
use rekindle.Server.Tests.Town.{start, town, env_at}
use rekindle.Server.Tests.Entry.{toy_wire}
use rekindle.Server.Tests.Examples.{town-IsValid, start-AllHaveIds}

abbrev kim : MemberRow
kim = record {
  pseudonym_key_hex = "kim";
  display_name = some "Kim";
  joined_at = pos 5;
  route_blob = none;
}

-- A community of which one member is stored, and no role.
abbrev stored : Queries memory
stored = record {
  member_rows = λ db cid. some (kim ∷ []);
  member_role_rows = λ db cid. some (("kim", 0) ∷ ("kim", 1) ∷ []);
  timeout_rows = λ db cid. some (("kim", 5000) ∷ []);
  channel_rows = λ db cid. some [];
  overwrite_rows = λ db cid. some [];
  role_rows = λ db cid. some [];
  description = λ db cid. none;
  creator_pseudonym = λ db cid. none;
  name = λ db cid. none;
  latest_mek = λ db cid. none;
}

stored-IsSeparate : IsSeparate stored
stored-IsSeparate = record {
  members = λ st db db' cid h e. refl;
  member_roles = λ st db db' cid h e. refl;
  roles = λ st db db' cid h e. refl;
}

abbrev village : Hosting
village = record {
  community_id = "c2";
  dht_record_key = "dht2";
  owner_keypair_hex = "owner2";
  name = "Village";
  creator_pseudonym_key = "lea";
  creator_display_name = "Lea";
}

abbrev daemon : Daemon
daemon = record {
  started_at = 0;
  veilid_attached = true;
  setup = record { keypair_parses = true; dht_opened = true; route = some (8, 1 ∷ []) };
  from_utf8 = λ bytes. done "";
  failure = "failed";
}

kim_only : (rows : List MemberRow) → (stored.member_rows [] "c2" ≡ some rows) → rows ≡ kim ∷ []
kim_only rows e = sym (some-injective (kim ∷ []) rows e)

kim_roles :
    (roles : List (String × ℕ))
    → (stored.member_role_rows [] "c2" ≡ some roles)
    → roles ≡ ("kim", 0) ∷ ("kim", 1) ∷ []
kim_roles roles e = sym (some-injective (("kim", 0) ∷ ("kim", 1) ∷ []) roles e)

c2-IsStored : IsStored stored "c2" []
c2-IsStored = record {
  members = record {
    distinct = λ rows e. rw (kim_only rows e) (refl, tt);
    covered = λ rows roles e f. rw (kim_only rows e, kim_roles roles f) (refl, tt);
  };
  roles = λ r rs e. ground arith;
}

handle_ipc_request-AllValid_example :
    AllValid (handle_ipc_request stored toy_wire (env_at 1000) daemon (host village) start).0
handle_ipc_request-AllValid_example =
    handle_ipc_request-AllValid stored stored-IsSeparate (env_at 1000) start (town-IsValid, tt)
      toy_wire daemon (host village) c2-IsStored start-AllHaveIds

abbrev veilid : Veilid
veilid = record { opens = λ keypair key. true; new_private_route = λ cid. some (9, 2 ∷ []) }

start-Named : Named start
start-Named j c e = ground (arith, e, eq_iff "c1" j)

nine_is_fresh :
    (cid : String) (id : ℕ) (blob : List ℕ)
    → veilid.new_private_route cid ≡ some (id, blob)
    → any (λ d. d == id) (5 ∷ 6 ∷ []) ≡ false
nine_is_fresh cid id blob e = ground (arith, e)

abbrev moved : HostedCommunity
moved = with_route 9 (2 ∷ []) (without_route_id town)

town_moved : get "c1" (handle_server_route_change veilid (5 ∷ 6 ∷ []) start).hosted ≡ some moved
unfolding handle_server_route_change reroute_each affected
town_moved = refl

handle_server_route_change-LiveRoutes_example : is_dead (5 ∷ 6 ∷ []) moved.route_id ≡ false
handle_server_route_change-LiveRoutes_example =
    handle_server_route_change-LiveRoutes veilid (5 ∷ 6 ∷ []) nine_is_fresh start "c1" moved
      start-Named town_moved
