-- ===== src/Server/Invariant/Socket.antt =====
-- The invariant through the requests that come over the local socket (crates/rekindle-server/src/ipc.rs).
use rekindle.Base.{String, none, some, get, inl, inr, Option-cases}
use rekindle.Base.Results.{Result, failed, done}
use rekindle.Server.Protocol.{CommunityRequest}
use rekindle.Server.Store.{Database}
use rekindle.Server.Core.{Env, Server}
use rekindle.Server.Loading.{Queries}
use rekindle.Server.Hosted.{unhost_community}
use rekindle.Server.Entry.{Wire, handle_community_rpc_direct, serve_direct}
use rekindle.Server.Ipc.{
  Daemon, IpcRequest, host, unhost, list_hosted, get_status, shutdown, community_rpc,
  handle_ipc_request,
}
use rekindle.Server.Invariant.{IsValid, AllValid, AllHaveIds}
use rekindle.Server.Invariant.Preservation.{dispatch_request-AllValid}
use rekindle.Server.Invariant.Stored.{IsSeparate, IsStored}
use rekindle.Server.Invariant.Hosted.{All-erase, host_community-AllValid}

module _ {D : Database} (Q : Queries D) (sep : IsSeparate Q) (env : Env) (s : Server D)
    (valid : AllValid s) where
  unhost_community-AllValid : (cid : String) → AllValid (unhost_community cid s)
  unfolding unhost_community
  unhost_community-AllValid cid = elim (Option-cases (get cid s.hosted)) [
    | inl e ↦ rw (e, unhost_community) valid
    | inr (c, e) ↦ elim (Option-cases c.route_id) [
      | inl r ↦ rw (e, r, unhost_community) (All-erase IsValid cid s.hosted valid)
      | inr (id, r) ↦ rw (e, r, unhost_community) (All-erase IsValid cid s.hosted valid)
    ]
  ]

  served :
      (w : Wire) (cid sender : String) (r : Result String CommunityRequest)
      → AllHaveIds s
      → AllValid (serve_direct w env cid sender s r).0
  unfolding serve_direct
  served w cid sender (failed why) ids = valid
  served w cid sender (done request) ids =
      dispatch_request-AllValid env sender s valid request none (some cid) ids

  -- What the database holds of the community that is to be hosted.
  abbrev pub Stored : IpcRequest → Type 0
  Stored (host h) = IsStored Q h.community_id s.db
  Stored (unhost cid) = Unit
  Stored list_hosted = Unit
  Stored get_status = Unit
  Stored shutdown = Unit
  Stored (community_rpc cid sender json) = Unit

  -- Every request over the local socket, to host a community, to stop hosting it, a member's request
  -- to a community or another, keeps the invariant of all hosted communities, whether it succeeds or
  -- fails. What the database holds of the members and roles of a community that is to be hosted is
  -- valid, and a role id is left in 32 bits in each hosted community.
  pub handle_ipc_request-AllValid :
      (w : Wire) (m : Daemon) (request : IpcRequest)
      → Stored request
      → AllHaveIds s
      → AllValid (handle_ipc_request Q w env m request s).0
  unfolding handle_ipc_request handle_community_rpc_direct
  handle_ipc_request-AllValid w m (host h) stored ids =
      host_community-AllValid Q sep env m.setup h s stored valid
  handle_ipc_request-AllValid w m (unhost cid) stored ids = unhost_community-AllValid cid
  handle_ipc_request-AllValid w m list_hosted stored ids = valid
  handle_ipc_request-AllValid w m get_status stored ids = valid
  handle_ipc_request-AllValid w m shutdown stored ids = valid
  handle_ipc_request-AllValid w m (community_rpc cid sender json) stored ids =
      served w cid sender (w.from_str json) ids
