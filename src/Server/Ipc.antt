-- ===== src/Server/Ipc.antt =====
-- Requests over the local socket: crates/rekindle-server/src/ipc.rs, below the reading of lines.
use rekindle.Base.{ℕ, ◌-◌, String, Bool, List, Option, none, some, map, length}
use rekindle.Base.Results.{Result, failed, done}
use Prim.Native.String.{◌++◌ as append}
use rekindle.Server.State.{HostedCommunity}
use rekindle.Server.Store.{Database}
use rekindle.Server.Core.{Env, Server}
use rekindle.Server.Loading.{Queries}
use rekindle.Server.Hosted.{Hosting, Setup, host_community, unhost_community}
use rekindle.Server.Entry.{Wire, handle_community_rpc_direct}

pub data IpcRequest : Type 0 where
  host : Hosting → IpcRequest
  unhost : String → IpcRequest
  list_hosted get_status shutdown : IpcRequest
  community_rpc : String → String → String → IpcRequest

pub record HostedCommunityInfo : Type 0 where
  pub community_id : String
  pub dht_record_key : String
  pub member_count : ℕ
  pub has_route : Bool

pub data IpcResponse : Type 0 where
  ok : IpcResponse
  hosted : List HostedCommunityInfo → IpcResponse
  status : ℕ → ℕ → Bool → IpcResponse
  error : String → IpcResponse
  rpc_result : String → IpcResponse

-- What the daemon finds outside: its start, whether Veilid is attached, the set-up of a community, and
-- `String::from_utf8`. `failure` is the text of the error with which hosting fails.
pub record Daemon : Type 0 where
  pub started_at : ℕ
  pub veilid_attached : Bool
  pub setup : Setup
  pub from_utf8 : List ℕ → Result String String
  pub failure : String

abbrev is_some : Option ℕ → Bool
is_some none = Bool.false
is_some (some n) = Bool.true

abbrev pub info : HostedCommunity → HostedCommunityInfo
info c = record {
  community_id = c.community_id;
  dht_record_key = c.dht_record_key;
  member_count = length c.members;
  has_route = is_some c.route_id;
}

abbrev pub hosting_reply : Daemon → Bool → IpcResponse
hosting_reply m Bool.true = IpcResponse.ok
hosting_reply m Bool.false = IpcResponse.error m.failure

abbrev pub text_reply : Result String String → IpcResponse
text_reply (failed why) = IpcResponse.error (append "non-UTF8 RPC response: " why)
text_reply (done json) = rpc_result json

-- The server, whether it is to shut down, and the reply.
unfoldable pub handle_ipc_request :
    {D : Database}
    → Queries D
    → Wire
    → Env
    → Daemon
    → IpcRequest
    → Server D
    → Server D × Bool × IpcResponse
handle_ipc_request Q w env m (host h) s =
    let r = host_community Q env m.setup h s in (r.0, Bool.false, hosting_reply m r.1)
handle_ipc_request Q w env m (unhost cid) s = (unhost_community cid s, Bool.false, IpcResponse.ok)
handle_ipc_request Q w env m list_hosted s = (s, Bool.false, hosted (map (λ e. info e.1) s.hosted))
handle_ipc_request Q w env m get_status s =
    (s, Bool.false, status (env.now - m.started_at) (length s.hosted) m.veilid_attached)
handle_ipc_request Q w env m shutdown s = (s, Bool.true, IpcResponse.ok)
handle_ipc_request Q w env m (community_rpc cid sender json) s =
    let r = handle_community_rpc_direct w env cid sender json s in
    (r.0, Bool.false, text_reply (m.from_utf8 r.1))
