-- ===== src/Server/Entry.antt =====
-- How requests come in: `process_request`, `handle_community_request` and
-- `handle_community_rpc_direct` of crates/rekindle-server/src/rpc.rs.
pub mod Authentic
use Prim.Native.String.{◌++◌ as append}
use rekindle.Base.{ℕ, String, List, [], Option, none, some}
use rekindle.Messaging.Envelope.{
  Signatures, MessageEnvelope, ProtocolError, Result, failed, done, process_incoming,
}
use rekindle.Server.Protocol.{CommunityRequest, CommunityResponse, error}
use rekindle.Server.Store.{Database}
use rekindle.Server.Core.{Env, Server, Handled}
use rekindle.Server.Dispatch.{dispatch_request}

-- The libraries: `hex::encode`, and JSON as serde_json reads requests (from bytes and from text) and
-- prints replies. A failed reading says why.
pub record Wire : Type 0 where
  pub signatures : Signatures
  pub hex_encode : List ℕ → String
  pub from_slice : List ℕ → Result String CommunityRequest
  pub from_str : String → Result String CommunityRequest
  pub to_vec : CommunityResponse → Option (List ℕ)

-- The text of an error, as its `Display` prints it.
abbrev pub display : ProtocolError → String
display (ProtocolError.node_startup what) = append "failed to start veilid node: " what
display (ProtocolError.attach_failed what) = append "failed to attach to network: " what
display (ProtocolError.dht_error what) = append "DHT operation failed: " what
display (ProtocolError.routing_error what) = append "routing error: " what
display (ProtocolError.send_failed what) = append "message send failed: " what
display (ProtocolError.receive_failed what) = append "message receive failed: " what
display (ProtocolError.serialization what) = append "serialization error: " what
display (ProtocolError.deserialization what) = append "deserialization error: " what
display (ProtocolError.network what) = append "network error: " what
display (ProtocolError.verification what) = append "verification failed: " what
display (ProtocolError.peer_not_found what) = append "peer not found: " what
display (ProtocolError.crypto_error what) = append "crypto error: " what
display (ProtocolError.internal what) = append "internal error: " what
display ProtocolError.node_not_initialized = "node not initialized"

abbrev pub or_nothing : Option (List ℕ) → List ℕ
or_nothing none = []
or_nothing (some bytes) = bytes

-- A reply that cannot be printed is replaced by an error.
unfoldable pub print_reply : Wire → CommunityResponse → List ℕ
print_reply w response = elim (w.to_vec response) [
  | some bytes ↦ bytes
  | none ↦ or_nothing (w.to_vec (error 500 "serialization failed"))
]

module _ {D : Database} where
  pub serve_payload :
      Env → String → Option ℕ → Server D → Result String CommunityRequest → Handled D
  serve_payload env sender incoming s (failed why) =
      (s, error 400 (append "invalid request payload: " why))
  serve_payload env sender incoming s (done request) =
      dispatch_request env sender request incoming none s

  -- The sender is the key that signed the envelope.
  pub serve_envelope :
      Wire → Env → Option ℕ → Server D → Result ProtocolError MessageEnvelope → Handled D
  serve_envelope w env incoming s (failed why) =
      (s, error 400 (append "invalid envelope: " (display why)))
  serve_envelope w env incoming s (done e) =
      serve_payload env (w.hex_encode e.sender_key) incoming s (w.from_slice e.payload)

  unfoldable pub process_request : Wire → Env → List ℕ → Option ℕ → Server D → Handled D
  unfolding serve_envelope serve_payload
  process_request w env raw incoming s =
      serve_envelope w env incoming s (process_incoming w.signatures raw)

  unfoldable pub handle_community_request :
      Wire → Env → List ℕ → Option ℕ → Server D → Server D × List ℕ
  handle_community_request w env raw incoming s =
      let r = process_request w env raw incoming s in (r.0, print_reply w r.1)

  unfoldable pub serve_direct :
      Wire → Env → String → String → Server D → Result String CommunityRequest → Server D × List ℕ
  serve_direct w env cid sender s (failed why) =
      (s, or_nothing (w.to_vec (error 400 (append "invalid request JSON: " why))))
  serve_direct w env cid sender s (done request) =
      let r = dispatch_request env sender request none (some cid) s in (r.0, print_reply w r.1)

  unfoldable pub handle_community_rpc_direct :
      Wire → Env → String → String → String → Server D → Server D × List ℕ
  unfolding serve_direct
  handle_community_rpc_direct w env cid sender json s =
      serve_direct w env cid sender s (w.from_str json)
