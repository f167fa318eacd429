-- ===== src/Server/Entry/Authentic.antt =====
-- What bytes from the network can do (crates/rekindle-server/src/rpc.rs and
-- crates/rekindle-protocol/src/messaging/receiver.rs).
use rekindle.Base.{ℕ, String, true, List, Option, none, ◌≡◌, ◌⊎◌, inl, inr, refl}
use rekindle.Messaging.Envelope.{
  MessageEnvelope, ProtocolError, Result, failed, done, process_incoming, signed_data,
}
use rekindle.Messaging.Envelope.Signing.{process_incoming-signed}
use rekindle.Server.Protocol.{CommunityRequest}
use rekindle.Server.Store.{Database}
use rekindle.Server.Core.{Env, Server}
use rekindle.Server.Authority.{Transition}
use rekindle.Server.Authority.Admission.{dispatch_request-Transition}
use rekindle.Server.Entry.{
  Wire, process_request, handle_community_request, serve_envelope, serve_payload,
}

-- The bytes are an envelope that was signed by the key in it, and the change is one that this key may
-- make.
pub record IsSigned {D : Database} (w : Wire) (env : Env) (raw : List ℕ) (s s' : Server D)
    : Type 0 where
  pub envelope : MessageEnvelope
  pub decoded : w.signatures.decode_envelope raw ≡ done envelope
  pub signed :
      w.signatures.verify envelope.sender_key
        (signed_data envelope.timestamp envelope.nonce envelope.payload)
        envelope.signature
      ≡ true
  pub allowed : Transition env (w.hex_encode envelope.sender_key) s s'

module _ {D : Database} (w : Wire) (env : Env) (incoming : Option ℕ) (s : Server D) where
  payload-Transition :
      (sender : String) (o : Result String CommunityRequest)
      → (serve_payload env sender incoming s o).0 ≡ s
        ⊎ Transition env sender s (serve_payload env sender incoming s o).0
  unfolding serve_payload
  payload-Transition sender (failed why) = inl refl
  payload-Transition sender (done request) =
      inr (dispatch_request-Transition env sender s request incoming none)

  -- Bytes from the network either leave the server as it is, or they are an envelope whose signature
  -- Ed25519 accepts under the key in it, and the hosted communities change only as the holder of that
  -- key may change them.
  pub request_authentic :
      (raw : List ℕ)
      → ((handle_community_request w env raw incoming s).0 ≡ s)
        ⊎ IsSigned w env raw s (handle_community_request w env raw incoming s).0
  unfolding handle_community_request process_request serve_envelope
  request_authentic raw = go (process_incoming w.signatures raw) refl
    where
      go :
          (o : Result ProtocolError MessageEnvelope)
          → process_incoming w.signatures raw ≡ o
          → ((serve_envelope w env incoming s o).0 ≡ s)
            ⊎ IsSigned w env raw s (serve_envelope w env incoming s o).0
      go (failed why) e = inl refl
      go (done envelope) e =
          elim (payload-Transition (w.hex_encode envelope.sender_key)
            (w.from_slice envelope.payload)) [
              | inl same ↦ inl same
              | inr allowed ↦
                  let (decoded, signed, long) =
                    process_incoming-signed w.signatures raw envelope e in
                  inr (record {
                    envelope = envelope;
                    decoded = decoded;
                    signed = signed;
                    allowed = allowed;
                  })
            ]
