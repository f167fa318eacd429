-- ===== src/Server/Tests/Entry.antt =====
-- Envelopes and requests from the network on the sample, with a toy signature scheme: a signature
-- starts with the length of what it signs.
use rekindle.Base.{
  ℕ, ◌==◌, ==_iff, zero, suc, Bool, false, List, [], ◌∷◌, none, some, ◌≡◌, ◌⊎◌, refl, length,
}
use rekindle.Base.Bytes.{le_bytes}
use rekindle.Messaging.Envelope.{
  MessageEnvelope, ProtocolError, Result, failed, done, Signatures, IsSound, build_envelope,
  process_incoming,
}
use rekindle.Messaging.Envelope.Signing.{process_incoming-build_envelope}
use rekindle.Server.Protocol.{CommunityRequest}
use rekindle.Server.Entry.{Wire, handle_community_request}
use rekindle.Server.Entry.Authentic.{IsSigned, request_authentic}
use rekindle.Server.Tests.Town.{start, env_at}

abbrev zeros : ℕ → List ℕ
zeros zero = []
zeros (suc n) = 0 ∷ zeros n

abbrev starts_with : ℕ → List ℕ → Bool
starts_with n [] = false
starts_with n (b ∷ bs) = b == n

abbrev toy_sign : List ℕ → List ℕ → List ℕ
toy_sign secret message = length message ∷ zeros 63

abbrev hello : MessageEnvelope
hello = record {
  sender_key = zeros 32;
  timestamp = 5;
  nonce = 1 ∷ 2 ∷ [];
  payload = 3 ∷ [];
  signature = 11 ∷ zeros 63;
}

abbrev toy_decode : List ℕ → Result ProtocolError MessageEnvelope
toy_decode [] = failed (ProtocolError.deserialization "empty")
toy_decode (b ∷ bs) = done hello

abbrev toy : Signatures
toy = record {
  decode_envelope = toy_decode;
  key_error = λ key. none;
  verify = λ key message signature. starts_with (length message) signature;
  public_of = λ secret. zeros 32;
  sign = toy_sign;
}

toy-IsSound : IsSound toy
toy-IsSound = record {
  verify-sign = λ secret message. (==_iff (length message) (length message)).1 refl;
  key-public_of = λ secret. refl;
  length-public_of = λ secret. refl;
  length-sign = λ secret message. refl;
}

toy_built : toy_decode (9 ∷ []) ≡ done (build_envelope toy (4 ∷ []) 5 (1 ∷ 2 ∷ []) (3 ∷ []))
unfolding build_envelope le_bytes
toy_built = refl

process_incoming-build_envelope_example :
    process_incoming toy (9 ∷ []) ≡ done (build_envelope toy (4 ∷ []) 5 (1 ∷ 2 ∷ []) (3 ∷ []))
process_incoming-build_envelope_example =
    process_incoming-build_envelope toy (4 ∷ []) (1 ∷ 2 ∷ []) (3 ∷ []) (9 ∷ []) 5 toy-IsSound
      toy_built

abbrev pub toy_wire : Wire
toy_wire = record {
  signatures = toy;
  hex_encode = λ key. "bob";
  from_slice = λ bytes. done (CommunityRequest.kick "eve");
  from_str = λ text. done CommunityRequest.leave;
  to_vec = λ response. some (1 ∷ []);
}

request_authentic_example :
    ((handle_community_request toy_wire (env_at 1000) (9 ∷ []) (some 5) start).0 ≡ start)
    ⊎ IsSigned toy_wire
        (env_at 1000)
        (9 ∷ [])
        start
        (handle_community_request toy_wire (env_at 1000) (9 ∷ []) (some 5) start).0
request_authentic_example = request_authentic toy_wire (env_at 1000) (some 5) start (9 ∷ [])
