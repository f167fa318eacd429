-- ===== src/Messaging/Envelope.antt =====
-- Signed envelopes: crates/rekindle-protocol/src/messaging/receiver.rs and sender.rs, and
-- MessageEnvelope of envelope.rs. Bytes are numbers.
pub mod Signing
use Prim.Native.String.{◌++◌ as append}
use rekindle.Base.{
  ℕ, ◌==◌, if◌then◌else◌, Bool, String, List, ◌++◌, Option, none, some, length, ◌≡◌, true,
}
use rekindle.Base.Bytes.{le_bytes}
pub use rekindle.Base.Results.{ProtocolError, Result, failed, done}

pub record MessageEnvelope : Type 0 where
  pub sender_key : List ℕ
  pub timestamp : ℕ
  pub nonce : List ℕ
  pub payload : List ℕ
  pub signature : List ℕ

-- The libraries: Cap'n Proto's reading of an envelope, and Ed25519. `key_error` is what is wrong with
-- 32 bytes that are no key. A secret key is 32 bytes.
pub record Signatures : Type 0 where
  pub decode_envelope : List ℕ → Result ProtocolError MessageEnvelope
  pub key_error : List ℕ → Option String
  pub verify : List ℕ → List ℕ → List ℕ → Bool
  pub public_of : List ℕ → List ℕ
  pub sign : List ℕ → List ℕ → List ℕ

-- Ed25519 accepts what it has signed; its keys have 32 bytes, its signatures 64.
pub record IsSound (S : Signatures) : Type 0 where
  pub verify-sign :
      (secret message : List ℕ)
      → S.verify (S.public_of secret) message (S.sign secret message) ≡ true
  pub key-public_of : (secret : List ℕ) → S.key_error (S.public_of secret) ≡ none
  pub length-public_of : (secret : List ℕ) → length (S.public_of secret) ≡ 32
  pub length-sign : (secret message : List ℕ) → length (S.sign secret message) ≡ 64

-- timestamp || nonce || payload, as verify_envelope puts it together again
abbrev pub signed_data : ℕ → List ℕ → List ℕ → List ℕ
signed_data timestamp nonce payload = le_bytes 8 timestamp ++ (nonce ++ payload)

-- A key that is none, or the check of the signature.
pub check_signature : Signatures → MessageEnvelope → Option String → Result ProtocolError Bool
check_signature S e (some what) =
    failed (ProtocolError.verification (append "invalid sender key: " what))
check_signature S e none =
    if length e.signature == 64
    then done (S.verify e.sender_key (signed_data e.timestamp e.nonce e.payload) e.signature)
    else failed (ProtocolError.verification "signature must be 64 bytes")

unfoldable pub verify_envelope : Signatures → MessageEnvelope → Result ProtocolError Bool
unfolding check_signature
verify_envelope S e =
    if length e.sender_key == 32
    then check_signature S e (S.key_error e.sender_key)
    else failed (ProtocolError.verification "sender_key must be 32 bytes")

abbrev pub accepted :
    MessageEnvelope → Result ProtocolError Bool → Result ProtocolError MessageEnvelope
accepted e (failed why) = failed why
accepted e (done valid) =
    if valid then done e else failed (ProtocolError.verification "invalid envelope signature")

abbrev pub verified :
    Signatures → Result ProtocolError MessageEnvelope → Result ProtocolError MessageEnvelope
verified S (failed why) = failed why
verified S (done e) = accepted e (verify_envelope S e)

unfoldable pub process_incoming : Signatures → List ℕ → Result ProtocolError MessageEnvelope
process_incoming S raw = verified S (S.decode_envelope raw)

-- timestamp || nonce || payload, as build_envelope puts it together
abbrev pub data_to_sign : ℕ → List ℕ → List ℕ → List ℕ
data_to_sign timestamp nonce payload = le_bytes 8 timestamp ++ (nonce ++ payload)

unfoldable pub build_envelope : Signatures → List ℕ → ℕ → List ℕ → List ℕ → MessageEnvelope
build_envelope S secret timestamp nonce payload = record {
  sender_key = S.public_of secret;
  timestamp = timestamp;
  nonce = nonce;
  payload = payload;
  signature = S.sign secret (data_to_sign timestamp nonce payload);
}
