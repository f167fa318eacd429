-- ===== src/Signal/Session.antt =====
-- `SignalSessionManager`: crates/rekindle-crypto/src/signal/session.rs, and PreKeyBundle of prekeys.rs.
-- Random secrets are arguments.
pub mod Channel
pub mod Agreement
use Prim.Native.String.{◌++◌ as append}
use rekindle.Base.{
  ℕ, ◌+◌, ◌^◌, ◌%◌, ltb, leb, ◌==◌, if◌then◌else◌, String, List, [], ◌∷◌, ◌++◌, Option, none, some,
  length,
}
use rekindle.Base.Bytes.{le_bytes, take, drop}
use rekindle.Base.Results.{Result, failed, done, map_err}
use rekindle.Base.Actions.{Act, pure, throw, from, continue, ◌>>=◌, ◌>>◌}
use rekindle.Signal.{CryptoError, Failure, error, panics, Primitives, array32}
use rekindle.Signal.Ratchet.{RatchetState, serialize_ratchet, deserialize_ratchet}
use rekindle.Signal.Stores.{
  Manager, Step, save_identity, load_prekey, store_prekey, remove_prekey, load_signed_prekey,
  store_signed_prekey, load_session, store_session,
}

pub record PreKeyBundle : Type 0 where
  pub identity_key : List ℕ
  pub signed_prekey : List ℕ
  pub signed_prekey_signature : List ℕ
  pub one_time_prekey : Option (List ℕ)
  pub registration_id : ℕ

pub record SessionInitInfo : Type 0 where
  pub ephemeral_public_key : List ℕ
  pub signed_prekey_id : ℕ
  pub one_time_prekey_id : Option ℕ

-- `&identity_private[..32]` as an array
abbrev pub first32 : List ℕ → Result Failure (List ℕ)
first32 bytes = if leb 32 (length bytes) then done (take 32 bytes) else failed panics

abbrev pub one_if : Option (List ℕ) → Option ℕ
one_if none = none
one_if (some key) = some 1

-- A key, or what is wrong.
abbrev pub present : String → Option (List ℕ) → Result Failure (List ℕ)
present what none = failed (error (CryptoError.invalid_key what))
present what (some key) = done key

-- Both chains start from the key material, one way or the other.
abbrev pub root_of : List ℕ → List ℕ
root_of okm = take 32 okm

abbrev pub first_chain : List ℕ → List ℕ
first_chain okm = take 32 (drop 32 okm)

abbrev pub second_chain : List ℕ → List ℕ
second_chain okm = take 32 (drop 64 okm)

module _ (C : Primitives) where
  -- The optional fourth secret, on the initiator's side.
  abbrev pub fourth_secret : List ℕ → Option (List ℕ) → Result Failure (List ℕ)
  fourth_secret ephemeral none = done []
  fourth_secret ephemeral (some otpk) =
      if length otpk == 32
      then done (C.diffie_hellman ephemeral otpk)
      else failed (error (CryptoError.invalid_key "one-time prekey wrong length"))

  abbrev pub key_material : List ℕ → Result Failure (List ℕ)
  key_material ikm =
      map_err (λ why. error (CryptoError.session_error (append "HKDF expand failed: " why)))
        (C.hkdf ikm "ReKindleX3DH" 96)

  -- The last part of both handshakes: the state is stored, and the identity saved.
  abbrev pub keep_session : String → List ℕ → RatchetState → Step (Unit {0})
  keep_session peer_address identity_key ratchet = do
    session_data ← serialize_ratchet ratchet
    store_session peer_address session_data
    save_identity peer_address identity_key

  abbrev pub initiator_ratchet : List ℕ → List ℕ → List ℕ → RatchetState
  initiator_ratchet okm ephemeral_public signed_prekey = record {
    root_key = root_of okm;
    sending_chain_key = first_chain okm;
    receiving_chain_key = second_chain okm;
    our_ratchet_secret = ephemeral_public;
    their_ratchet_public = signed_prekey;
    send_counter = 0;
    recv_counter = 0;
  }

  unfoldable pub establish_session : List ℕ → String → PreKeyBundle → Step SessionInitInfo
  establish_session ephemeral peer_address bundle m =
      (do
        our_identity ← from (first32 m.identity.identity_private)
        their_signed_prekey ← from (array32 "signed prekey wrong length" bundle.signed_prekey)
        their_identity ← from (array32 "identity key wrong length" bundle.identity_key)
        let dh1 = C.diffie_hellman our_identity their_signed_prekey
        let dh2 = C.diffie_hellman ephemeral their_identity
        let dh3 = C.diffie_hellman ephemeral their_signed_prekey
        dh4 ← from (fourth_secret ephemeral bundle.one_time_prekey)
        okm ← from (key_material (dh1 ++ (dh2 ++ (dh3 ++ dh4))))
        keep_session peer_address bundle.identity_key
            (initiator_ratchet okm (C.x25519_public ephemeral) bundle.signed_prekey)
        pure (record {
          ephemeral_public_key = C.x25519_public ephemeral;
          signed_prekey_id = 1;
          one_time_prekey_id = one_if bundle.one_time_prekey;
        }))
        m

  -- The optional fourth secret, on the responder's side; the prekey is used up.
  abbrev pub consume_prekey : List ℕ → Option ℕ → Step (List ℕ)
  consume_prekey their_ephemeral none = pure []
  consume_prekey their_ephemeral (some otpk_id) = do
    stored ← load_prekey otpk_id
    otpk_data ← from (present "one-time prekey not found" stored)
    otpk ← from (array32 "one-time prekey wrong length" otpk_data)
    remove_prekey otpk_id
    pure (C.diffie_hellman otpk their_ephemeral)

  abbrev pub responder_ratchet : List ℕ → List ℕ → List ℕ → RatchetState
  responder_ratchet okm signed_prekey_public ephemeral_public = record {
    root_key = root_of okm;
    sending_chain_key = second_chain okm;
    receiving_chain_key = first_chain okm;
    our_ratchet_secret = signed_prekey_public;
    their_ratchet_public = ephemeral_public;
    send_counter = 0;
    recv_counter = 0;
  }

  unfoldable pub respond_to_session : String → List ℕ → List ℕ → ℕ → Option ℕ → Step (Unit {0})
  respond_to_session peer_address their_identity_key their_ephemeral_key signed_prekey_id
        one_time_prekey_id m =
      (do
        our_identity ← from (first32 m.identity.identity_private)
        stored ← load_signed_prekey signed_prekey_id
        spk_data ← from (present "signed prekey not found" stored)
        signed_prekey ← from (array32 "signed prekey wrong length" spk_data)
        their_identity ← from (array32 "their identity key wrong length" their_identity_key)
        their_ephemeral ← from (array32 "their ephemeral key wrong length" their_ephemeral_key)
        let dh1 = C.diffie_hellman signed_prekey their_identity
        let dh2 = C.diffie_hellman our_identity their_ephemeral
        let dh3 = C.diffie_hellman signed_prekey their_ephemeral
        dh4 ← consume_prekey their_ephemeral one_time_prekey_id
        okm ← from (key_material (dh1 ++ (dh2 ++ (dh3 ++ dh4))))
        keep_session peer_address their_identity_key
            (responder_ratchet okm (C.x25519_public signed_prekey) their_ephemeral_key))
        m

  -- The key of the next message and the next chain key. `wrap` is the error of the direction.
  abbrev pub message_keys : (String → CryptoError) → List ℕ → Result Failure (List ℕ × List ℕ)
  message_keys wrap chain =
      both (C.hkdf chain "ReKindleMsgKey" 32) (C.hkdf chain "ReKindleChainKey" 32)
    where
      both : Result String (List ℕ) → Result String (List ℕ) → Result Failure (List ℕ × List ℕ)
      both (failed why) next = failed (error (wrap (append "HKDF: " why)))
      both (done key) (failed why) = failed (error (wrap (append "HKDF: " why)))
      both (done key) (done next) = done (key, next)

  -- The session of a peer.
  abbrev pub session_of : Option (List ℕ) → Result Failure RatchetState
  session_of none = failed (error (CryptoError.session_error "no session for peer"))
  session_of (some session_data) = deserialize_ratchet session_data

  abbrev pub nonce_of : ℕ → List ℕ
  nonce_of counter = 0 ∷ 0 ∷ 0 ∷ 0 ∷ le_bytes 8 counter

  abbrev pub sent : List ℕ → RatchetState → RatchetState
  sent next r = record r { sending_chain_key = next; send_counter = (r.send_counter + 1) % 2 ^ 64 }

  abbrev pub received : List ℕ → RatchetState → RatchetState
  received next r = record r {
    receiving_chain_key = next;
    recv_counter = (r.recv_counter + 1) % 2 ^ 64;
  }

  unfoldable pub encrypt : String → List ℕ → Step (List ℕ)
  encrypt peer_address plaintext = do
    stored ← load_session peer_address
    ratchet ← from (session_of stored)
    keys ← from (message_keys CryptoError.encryption_error ratchet.sending_chain_key)
    let ratchet' = sent keys.1 ratchet
    let nonce = nonce_of ratchet'.send_counter
    ciphertext ← from (
        map_err (λ why. error (CryptoError.encryption_error why))
          (C.encrypt keys.0 nonce plaintext))
    session_data ← serialize_ratchet ratchet'
    store_session peer_address session_data
    pure (le_bytes 8 ratchet'.send_counter ++ (nonce ++ ciphertext))

  -- `decrypt` below the check of the length
  abbrev pub open_message : String → List ℕ → Step (List ℕ)
  open_message peer_address message = do
    stored ← load_session peer_address
    ratchet ← from (session_of stored)
    keys ← from (message_keys CryptoError.decryption_error ratchet.receiving_chain_key)
    plaintext ← from (
        map_err (λ why. error (CryptoError.decryption_error why))
          (C.decrypt keys.0 (take 12 (drop 8 message)) (drop 20 message)))
    session_data ← serialize_ratchet (received keys.1 ratchet)
    store_session peer_address session_data
    pure plaintext

  unfoldable pub decrypt : String → List ℕ → Step (List ℕ)
  decrypt peer_address message =
      if ltb (length message) 20
      then throw (error (CryptoError.decryption_error "message too short"))
      else open_message peer_address message

  -- The one-time prekey that is stored and published, if an id is given for one.
  abbrev pub publish_prekey : List ℕ → Option ℕ → Step (Option (List ℕ))
  publish_prekey otpk_secret none = pure none
  publish_prekey otpk_secret (some otpk_id) = do
    store_prekey otpk_id otpk_secret
    pure (some (C.x25519_public otpk_secret))

  unfoldable pub generate_prekey_bundle : List ℕ → List ℕ → ℕ → Option ℕ → Step PreKeyBundle
  generate_prekey_bundle spk_secret otpk_secret signed_prekey_id one_time_prekey_id m =
      (do
        store_signed_prekey signed_prekey_id spk_secret
        signing_key ← from (first32 m.identity.identity_private)
        one_time_prekey ← publish_prekey otpk_secret one_time_prekey_id
        pure (record {
          identity_key = m.identity.identity_public;
          signed_prekey = C.x25519_public spk_secret;
          signed_prekey_signature = C.sign signing_key (C.x25519_public spk_secret);
          one_time_prekey = one_time_prekey;
          registration_id = m.identity.registration_id;
        }))
        m
