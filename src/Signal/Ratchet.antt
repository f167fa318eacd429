-- ===== src/Signal/Ratchet.antt =====
-- The state of a session and its bytes: RatchetState, serialize_ratchet and deserialize_ratchet of
-- crates/rekindle-crypto/src/signal/session.rs.
pub mod Roundtrip
use rekindle.Base.{ℕ, ◌+◌, ◌^◌, ltb, if◌then◌else◌, List, [], ◌++◌, length}
use rekindle.Base.Bytes.{le_bytes, from_le_bytes}
use rekindle.Base.Results.{Result, failed, done}
use rekindle.Base.Actions.{Act, pure, throw, from, continue, ◌>>=◌}
use rekindle.Signal.{CryptoError, Failure, error, panics, cut}

pub record RatchetState : Type 0 where
  pub root_key : List ℕ
  pub sending_chain_key : List ℕ
  pub receiving_chain_key : List ℕ
  pub our_ratchet_secret : List ℕ
  pub their_ratchet_public : List ℕ
  pub send_counter : ℕ
  pub recv_counter : ℕ

-- `u32::try_from(len).expect(…)`
abbrev pub length32 : List ℕ → Result Failure ℕ
length32 bytes = if ltb (length bytes) (2 ^ 32) then done (length bytes) else failed panics

-- The bytes, once the two lengths are known to fit.
abbrev pub ratchet_bytes : RatchetState → ℕ → ℕ → List ℕ
ratchet_bytes r our_len their_len =
    r.root_key
    ++ (r.sending_chain_key
        ++ (r.receiving_chain_key
            ++ (le_bytes 4 our_len
                ++ (r.our_ratchet_secret
                    ++ (le_bytes 4 their_len
                        ++ (r.their_ratchet_public
                            ++ (le_bytes 8 r.send_counter ++ le_bytes 8 r.recv_counter)))))))

unfoldable pub serialize_ratchet : {S : Type 0} → RatchetState → Act Failure S (List ℕ)
serialize_ratchet r = do
  our_len ← from (length32 r.our_ratchet_secret)
  their_len ← from (length32 r.their_ratchet_public)
  pure (ratchet_bytes r our_len their_len)

-- Reading: the state is what is left of the bytes.
unfoldable pub read_ratchet : Act Failure (List ℕ) RatchetState
read_ratchet = do
  root_key ← cut 32
  sending_chain_key ← cut 32
  receiving_chain_key ← cut 32
  our_len ← cut 4
  our_ratchet_secret ← cut (from_le_bytes our_len)
  their_len ← cut 4
  their_ratchet_public ← cut (from_le_bytes their_len)
  send_counter ← cut 8
  recv_counter ← cut 8
  pure (record {
    root_key = root_key;
    sending_chain_key = sending_chain_key;
    receiving_chain_key = receiving_chain_key;
    our_ratchet_secret = our_ratchet_secret;
    their_ratchet_public = their_ratchet_public;
    send_counter = from_le_bytes send_counter;
    recv_counter = from_le_bytes recv_counter;
  })

unfoldable pub deserialize_ratchet : List ℕ → Result Failure RatchetState
deserialize_ratchet bytes =
    if ltb (length bytes) 112
    then failed (error (CryptoError.session_error "invalid session data"))
    else (read_ratchet bytes).1
