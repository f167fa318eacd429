-- ===== src/Signal/Session/Channel.antt =====
-- Messages over an established session.
use rekindle.Base.{
  ℕ, ltb, Bool, true, false, String, List, [], ◌∷◌, ◌++◌, some, get, get-put_self, length, ◌≡◌,
  refl, arith,
}
use mathlib.Core.Path.{subst}
use rekindle.Base.Bytes.{le_bytes, take, drop}
use rekindle.Base.Results.{Result, failed, done}
use rekindle.Base.Actions.{Act, pure, continue, ◌>>=◌}
use rekindle.Signal.{Failure, Primitives, IsSound, CryptoError}
use rekindle.Signal.Ratchet.{RatchetState, serialize_ratchet, deserialize_ratchet}
use rekindle.Signal.Ratchet.Roundtrip.{IsWellFormed, deserialize_ratchet-serialize_ratchet}
use rekindle.Signal.Stores.{Manager, Step, store_session}
use rekindle.Signal.Session.{encrypt, decrypt, message_keys, sent, received, nonce_of}

-- The session of a peer is stored, in this state.
pub record HasSession (m : Manager) (peer : String) (r : RatchetState) : Type 0 where
  pub bytes : List ℕ
  pub stored : get peer m.session_store.sessions ≡ some bytes
  pub reads : deserialize_ratchet bytes ≡ done r
  pub formed : IsWellFormed r

-- Two managers have sessions with each other of which the chains mirror one another.
pub record InSync (a : Manager) (of_a : String) (b : Manager) (of_b : String) : Type 0 where
  pub left : RatchetState
  pub right : RatchetState
  pub has_left : HasSession a of_a left
  pub has_right : HasSession b of_b right
  pub forth : left.sending_chain_key ≡ right.receiving_chain_key
  pub back : right.sending_chain_key ≡ left.receiving_chain_key

pub InSync-swap : {a b : Manager} {of_a of_b : String} → InSync a of_a b of_b → InSync b of_b a of_a
InSync-swap y = record {
  left = y.right;
  right = y.left;
  has_left = y.has_right;
  has_right = y.has_left;
  forth = y.back;
  back = y.forth;
}

-- A state that is written is the peer's session.
pub stored_session :
    (peer : String) (r : RatchetState) (m : Manager)
    → IsWellFormed r
    → (bytes : List ℕ) × (serialize_ratchet r m ≡ (m, done bytes))
      × HasSession (store_session peer bytes m).0 peer r
stored_session peer r m w =
    let (bytes, written, reads) = deserialize_ratchet-serialize_ratchet r w m in
    (
      bytes,
      written,
      record {
        bytes = bytes;
        stored = get-put_self peer bytes m.session_store.sessions;
        reads = reads;
        formed = w;
      },
    )

-- One side of two takes a step.
abbrev at_left : {A : Type 0} → Step A → Act Failure (Manager × Manager) A
at_left m s = let r = m s.0 in ((r.0, s.1), r.1)

abbrev at_right : {A : Type 0} → Step A → Act Failure (Manager × Manager) A
at_right m s = let r = m s.1 in ((s.0, r.0), r.1)

-- A conversation, as who speaks and what is said: the texts that arrive on the other side.
module _ (C : Primitives) (of_a of_b : String) where
  abbrev transmit : Bool → List ℕ → Act Failure (Manager × Manager) (List ℕ)
  transmit true text = do message ← at_left (encrypt C of_a text); at_right (decrypt C of_b message)
  transmit false text = do
    message ← at_right (encrypt C of_b text)
    at_left (decrypt C of_a message)

  unfoldable pub converse : List (Bool × List ℕ) → Act Failure (Manager × Manager) (List (List ℕ))
  converse [] = pure []
  converse ((who, text) ∷ es) = do
    arrived ← transmit who text
    rest ← converse es
    pure (arrived ∷ rest)

abbrev pub texts : List (Bool × List ℕ) → List (List ℕ)
texts [] = []
texts ((who, text) ∷ es) = text ∷ texts es

said :
    {S : Type 0} (text : List ℕ) (o : S × Result Failure (List (List ℕ))) (ts : List (List ℕ))
    → o.1 ≡ done ts
    → (continue o (λ rest. pure (text ∷ rest))).1 ≡ done (text ∷ ts)
said text (s, failed why) ts e = ground arith
said text (s, done rest) ts e = ground arith

module _ (C : Primitives) (sound : IsSound C) where
  -- The keys of a message can be derived, on either side.
  keys_done :
      (chain : List ℕ)
      → (key next : List ℕ) × ((wrap : String → CryptoError)
          → message_keys C wrap chain ≡ done (key, next))
        × (length key ≡ 32)
        × (length next ≡ 32)
  keys_done chain =
      let (key, e, len) = sound.hkdf-done chain "ReKindleMsgKey" 32 (omega arith) in
      let (next, f, len') = sound.hkdf-done chain "ReKindleChainKey" 32 (omega arith) in
      (key, next, λ wrap. rw (e, f) refl, len, len')

  sent-IsWellFormed :
      (next : List ℕ) (r : RatchetState)
      → length next ≡ 32
      → IsWellFormed r
      → IsWellFormed (sent C next r)
  sent-IsWellFormed next r len w = record {
    root = w.root;
    sending = len;
    receiving = w.receiving;
    ours = w.ours;
    theirs = w.theirs;
    sent = omega arith;
    received = w.received;
  }

  received-IsWellFormed :
      (next : List ℕ) (r : RatchetState)
      → length next ≡ 32
      → IsWellFormed r
      → IsWellFormed (received C next r)
  received-IsWellFormed next r len w = record {
    root = w.root;
    sending = w.sending;
    receiving = len;
    ours = w.ours;
    theirs = w.theirs;
    sent = w.sent;
    received = omega arith;
  }

  -- The parts of a message.
  nonce-message :
      (n : ℕ) (out : List ℕ)
      → (take 12 (drop 8 (le_bytes 8 n ++ (nonce_of C n ++ out))) ≡ nonce_of C n)
        × (drop 20 (le_bytes 8 n ++ (nonce_of C n ++ out)) ≡ out)
        × (ltb (length (le_bytes 8 n ++ (nonce_of C n ++ out))) 20 ≡ false)
  unfolding le_bytes
  nonce-message n out = (refl, refl, ground arith)

  module _ (m : Manager) (peer : String) (r : RatchetState) (h : HasSession m peer r) where
    encrypt_lem :
        (text key next : List ℕ)
        → message_keys C CryptoError.encryption_error r.sending_chain_key ≡ done (key, next)
        → length key ≡ 32
        → length next ≡ 32
        → (out : List ℕ) × (m' : Manager) × (encrypt C peer text m ≡ (
          m',
          done (
              le_bytes 8 (sent C next r).send_counter
              ++ (nonce_of C (sent C next r).send_counter ++ out)),
        ))
          × (C.encrypt key (nonce_of C (sent C next r).send_counter) text ≡ done out)
          × HasSession m' peer (sent C next r)
    unfolding encrypt
    encrypt_lem text key next keys len len' =
        let (out, e) = sound.encrypt-done key (nonce_of C (sent C next r).send_counter) text len in
        let (bytes, written, session) =
          stored_session peer (sent C next r) m (sent-IsWellFormed next r len' h.formed) in
        (
          out,
          (store_session peer bytes m).0,
          rw (h.stored, h.reads, keys, e, written) refl,
          e,
          session,
        )

    decrypt_lem :
        (n : ℕ) (out text key next : List ℕ)
        → message_keys C CryptoError.decryption_error r.receiving_chain_key ≡ done (key, next)
        → length next ≡ 32
        → C.decrypt key (nonce_of C n) out ≡ done text
        → (m' : Manager) × (decrypt C peer (le_bytes 8 n ++ (nonce_of C n ++ out)) m
            ≡ (m', done text))
          × HasSession m' peer (received C next r)
    unfolding decrypt
    decrypt_lem n out text key next keys len e =
        let (bytes, written, session) =
          stored_session peer (received C next r) m (received-IsWellFormed next r len h.formed) in
        let (nonce, rest, long) = nonce-message n out in
        (
          (store_session peer bytes m).0,
          rw (long, h.stored, h.reads, keys, nonce, rest, e, written) refl,
          session,
        )

  -- What one side encrypts the other decrypts, and both are in step for the next message, in either
  -- direction.
  delivered :
      (a b : Manager) (of_a of_b : String) (text : List ℕ) (y : InSync a of_a b of_b)
      → (message : List ℕ) × (a' : Manager) × (b' : Manager) × (encrypt C of_a text a
          ≡ (a', done message))
        × (decrypt C of_b message b ≡ (b', done text))
        × InSync a' of_a b' of_b
  delivered a b of_a of_b text y =
      let (key, next, keys, len, len') = keys_done y.left.sending_chain_key in
      let (out, a', sealed, cipher, has_left) =
        encrypt_lem a of_a y.left y.has_left text key next (keys CryptoError.encryption_error) len
          len' in
      let n : ℕ = (sent C next y.left).send_counter in
      let (b', opened, has_right) =
        decrypt_lem b of_b y.right y.has_right n out text key next
          (subst (λ c. message_keys C CryptoError.decryption_error c ≡ done (key, next)) y.forth
            (keys CryptoError.decryption_error))
          len' (sound.decrypt-encrypt key (nonce_of C n) text out cipher) in
      (
        _,
        a',
        b',
        sealed,
        opened,
        record {
          left = sent C next y.left;
          right = received C next y.right;
          has_left = has_left;
          has_right = has_right;
          forth = refl;
          back = y.back;
        },
      )

  -- Whatever is said in whatever turns, and delivered in that order, arrives as it was said, with no
  -- failure on either side. The two sessions are in sync to start with.
  pub converse-InSync :
      (of_a of_b : String) (es : List (Bool × List ℕ)) (a b : Manager)
      → InSync a of_a b of_b
      → (converse C of_a of_b es (a, b)).1 ≡ done (texts es)
  unfolding converse
  converse-InSync of_a of_b [] a b y = refl
  converse-InSync of_a of_b ((true, text) ∷ es) a b y =
      let (message, a', b', sealed, opened, y') = delivered a b of_a of_b text y in
      rw (sealed, opened) (said text _ _ (converse-InSync of_a of_b es a' b' y'))
  converse-InSync of_a of_b ((false, text) ∷ es) a b y =
      let (message, b', a', sealed, opened, y') = delivered b a of_b of_a text (InSync-swap y) in
      rw (sealed, opened) (said text _ _ (converse-InSync of_a of_b es a' b' (InSync-swap y')))
