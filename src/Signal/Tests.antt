-- ===== src/Signal/Tests.antt =====
-- Examples with a toy cryptography: a key is the sum of its bytes.
use rekindle.Base.{
  ℕ, zero, suc, ◌+◌, ◌-◌, ◌*◌, Bool, true, false, String, List, [], ◌∷◌, length, ◌≡◌, refl, ap, sym,
  ◌∙◌, arith,
}
use rekindle.Base.Results.{Result, failed, done}
use rekindle.Signal.{Primitives, IsSound}
use rekindle.Signal.Stores.{Manager}
use rekindle.Signal.Ratchet.{RatchetState, serialize_ratchet, deserialize_ratchet}
use rekindle.Signal.Ratchet.Roundtrip.{IsWellFormed, deserialize_ratchet-serialize_ratchet}
use rekindle.Signal.Session.Channel.{converse, texts, converse-InSync}
use rekindle.Signal.Session.Agreement.{IsIdentity, Agreed, handshake-Agreed}

abbrev total : List ℕ → ℕ
total [] = 0
total (b ∷ bs) = b + total bs

abbrev head_of : List ℕ → ℕ
head_of [] = 0
head_of (b ∷ bs) = b

abbrev pub repeat : ℕ → ℕ → List ℕ
repeat zero b = []
repeat (suc n) b = b ∷ repeat n b

abbrev shift : ℕ → List ℕ → List ℕ
shift k [] = []
shift k (b ∷ bs) = (b + k) ∷ shift k bs

abbrev unshift : ℕ → List ℕ → List ℕ
unshift k [] = []
unshift k (b ∷ bs) = (b - k) ∷ unshift k bs

abbrev pub toy : Primitives
toy = record {
  x25519_public = λ a. total a ∷ repeat 31 0;
  diffie_hellman = λ a p. (total a * head_of p) ∷ [];
  hkdf = λ key label n. done (repeat n (total key));
  sign = λ key message. repeat 64 0;
  encrypt = λ key nonce text. done (shift (total key) text);
  decrypt = λ key nonce out. done (unshift (total key) out);
}

length-repeat : (n b : ℕ) → length (repeat n b) ≡ n
length-repeat zero b = refl
length-repeat (suc n) b = omega (arith, length-repeat n b)

unshift-shift : (k : ℕ) (bs : List ℕ) → unshift k (shift k bs) ≡ bs
unshift-shift k [] = refl
unshift-shift k (b ∷ bs) = ground (arith, unshift-shift k bs)

abbrev ok : List ℕ → Result String (List ℕ)
ok bytes = done bytes

abbrev unwrap : Result String (List ℕ) → List ℕ
unwrap (failed why) = []
unwrap (done bytes) = bytes

toy_decrypts :
    (k : ℕ) (text out : List ℕ) → ok (shift k text) ≡ ok out → ok (unshift k out) ≡ ok text
toy_decrypts k text out e =
    ap (λ o. ok (unshift k o)) (sym (ap unwrap e)) ∙ ap ok (unshift-shift k text)

pub toy-IsSound : IsSound toy
toy-IsSound = record {
  diffie_hellman-comm = λ a b. ground arith;
  length-x25519_public = λ a. refl;
  hkdf-done = λ key label n h. (repeat n (total key), refl, length-repeat n (total key));
  encrypt-done = λ key nonce text h. (shift (total key) text, refl);
  decrypt-encrypt = λ key nonce text out e. toy_decrypts (total key) text out e;
}

abbrev person : ℕ → Manager
person k = record {
  identity = record {
    identity_private = k ∷ repeat 31 0;
    identity_public = (k + 0) ∷ repeat 31 0;
    registration_id = 1;
    trusted = [];
  };
  prekey_store = record { prekeys = []; signed_prekeys = [] };
  session_store = record { sessions = [] };
}

person-IsIdentity : (k : ℕ) → IsIdentity toy (person k)
person-IsIdentity k = record { long = omega arith; pair = refl }

abbrev secret : ℕ → List ℕ
secret k = k ∷ repeat 31 0

handshake-Agreed_example :
    Agreed toy toy-IsSound
      (person 2)
      (person 3)
      (person-IsIdentity 2)
      (person-IsIdentity 3)
      (secret 5)
      (secret 7)
      (secret 11)
      refl
      refl
      "alice"
      "bob"
      true
handshake-Agreed_example =
    handshake-Agreed toy toy-IsSound (person 2) (person 3) (person-IsIdentity 2)
      (person-IsIdentity 3) (secret 5) (secret 7) (secret 11) refl refl "alice" "bob" true

abbrev ratchet : ℕ → ℕ → RatchetState
ratchet out into = record {
  root_key = repeat 32 9;
  sending_chain_key = repeat 32 out;
  receiving_chain_key = repeat 32 into;
  our_ratchet_secret = repeat 32 4;
  their_ratchet_public = repeat 32 6;
  send_counter = 0;
  recv_counter = 0;
}

ratchet-IsWellFormed : (out into : ℕ) → IsWellFormed (ratchet out into)
ratchet-IsWellFormed out into = record {
  root = refl;
  sending = refl;
  receiving = refl;
  ours = omega arith;
  theirs = omega arith;
  sent = omega arith;
  received = omega arith;
}

deserialize_ratchet-serialize_ratchet_example :
    (bytes : List ℕ) × (serialize_ratchet (ratchet 1 2) (person 2) ≡ (person 2, done bytes))
    × (deserialize_ratchet bytes ≡ done (ratchet 1 2))
deserialize_ratchet-serialize_ratchet_example =
    deserialize_ratchet-serialize_ratchet (ratchet 1 2) (ratchet-IsWellFormed 1 2) (person 2)

-- The two after their handshake.
after_handshake :
    Agreed toy toy-IsSound
      (person 2)
      (person 3)
      (person-IsIdentity 2)
      (person-IsIdentity 3)
      (secret 5)
      (secret 7)
      (secret 11)
      refl
      refl
      "alice"
      "bob"
      false
after_handshake =
    handshake-Agreed toy toy-IsSound (person 2) (person 3) (person-IsIdentity 2)
      (person-IsIdentity 3) (secret 5) (secret 7) (secret 11) refl refl "alice" "bob" false

abbrev talk : List (Bool × List ℕ)
talk = (true, 72 ∷ 105 ∷ []) ∷ (true, 63 ∷ []) ∷ (false, 89 ∷ 111 ∷ []) ∷ (true, []) ∷ []

converse-InSync_example :
    (converse toy "bob" "alice" talk (after_handshake.3, after_handshake.4)).1 ≡ done (texts talk)
converse-InSync_example =
    converse-InSync toy toy-IsSound "bob" "alice" talk after_handshake.3 after_handshake.4
      after_handshake.8
