-- ===== src/Signal/Session/Agreement.antt =====
-- The two handshakes agree: generate_prekey_bundle, establish_session and respond_to_session.
use rekindle.Base.{
  ℕ, ◌≤◌, Bool, true, false, String, List, [], ◌++◌, Option, none, some, length, ◌≡◌, refl, ap, ◌∙◌,
  arith, ==_iff,
}
use rekindle.Base.Bytes.{take, drop, length-take, length-drop}
use rekindle.Base.Ordered.{lookup, lookup-insert}
use rekindle.Base.Results.{done}
use rekindle.Signal.{Primitives, IsSound, array32}
use rekindle.Signal.Ratchet.{RatchetState}
use rekindle.Signal.Ratchet.Roundtrip.{IsWellFormed}
use rekindle.Signal.Stores.{
  remove_prekey, store_signed_prekey, Manager, save_identity, store_session,
}
use rekindle.Signal.Session.{
  PreKeyBundle, SessionInitInfo, generate_prekey_bundle, establish_session, respond_to_session,
  key_material, one_if, consume_prekey, fourth_secret, publish_prekey, keep_session,
  initiator_ratchet, responder_ratchet, root_of, first_chain, second_chain, first32,
}
use rekindle.Signal.Session.Channel.{HasSession, InSync, stored_session}

-- The identity is a key pair of X25519.
pub record IsIdentity (C : Primitives) (m : Manager) : Type 0 where
  pub long : 32 ≤ length m.identity.identity_private
  pub pair : m.identity.identity_public ≡ C.x25519_public (take 32 m.identity.identity_private)

-- Whether there is a one-time prekey: its id is 1.
abbrev pub one_id : Bool → Option ℕ
one_id true = some 1
one_id false = none

keep_session_lem :
    (C : Primitives) (peer : String) (key : List ℕ) (r : RatchetState) (m : Manager)
    → IsWellFormed r
    → (m' : Manager) × (keep_session C peer key r m ≡ (m', done tt)) × HasSession m' peer r
keep_session_lem C peer key r m w =
    let (bytes, written, session) = stored_session peer r m w in
    (
      (save_identity peer key (store_session peer bytes m).0).0,
      rw written refl,
      record {
        bytes = session.bytes;
        stored = session.stored;
        reads = session.reads;
        formed = session.formed;
      },
    )

array32_lem : (what : String) (key : List ℕ) → length key ≡ 32 → array32 what key ≡ done key
array32_lem what key e = rw ((==_iff (length key) 32).1 e) refl

first32_lem : (key : List ℕ) → 32 ≤ length key → first32 key ≡ done (take 32 key)
first32_lem key h = ground (arith, h)

module _ (C : Primitives) (sound : IsSound C) where
  key_material_lem :
      (ikm : List ℕ) → (okm : List ℕ) × (key_material C ikm ≡ done okm) × (length okm ≡ 96)
  key_material_lem ikm =
      let (okm, e, len) = sound.hkdf-done ikm "ReKindleX3DH" 96 (omega arith) in
      (okm, rw e refl, len)

  module _ (okm ours theirs : List ℕ) (len : length okm ≡ 96) (a : length ours ≡ 32)
      (b : length theirs ≡ 32) where
    root_32 : length (root_of okm) ≡ 32
    root_32 = length-take 32 okm (omega (arith, len))

    first_32 : length (first_chain okm) ≡ 32
    first_32 = length-take 32 (drop 32 okm) (omega (arith, len, length-drop 32 okm))

    second_32 : length (second_chain okm) ≡ 32
    second_32 = length-take 32 (drop 64 okm) (omega (arith, len, length-drop 64 okm))

    initiator-IsWellFormed : IsWellFormed (initiator_ratchet C okm ours theirs)
    initiator-IsWellFormed = record {
      root = root_32;
      sending = first_32;
      receiving = second_32;
      ours = omega (arith, a);
      theirs = omega (arith, b);
      sent = omega arith;
      received = omega arith;
    }

    responder-IsWellFormed : IsWellFormed (responder_ratchet C okm ours theirs)
    responder-IsWellFormed = record {
      root = root_32;
      sending = second_32;
      receiving = first_32;
      ours = omega (arith, a);
      theirs = omega (arith, b);
      sent = omega arith;
      received = omega arith;
    }

  module _ (alice bob : Manager) (ha : IsIdentity C alice) (hb : IsIdentity C bob)
      (ephemeral spk otpk : List ℕ) (spk_32 : length spk ≡ 32) (otpk_32 : length otpk ≡ 32)
      (of_alice of_bob : String) where
    -- What the initiator derives its keys from, and the responder.
    abbrev initiator_material : List ℕ → List ℕ
    initiator_material dh4 =
        C.diffie_hellman (take 32 alice.identity.identity_private) (C.x25519_public spk)
        ++ (C.diffie_hellman ephemeral bob.identity.identity_public
            ++ (C.diffie_hellman ephemeral (C.x25519_public spk) ++ dh4))

    abbrev responder_material : List ℕ → List ℕ
    responder_material dh4 =
        C.diffie_hellman spk alice.identity.identity_public
        ++ (C.diffie_hellman (take 32 bob.identity.identity_private) (C.x25519_public ephemeral)
            ++ (C.diffie_hellman spk (C.x25519_public ephemeral) ++ dh4))

    material_same :
        (dh4 dh4' : List ℕ) → dh4' ≡ dh4 → responder_material dh4' ≡ initiator_material dh4
    material_same dh4 dh4' e =
        rw
          (
            ha.pair,
            hb.pair,
            e,
            sound.diffie_hellman-comm spk (take 32 alice.identity.identity_private),
            sound.diffie_hellman-comm (take 32 bob.identity.identity_private) ephemeral,
            sound.diffie_hellman-comm spk ephemeral,
          )
          refl

    abbrev published : Bool → Option (List ℕ)
    published true = some (C.x25519_public otpk)
    published false = none

    abbrev fourth_a : Bool → List ℕ
    fourth_a true = C.diffie_hellman ephemeral (C.x25519_public otpk)
    fourth_a false = []

    abbrev fourth_b : Bool → List ℕ
    fourth_b true = C.diffie_hellman otpk (C.x25519_public ephemeral)
    fourth_b false = []

    fourth_same : (with_one : Bool) → fourth_b with_one ≡ fourth_a with_one
    fourth_same true = sound.diffie_hellman-comm otpk ephemeral
    fourth_same false = refl

    abbrev the_bundle : Bool → PreKeyBundle
    the_bundle with_one = record {
      identity_key = bob.identity.identity_public;
      signed_prekey = C.x25519_public spk;
      signed_prekey_signature =
          C.sign (take 32 bob.identity.identity_private) (C.x25519_public spk);
      one_time_prekey = published with_one;
      registration_id = bob.identity.registration_id;
    }

    abbrev with_prekeys : Bool → Manager
    with_prekeys with_one =
        (publish_prekey C otpk (one_id with_one) (store_signed_prekey 1 spk bob).0).0

    generate_lem :
        (with_one : Bool)
        → generate_prekey_bundle C spk otpk 1 (one_id with_one) bob
          ≡ (with_prekeys with_one, done (the_bundle with_one))
    unfolding generate_prekey_bundle
    generate_lem true = rw (first32_lem bob.identity.identity_private hb.long) refl
    generate_lem false = rw (first32_lem bob.identity.identity_private hb.long) refl

    identity_32 : length bob.identity.identity_public ≡ 32
    identity_32 = rw hb.pair (sound.length-x25519_public _)

    identity_a_32 : length alice.identity.identity_public ≡ 32
    identity_a_32 = rw ha.pair (sound.length-x25519_public _)

    fourth_a_lem :
        (with_one : Bool)
        → fourth_secret C ephemeral (published with_one) ≡ done (fourth_a with_one)
    fourth_a_lem true =
        rw ((==_iff (length (C.x25519_public otpk)) 32).1 (sound.length-x25519_public otpk)) refl
    fourth_a_lem false = refl

    one_if-published : (with_one : Bool) → one_if (published with_one) ≡ one_id with_one
    one_if-published true = refl
    one_if-published false = refl

    establish_lem :
        (with_one : Bool) (okm : List ℕ)
        → length okm ≡ 96
        → key_material C (initiator_material (fourth_a with_one)) ≡ done okm
        → (alice1 : Manager) × (establish_session C ephemeral of_bob (the_bundle with_one) alice ≡ (
          alice1,
          done (record {
            ephemeral_public_key = C.x25519_public ephemeral;
            signed_prekey_id = 1;
            one_time_prekey_id = one_id with_one;
          }),
        ))
          × HasSession alice1 of_bob
              (initiator_ratchet C okm (C.x25519_public ephemeral) (C.x25519_public spk))
    unfolding establish_session
    establish_lem with_one okm len mat =
        let r = initiator_ratchet C okm (C.x25519_public ephemeral) (C.x25519_public spk) in
        let (alice1, kept, has) = keep_session_lem C of_bob bob.identity.identity_public r alice (
          initiator-IsWellFormed okm _ _ len (sound.length-x25519_public ephemeral)
            (sound.length-x25519_public spk)) in
        (
          alice1,
          rw
              (
                first32_lem alice.identity.identity_private ha.long,
                array32_lem "signed prekey wrong length" (C.x25519_public spk)
                    (sound.length-x25519_public spk),
                array32_lem "identity key wrong length" bob.identity.identity_public identity_32,
                fourth_a_lem with_one,
                mat,
                kept,
                one_if-published with_one,
              )
              refl,
          has,
        )

    -- The responder's stores.
    identity-with_prekeys : (with_one : Bool) → (with_prekeys with_one).identity ≡ bob.identity
    identity-with_prekeys true = refl
    identity-with_prekeys false = refl

    lookup-with_prekeys :
        (with_one : Bool) → lookup 1 (with_prekeys with_one).prekey_store.signed_prekeys ≡ some spk
    lookup-with_prekeys true = lookup-insert 1 spk bob.prekey_store.signed_prekeys
    lookup-with_prekeys false = lookup-insert 1 spk bob.prekey_store.signed_prekeys

    consume_lem :
        (with_one : Bool)
        → (m : Manager) × (consume_prekey C
              (C.x25519_public ephemeral)
              (one_id with_one)
              (with_prekeys with_one)
            ≡ (m, done (fourth_b with_one)))
    consume_lem true = (
      (remove_prekey 1 (with_prekeys true)).0,
      rw
          (
            lookup-insert 1 otpk bob.prekey_store.prekeys,
            array32_lem "one-time prekey wrong length" otpk otpk_32,
          )
          refl,
    )
    consume_lem false = (with_prekeys false, refl)

    respond_lem :
        (with_one : Bool) (okm : List ℕ)
        → length okm ≡ 96
        → key_material C (responder_material (fourth_b with_one)) ≡ done okm
        → (bob2 : Manager) × (respond_to_session C of_alice alice.identity.identity_public
              (C.x25519_public ephemeral)
              1
              (one_id with_one)
              (with_prekeys with_one)
            ≡ (bob2, done tt))
          × HasSession bob2 of_alice
              (responder_ratchet C okm (C.x25519_public spk) (C.x25519_public ephemeral))
    unfolding respond_to_session
    respond_lem with_one okm len mat =
        let (m, used) = consume_lem with_one in
        let r = responder_ratchet C okm (C.x25519_public spk) (C.x25519_public ephemeral) in
        let (bob2, kept, has) = keep_session_lem C of_alice alice.identity.identity_public r m (
          responder-IsWellFormed okm _ _ len (sound.length-x25519_public spk)
            (sound.length-x25519_public ephemeral)) in
        (
          bob2,
          rw
              (
                identity-with_prekeys with_one,
                first32_lem bob.identity.identity_private hb.long,
                lookup-with_prekeys with_one,
                array32_lem "signed prekey wrong length" spk spk_32,
                array32_lem "their identity key wrong length" alice.identity.identity_public
                    identity_a_32,
                array32_lem "their ephemeral key wrong length" (C.x25519_public ephemeral)
                    (sound.length-x25519_public ephemeral),
                used,
                mat,
                kept,
              )
              refl,
          has,
        )

    -- The handshake, as the two run it.
    abbrev pub Agreed : Bool → Type 0
    Agreed with_one =
        (bundle : PreKeyBundle) × (bob1 : Manager) × (info : SessionInitInfo) × (alice1 : Manager)
        × (bob2 : Manager) × (generate_prekey_bundle C spk otpk 1 (one_id with_one) bob
            ≡ (bob1, done bundle))
        × (establish_session C ephemeral of_bob bundle alice ≡ (alice1, done info))
        × (respond_to_session C of_alice alice.identity.identity_public info.ephemeral_public_key
              info.signed_prekey_id info.one_time_prekey_id bob1
            ≡ (bob2, done tt))
        × InSync alice1 of_bob bob2 of_alice

    -- A bundle that one side publishes, with a one-time prekey or without, is enough for a session: the
    -- initiator establishes one from it, the responder answers with what the initiator sends along,
    -- neither fails, and what one side's next messages are encrypted with the other's are decrypted
    -- with. The identities are key pairs of X25519, the prekeys have 32 bytes, and their ids are 1.
    pub handshake-Agreed : (with_one : Bool) → Agreed with_one
    handshake-Agreed with_one =
        let (okm, mat, len) = key_material_lem (initiator_material (fourth_a with_one)) in
        let (alice1, est, has_left) = establish_lem with_one okm len mat in
        let (bob2, res, has_right) = respond_lem with_one okm len (
          ap (key_material C)
            (material_same (fourth_a with_one) (fourth_b with_one) (fourth_same with_one))
          ∙ mat) in
        (
          the_bundle with_one,
          with_prekeys with_one,
          _,
          alice1,
          bob2,
          generate_lem with_one,
          est,
          res,
          record {
            left = _;
            right = _;
            has_left = has_left;
            has_right = has_right;
            forth = refl;
            back = refl;
          },
        )
