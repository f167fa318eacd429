-- ===== src/Messaging/Envelope/Signing.antt =====
-- Building an envelope and taking it in (crates/rekindle-protocol/src/messaging).
use rekindle.Base.{
  ℕ, ◌==◌, Bool, true, false, List, Option, none, some, ◌≡◌, String, refl, sym, ap, ◌∙◌, ==_iff,
  length, Bool-cases, inl, inr, arith,
}
use rekindle.Messaging.Envelope.{
  Signatures, IsSound, MessageEnvelope, ProtocolError, Result, failed, done, signed_data,
  data_to_sign, verify_envelope, check_signature, process_incoming, build_envelope, verified,
  accepted,
}

abbrev the_failure : (A : Type 0) → ProtocolError → Result ProtocolError A
the_failure A why = failed why

absurd_error :
    {A : Type 0} {P : Type 0} {a : A} (why : ProtocolError) → (the_failure A why) ≡ done a → P
absurd_error why h = ground arith

module _ (S : Signatures) (e : MessageEnvelope) where
  accepted-done :
      (e' : MessageEnvelope) (o : Result ProtocolError Bool)
      → accepted e' o ≡ done e
      → (e' ≡ e) × (o ≡ done true)
  accepted-done e' (failed why) h = ground arith
  accepted-done e' (done true) h = (ground arith, refl)
  accepted-done e' (done false) h = ground arith

  checked-true :
      (o : Option String)
      → check_signature S e o ≡ done true
      → S.verify e.sender_key (signed_data e.timestamp e.nonce e.payload) e.signature ≡ true
  unfolding check_signature
  checked-true none h = ground arith
  checked-true (some what) h = ground arith

  verified-true :
      verify_envelope S e ≡ done true
      → (S.verify e.sender_key (signed_data e.timestamp e.nonce e.payload) e.signature ≡ true)
        × (length e.sender_key ≡ 32)
  unfolding verify_envelope
  verified-true h = elim (Bool-cases (length e.sender_key == 32)) [
    | inl b ↦ (checked-true (S.key_error e.sender_key) (rw b at h), (==_iff _ 32).0 b)
    | inr b ↦ absurd_error _ (rw b at h)
  ]

module _ (S : Signatures) where
  -- An envelope that was built and signed is taken in as it is, if its bytes decode to it.
  pub process_incoming-build_envelope :
      (secret nonce payload raw : List ℕ) (timestamp : ℕ)
      → IsSound S
      → S.decode_envelope raw ≡ done (build_envelope S secret timestamp nonce payload)
      → process_incoming S raw ≡ done (build_envelope S secret timestamp nonce payload)
  unfolding process_incoming verify_envelope check_signature build_envelope
  process_incoming-build_envelope secret nonce payload raw timestamp sound e = rw (
    e,
    sound.length-public_of secret,
    sound.key-public_of secret,
    sound.length-sign secret (data_to_sign timestamp nonce payload),
    sound.verify-sign secret (data_to_sign timestamp nonce payload),
  )

  -- What the taken-in envelope has: Ed25519 accepts its signature over its own timestamp, nonce and
  -- payload, under the key that it names, which has 32 bytes.
  pub process_incoming-signed :
      (raw : List ℕ) (e : MessageEnvelope)
      → process_incoming S raw ≡ done e
      → (S.decode_envelope raw ≡ done e)
        × (S.verify e.sender_key (signed_data e.timestamp e.nonce e.payload) e.signature ≡ true)
        × (length e.sender_key ≡ 32)
  unfolding process_incoming
  process_incoming-signed raw e h = decoded (S.decode_envelope raw) h
    where
      decoded :
          (o : Result ProtocolError MessageEnvelope)
          → verified S o ≡ done e
          → (o ≡ done e)
            × (S.verify e.sender_key (signed_data e.timestamp e.nonce e.payload) e.signature ≡ true)
            × (length e.sender_key ≡ 32)
      decoded (failed why) k = absurd_error why k
      decoded (done e') k =
          let (same, valid) = accepted-done S e e' (verify_envelope S e') k in
          let (signed, long) = verified-true S e (ap (verify_envelope S) (sym same) ∙ valid) in
          (ap done same, signed, long)
