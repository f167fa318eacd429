-- ===== src/Desktop/Keys/Reading.antt =====
-- A message to a channel, from the server's key to the reader.
use rekindle.Base.{
  ℕ, String, true, false, List, ◌++◌, ◌==◌, length, some, get, ◌≡◌, refl, ap, ◌∙◌, arith,
  Bool-cases, ==_iff, inl, inr,
}
use rekindle.Base.Results.{done}
use rekindle.Base.Bytes.{le_bytes}
use rekindle.Signal.{Primitives, IsSound}
use rekindle.Server.State.{HostedCommunity, MediaEncryptionKey}
use rekindle.Server.Store.{Database}
use rekindle.Server.Core.{Server, checks}
use rekindle.Server.Guards.{belongs, verify_membership}
use rekindle.Server.Effects.{mek_payload}
use rekindle.Server.Keys.{handle_request_mek}
use rekindle.Server.Protocol.{mek}
use rekindle.Desktop.Keys.{
  find_community, with_generation, encrypt, Client, Setting, Membership, BroadcastNewMessage,
  decrypted, need_refresh, fetch_mek_from_server, handle_broadcast_mek_rotated, sealed, is_own,
  show, decrypt_with_cached_mek, handle_broadcast_new_message,
}
use rekindle.Desktop.Keys.Cached.{
  encrypt-done, decrypt-encrypt, fetch_mek_from_server-cached, fetch_mek_from_server-found,
}

module _ {D : Database} (cid : String) (c : HostedCommunity) (server : Server D) where
  -- The server answers a member with its key.
  answered_with_key :
      (who : String)
      → get cid server.hosted ≡ some c
      → belongs c who ≡ true
      → (handle_request_mek cid who server).1 ≡ mek (mek_payload c) c.mek.generation
  unfolding handle_request_mek verify_membership checks
  answered_with_key who hosted member = rw (hosted, member)

  -- A member of the community, whose client knows it and gets the server's answers.
  pub record IsClientOf (who : String) (W : Setting) (s : Client) (m : Membership) : Type 0 where
    pub member : belongs c who ≡ true
    pub reply : W.reply ≡ some (handle_request_mek cid who server).1
    pub known : get cid s.communities ≡ some m

-- What the server tells the other members of a message.
abbrev pub posted : String → MediaEncryptionKey → String → String → List ℕ → ℕ → BroadcastNewMessage
posted cid k channel sender ciphertext timestamp = record {
  community_id = cid;
  channel_id = channel;
  sender_pseudonym = sender;
  ciphertext = ciphertext;
  mek_generation = k.generation;
  timestamp = timestamp;
}

module _ (C : Primitives) (sound : IsSound C) (reader : Setting) (cid : String)
    (k : MediaEncryptionKey) (nonce text out : List ℕ) (body : String) (twelve : length nonce ≡ 12)
    (made : encrypt C nonce k text ≡ done out) (readable : reader.from_utf8 text ≡ some body) where
  reads :
      (cache : List (String × MediaEncryptionKey))
      → get cid cache ≡ some k
      → decrypt_with_cached_mek C reader cache cid out k.generation ≡ decrypted body
  unfolding decrypt_with_cached_mek
  reads cache cached =
      let same : (k.generation == k.generation) ≡ true = ground arith in
      rw (cached, same, decrypt-encrypt C sound nonce k text out twelve made, readable) refl

  refreshes :
      (cache : List (String × MediaEncryptionKey)) (old : MediaEncryptionKey)
      → get cid cache ≡ some old
      → (old.generation == k.generation) ≡ false
      → decrypt_with_cached_mek C reader cache cid out k.generation ≡ need_refresh
  unfolding decrypt_with_cached_mek
  refreshes cache old cached other = rw (cached, other) refl

  module _ (channel sender : String) (at_ : ℕ) where
    abbrev message : BroadcastNewMessage
    message = posted cid k channel sender out at_

    shows :
        (s : Client) (m : Membership) (old : MediaEncryptionKey)
        → get cid s.communities ≡ some m
        → is_own C reader (some m) sender ≡ false
        → get cid s.mek_cache ≡ some old
        → (old.generation ≡ k.generation → old ≡ k)
        → get cid (fetch_mek_from_server reader cid s).mek_cache ≡ some k
        → (before : Client) × (handle_broadcast_new_message C reader message s
            ≡ show C reader message body before)
    unfolding handle_broadcast_new_message
    shows s m old known foreign cached agrees fresh =
        elim (Bool-cases (old.generation == k.generation)) [
          | inl e ↦
              let current = cached ∙ ap some (agrees ((==_iff old.generation k.generation).0 e)) in
              (s, rw (known, foreign, reads s.mek_cache current) refl)
          | inr e ↦ (
            fetch_mek_from_server reader cid s,
            rw
                (
                  known,
                  foreign,
                  refreshes s.mek_cache old cached e,
                  reads (fetch_mek_from_server reader cid s).mek_cache fresh,
                )
                refl,
          )
        ]

module _ {D : Database} (C : Primitives) (sound : IsSound C) (cid : String) (c : HostedCommunity)
    (server : Server D) (hosted : get cid server.hosted ≡ some c)
    (long : length c.mek.key ≡ 32) where
  replied :
      (who : String) (W : Setting) (s : Client) (m : Membership)
      → IsClientOf cid c server who W s m
      → W.reply ≡ some (mek (le_bytes 8 c.mek.generation ++ c.mek.key) c.mek.generation)
  unfolding mek_payload
  replied who W s m is = is.reply ∙ ap some (answered_with_key cid c server who hosted is.member)

  seals :
      (W : Setting) (s : Client) (nonce out : List ℕ) (body channel : String) (m : Membership)
      → get cid s.mek_cache ≡ some c.mek
      → find_community channel s.communities ≡ some (cid, m)
      → encrypt C nonce c.mek (W.as_bytes body) ≡ done out
      → sealed C W nonce channel body s ≡ done (out, m.mek_generation)
  unfolding sealed
  seals W s nonce out body channel m cached found made = rw (sealed, found, cached, made) refl

  -- A member is told that the key was changed, fetches it from the server, and encrypts a text for a
  -- channel with it: another member, under another pseudonym, reads that text. Their client stores
  -- and shows it, whether it holds the server's key already or one of another generation, in place
  -- of which it fetches the server's. The cipher decrypts what it encrypted, keys have 32 bytes and
  -- nonces 12, the text is read back from its bytes, both clients know the community and get the
  -- server's answer, the author's finds it by the channel, and if the reader's key has the generation
  -- of the server's, it is the server's.
  pub message_read :
      (author reader : Setting) (alice bob : String) (sender receiver : Client) (m n : Membership)
      → IsClientOf cid c server alice author sender m
      → (channel : String) → find_community channel sender.communities ≡ some (cid, m)
      → IsClientOf cid c server bob reader receiver n
      → is_own C reader (some n) alice ≡ false
      → (old : MediaEncryptionKey) → get cid receiver.mek_cache ≡ some old
      → (old.generation ≡ c.mek.generation → old ≡ c.mek)
      → (nonce : List ℕ) → length nonce ≡ 12
      → (body : String) → reader.from_utf8 (author.as_bytes body) ≡ some body
      → (at_ : ℕ)
      → (out : List ℕ) × (sealed C author nonce channel body
            (handle_broadcast_mek_rotated author cid c.mek.generation sender)
          ≡ done (out, c.mek.generation))
        × ((before : Client) × (handle_broadcast_new_message C reader
                (posted cid c.mek channel alice out at_)
                receiver
              ≡ show C reader (posted cid c.mek channel alice out at_) body before))
  unfolding handle_broadcast_mek_rotated
  message_read author reader alice bob sender receiver m n from channel found is foreign old cached
        agrees nonce twelve body readable at_ =
      let answer = replied alice author sender m from in
      let (out, made) = encrypt-done C sound nonce c.mek (author.as_bytes body) long in
      (
        out,
        seals author (handle_broadcast_mek_rotated author cid c.mek.generation sender) nonce out
            body channel (with_generation c.mek.generation m)
            (fetch_mek_from_server-cached author cid c.mek sender answer long)
            (fetch_mek_from_server-found author cid c.mek sender m channel answer long from.known
              found)
            made,
        shows C sound reader cid c.mek nonce (author.as_bytes body) out body twelve made readable
            channel alice at_ receiver n old is.known foreign cached agrees
            (fetch_mek_from_server-cached reader cid c.mek receiver
              (replied bob reader receiver n is) long),
      )
