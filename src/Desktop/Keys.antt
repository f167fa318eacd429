-- ===== src/Desktop/Keys.antt =====
-- The media keys of a member: encrypt and decrypt of crates/rekindle-crypto/src/group/media_key.rs, and
-- the cache of keys in src-tauri/src/services/veilid_service.rs, from the server's answer to RequestMEK
-- on, with the reading of a channel message. The cipher is a parameter. What is written or shown is kept
-- in the order of the code.
mod Cached
mod Reading
mod Tests
use rekindle.Base.{
  ℕ, ◌^◌, ◌-◌, ◌==◌, ltb, leb, if◌then◌else◌, min, String, str_eq, Bool, false, List, [], ◌∷◌, ◌++◌,
  length, any, Option, none, some, get, put, modify,
}
use rekindle.Base.Bytes.{take, drop}
use rekindle.Base.Results
use rekindle.Base.Results.{Result, done, map_err}
use rekindle.Signal.{Primitives, CryptoError, encryption_error, decryption_error}
use rekindle.Server.State.{MediaEncryptionKey}
use rekindle.Server.Protocol.{CommunityResponse, mek}

-- The nonce stands before the ciphertext.
abbrev pub with_nonce : List ℕ → Result CryptoError (List ℕ) → Result CryptoError (List ℕ)
with_nonce nonce (Results.failed why) = Results.failed why
with_nonce nonce (done ciphertext) = done (nonce ++ ciphertext)

-- Of `CommunityState`, what is used here.
pub record Membership : Type 0 where
  pub channels : List String
  pub my_pseudonym_key : Option String
  pub mek_generation : ℕ

pub record BroadcastNewMessage : Type 0 where
  pub community_id : String
  pub channel_id : String
  pub sender_pseudonym : String
  pub ciphertext : List ℕ
  pub mek_generation : ℕ
  pub timestamp : ℕ

pub data MekDecryptResult : Type 0 where
  decrypted : String → MekDecryptResult
  need_refresh unreadable : MekDecryptResult

-- A write to Stronghold or the database, or an event for the frontend.
pub data Outcome : Type 0 where
  store_key : String → List ℕ → Outcome
  save : Outcome
  update_mek_generation : ℕ → String → String → Outcome
  insert_message : String → BroadcastNewMessage → String → Outcome
  message_received : BroadcastNewMessage → String → Outcome
  key_rotated : String → ℕ → Outcome

pub record Client : Type 0 where
  pub communities : List (String × Membership)
  pub mek_cache : List (String × MediaEncryptionKey)
  pub outcomes : List Outcome

-- What the client meets: its own key, whether Stronghold is open and takes a key, the name of a key
-- there, the server's answer to RequestMEK, none where none comes that can be read, and texts as bytes.
pub record Setting : Type 0 where
  pub owner_key : String
  pub has_keystore : Bool
  pub stores_key : Bool
  pub mek_key_name : String → String
  pub reply : Option CommunityResponse
  pub as_bytes : String → List ℕ
  pub from_utf8 : List ℕ → Option String

module _ (C : Primitives) where
  unfoldable pub encrypt : List ℕ → MediaEncryptionKey → List ℕ → Result CryptoError (List ℕ)
  encrypt nonce k plaintext =
      with_nonce nonce (map_err encryption_error (C.encrypt k.key nonce plaintext))

  unfoldable pub decrypt : MediaEncryptionKey → List ℕ → Result CryptoError (List ℕ)
  decrypt k data_ =
      if ltb (length data_) 12
      then Results.failed (decryption_error "data too short")
      else map_err decryption_error (C.decrypt k.key (take 12 data_) (drop 12 data_))

-- `String::from_utf8(plaintext).unwrap_or_default()`
abbrev pub text_or_default : Option String → String
text_or_default none = ""
text_or_default (some text) = text

-- Bytes 8 to 40 of the answer.
abbrev pub received_key : List ℕ → ℕ → Option MediaEncryptionKey
received_key bytes generation =
    if leb 40 (length bytes)
    then some (record { key = take 32 (drop 8 bytes); generation = generation })
    else none

abbrev pub with_generation : ℕ → Membership → Membership
with_generation generation m = record m { mek_generation = generation }

module _ (W : Setting) where
  abbrev pub happens : Outcome → Client → Client
  happens o s = record s { outcomes = s.outcomes ++ (o ∷ []) }

  abbrev pub keep_key : String → List ℕ → Client → Client
  keep_key cid bytes s =
      let named = happens (store_key (W.mek_key_name cid) bytes) s in
      let saved = if W.stores_key then happens save named else named in
      if W.has_keystore then saved else s

  -- The generation as an `i64`.
  unfoldable pub persist_mek : String → ℕ → List ℕ → Client → Client
  persist_mek cid generation bytes s =
      happens (update_mek_generation (min generation (2 ^ 63 - 1)) W.owner_key cid) (
        keep_key cid bytes
          (record s { communities = modify cid (with_generation generation) s.communities }))

  abbrev pub take_key : String → List ℕ → ℕ → Option MediaEncryptionKey → Client → Client
  take_key cid bytes generation none s = s
  take_key cid bytes generation (some k) s =
      persist_mek cid generation bytes (record s { mek_cache = put cid k s.mek_cache })

  abbrev pub take_reply : String → Option CommunityResponse → Client → Client
  take_reply cid (some (mek bytes generation)) s =
      take_key cid bytes generation (received_key bytes generation) s
  take_reply cid reply s = s

  unfoldable pub fetch_mek_from_server : String → Client → Client
  fetch_mek_from_server cid s = take_reply cid W.reply s

  unfoldable pub handle_broadcast_mek_rotated : String → ℕ → Client → Client
  handle_broadcast_mek_rotated cid new_generation s =
      happens (key_rotated cid new_generation) (fetch_mek_from_server cid s)

abbrev pub has_channel : String → Membership → Bool
has_channel channel m = any (λ (id : String). str_eq id channel) m.channels

-- `communities.values().find`, in the order of the list; a community is kept under its id.
abbrev pub find_community : String → List (String × Membership) → Option (String × Membership)
find_community channel [] = none
find_community channel ((cid, m) ∷ rest) =
    if has_channel channel m then some (cid, m) else find_community channel rest

module _ (C : Primitives) (W : Setting) where
  abbrev pub decrypted_text : Result CryptoError (List ℕ) → MekDecryptResult
  decrypted_text (Results.failed why) = unreadable
  decrypted_text (done plaintext) = decrypted (text_or_default (W.from_utf8 plaintext))

  abbrev pub decrypt_with : Option MediaEncryptionKey → List ℕ → ℕ → MekDecryptResult
  decrypt_with none ciphertext generation = unreadable
  decrypt_with (some k) ciphertext generation =
      if k.generation == generation then decrypted_text (decrypt C k ciphertext) else need_refresh

  unfoldable pub decrypt_with_cached_mek :
      List (String × MediaEncryptionKey) → String → List ℕ → ℕ → MekDecryptResult
  decrypt_with_cached_mek cache cid ciphertext generation =
      decrypt_with (get cid cache) ciphertext generation

  abbrev pub is_own : Option Membership → String → Bool
  is_own none sender = false
  is_own (some m) sender = is_key m.my_pseudonym_key sender
    where
      is_key : Option String → String → Bool
      is_key none sender = false
      is_key (some key) sender = str_eq key sender

  -- The message is stored, whether or not that succeeds, and shown.
  abbrev pub show : BroadcastNewMessage → String → Client → Client
  show msg body s =
      happens W (message_received msg body) (happens W (insert_message W.owner_key msg body) s)

  abbrev pub second_attempt : BroadcastNewMessage → MekDecryptResult → Client → Client
  second_attempt msg (decrypted body) s = show msg body s
  second_attempt msg need_refresh s = s
  second_attempt msg unreadable s = s

  abbrev pub attempt_key : BroadcastNewMessage → Client → MekDecryptResult
  attempt_key msg s =
      decrypt_with_cached_mek s.mek_cache msg.community_id msg.ciphertext msg.mek_generation

  abbrev pub first_attempt : BroadcastNewMessage → MekDecryptResult → Client → Client
  first_attempt msg (decrypted body) s = show msg body s
  first_attempt msg unreadable s = s
  first_attempt msg need_refresh s =
      let fresh = fetch_mek_from_server W msg.community_id s in
      second_attempt msg (attempt_key msg fresh) fresh

  unfoldable pub handle_broadcast_new_message : BroadcastNewMessage → Client → Client
  handle_broadcast_new_message msg s =
      if is_own (get msg.community_id s.communities) msg.sender_pseudonym
      then s
      else first_attempt msg (attempt_key msg s) s

  abbrev pub with_key_generation : ℕ → Result CryptoError (List ℕ) → Result String (List ℕ × ℕ)
  with_key_generation generation (Results.failed why) = Results.failed "MEK encryption failed"
  with_key_generation generation (done ciphertext) = done (ciphertext, generation)

  abbrev pub sealed_by :
      List ℕ → String → Option MediaEncryptionKey → Membership → Result String (List ℕ × ℕ)
  sealed_by nonce body none m = Results.failed "MEK not available"
  sealed_by nonce body (some k) m =
      with_key_generation m.mek_generation (encrypt C nonce k (W.as_bytes body))

  abbrev pub sealed_in :
      List ℕ
      → String
      → List (String × MediaEncryptionKey)
      → Option (String × Membership)
      → Result String (List ℕ × ℕ)
  sealed_in nonce body cache none = Results.failed "channel not found in any community"
  sealed_in nonce body cache (some (cid, m)) = sealed_by nonce body (get cid cache) m

  -- The ciphertext that `send_channel_message` sends, and the generation that it sends with it.
  unfoldable pub sealed : List ℕ → String → String → Client → Result String (List ℕ × ℕ)
  sealed nonce channel body s =
      sealed_in nonce body s.mek_cache (find_community channel s.communities)
