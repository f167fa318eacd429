-- ===== src/Signal/Stores.antt =====
-- The stores in memory: crates/rekindle-crypto/src/signal/memory_stores.rs, the only ones outside the
-- tests. A map with text keys is an association list; one with u32 keys is an ascending list.
use rekindle.Base.{ℕ, Bool, true, false, String, List, Option, none, some, get, put, erase}
use rekindle.Base.Ordered.{insert, lookup, delete}
use rekindle.Base.Actions.{Act, pure}
use rekindle.Signal.{Failure}

pub record MemoryIdentityStore : Type 0 where
  pub identity_private : List ℕ
  pub identity_public : List ℕ
  pub registration_id : ℕ
  pub trusted : List (String × List ℕ)

pub record MemoryPreKeyStore : Type 0 where
  pub prekeys : List (ℕ × List ℕ)
  pub signed_prekeys : List (ℕ × List ℕ)

pub record MemorySessionStore : Type 0 where
  pub sessions : List (String × List ℕ)

-- `SignalSessionManager`, with what its stores hold.
pub record Manager : Type 0 where
  pub identity : MemoryIdentityStore
  pub prekey_store : MemoryPreKeyStore
  pub session_store : MemorySessionStore

abbrev pub Step : Type 0 → Type 0
Step A = Act Failure Manager A

abbrev pub save_identity : String → List ℕ → Step (Unit {0})
save_identity address key m =
    pure tt
      (record m { identity = record (m.identity) { trusted = put address key m.identity.trusted } })

abbrev pub load_prekey : ℕ → Step (Option (List ℕ))
load_prekey id m = pure (lookup id m.prekey_store.prekeys) m

abbrev pub store_prekey : ℕ → List ℕ → Step (Unit {0})
store_prekey id key m = pure tt (record m {
  prekey_store = record (m.prekey_store) { prekeys = insert id key m.prekey_store.prekeys };
})

abbrev pub remove_prekey : ℕ → Step (Unit {0})
remove_prekey id m = pure tt (record m {
  prekey_store = record (m.prekey_store) { prekeys = delete id m.prekey_store.prekeys };
})

abbrev pub load_signed_prekey : ℕ → Step (Option (List ℕ))
load_signed_prekey id m = pure (lookup id m.prekey_store.signed_prekeys) m

abbrev pub store_signed_prekey : ℕ → List ℕ → Step (Unit {0})
store_signed_prekey id key m = pure tt (record m {
  prekey_store = record (m.prekey_store) {
    signed_prekeys = insert id key m.prekey_store.signed_prekeys;
  };
})

abbrev pub load_session : String → Step (Option (List ℕ))
load_session address m = pure (get address m.session_store.sessions) m

abbrev pub store_session : String → List ℕ → Step (Unit {0})
store_session address session_data m = pure tt (record m {
  session_store = record { sessions = put address session_data m.session_store.sessions };
})

abbrev is_some : Option (List ℕ) → Bool
is_some none = false
is_some (some b) = true

abbrev pub has_session : String → Step Bool
has_session address m = pure (is_some (get address m.session_store.sessions)) m

abbrev pub delete_session : String → Step (Unit {0})
delete_session address m =
    pure tt
      (record m { session_store = record { sessions = erase address m.session_store.sessions } })
