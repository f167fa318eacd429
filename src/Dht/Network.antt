-- ===== src/Dht/Network.antt =====
-- The calls of Veilid's `RoutingContext` that crates/rekindle-protocol/src/dht makes, as an interface
-- over an unknown state, and the actions that are built of them.
pub mod Rules
pub mod Memory
use Prim.Native.String.{◌++◌ as append}
use rekindle.Base.{ℕ, ◌<◌, ◌≡◌, ◌≢◌, String, List, Option, none, some}
use rekindle.Base.Actions.{Act}
pub use rekindle.Base.Actions.{pure, throw, continue, ◌>>=◌, ◌>>◌, from}
pub use rekindle.Base.Results.{ProtocolError, Result, failed, done, map_err}

-- A record that was created: its key, and the secret half of its owner's keys where there is one.
pub record Descriptor (RecordKey KeyPair : Type 0) : Type 0 where
  pub key : RecordKey
  pub owner_secret : Option KeyPair

-- Texts stand for Veilid's errors. A subkey has no value until one is set.
pub record Network : Type 1 where
  pub State : Type 0
  pub RecordKey : Type 0
  pub KeyPair : Type 0
  pub to_string : RecordKey → String
  pub parse : String → Result String RecordKey
  pub dflt : ℕ → Result String (Unit {0})
  pub create_dht_record :
      ℕ → Option KeyPair → State → State × Result String (Descriptor RecordKey KeyPair)
  pub open_dht_record : RecordKey → Option KeyPair → State → State × Result String (Unit {0})
  pub close_dht_record : RecordKey → State → State × Result String (Unit {0})
  pub get_dht_value : RecordKey → ℕ → State → Result String (Option (List ℕ))
  pub set_dht_value : RecordKey → ℕ → List ℕ → State → State × Result String (Unit {0})

-- Nothing that can be read differs between two states.
abbrev pub Same : (N : Network) → N.State → N.State → Type 0
Same N s s' = (k : N.RecordKey) (i : ℕ) → N.get_dht_value k i s' ≡ N.get_dht_value k i s

-- What the code relies on, with one writer at a time (the code ignores the newer value by which Veilid
-- refuses a write of two writers; here such a write has no answer of its own): a value that was set is read back, nothing else changes by it, and a
-- write that fails changes nothing. To open a record changes no value.
pub record IsLawful (N : Network) : Type 0 where
  pub get-set :
      (k : N.RecordKey) (i : ℕ) (b : List ℕ) (s s' : N.State)
      → N.set_dht_value k i b s ≡ (s', done tt)
      → N.get_dht_value k i s' ≡ done (some b)
  pub get-set_subkey :
      (k : N.RecordKey) (i j : ℕ) (b : List ℕ) (s s' : N.State)
      → i ≢ j
      → N.set_dht_value k i b s ≡ (s', done tt)
      → N.get_dht_value k j s' ≡ N.get_dht_value k j s
  pub get-set_key :
      (k l : N.RecordKey) (i j : ℕ) (b : List ℕ) (s s' : N.State)
      → k ≢ l
      → N.set_dht_value k i b s ≡ (s', done tt)
      → N.get_dht_value l j s' ≡ N.get_dht_value l j s
  pub get-set_failed :
      (k : N.RecordKey) (i : ℕ) (b : List ℕ) (s s' : N.State) (why : String)
      → N.set_dht_value k i b s ≡ (s', failed why)
      → Same N s s'
  pub get-open :
      (k : N.RecordKey) (writer : Option N.KeyPair) (s : N.State)
      → Same N s (N.open_dht_record k writer s).0

-- A record that is created has a key at which nothing was stored, its creation changes no other
-- value, and a key is read back from its text.
pub record Allocates (N : Network) : Type 0 where
  pub fresh :
      (n : ℕ) (owner : Option N.KeyPair) (s s' : N.State) (d : Descriptor N.RecordKey N.KeyPair)
      (k : N.RecordKey) (i : ℕ) (b : List ℕ)
      → N.create_dht_record n owner s ≡ (s', done d)
      → N.get_dht_value k i s ≡ done (some b)
      → k ≢ d.key
  pub get-create :
      (n : ℕ) (owner : Option N.KeyPair) (s s' : N.State) (d : Descriptor N.RecordKey N.KeyPair)
      (k : N.RecordKey) (i : ℕ)
      → N.create_dht_record n owner s ≡ (s', done d)
      → k ≢ d.key
      → N.get_dht_value k i s' ≡ N.get_dht_value k i s
  pub get-create_failed :
      (n : ℕ) (owner : Option N.KeyPair) (s s' : N.State) (why : String)
      → N.create_dht_record n owner s ≡ (s', failed why)
      → Same N s s'
  pub parse-to_string : (k : N.RecordKey) → N.parse (N.to_string k) ≡ done k

abbrev pub Action : Type 0 → Type 0 → Type 0
Action S A = Act ProtocolError S A

-- The error of Veilid, with what was tried.
abbrev pub attempt : {S A : Type 0} → String → (S → S × Result String A) → Action S A
attempt what call s =
    let r = call s in (r.0, map_err (λ why. ProtocolError.dht_error (append what why)) r.1)

module _ (N : Network) where
  abbrev pub read : String → N.RecordKey → ℕ → Action N.State (Option (List ℕ))
  read what k i s =
      from (map_err (λ why. ProtocolError.dht_error (append what why)) (N.get_dht_value k i s)) s

  abbrev pub write : String → N.RecordKey → ℕ → List ℕ → Action N.State (Unit {0})
  write what k i b = attempt what (N.set_dht_value k i b)
