-- ===== src/Server/Core.antt =====
-- The daemon's state, its surroundings and its effects: `ServerState` of
-- crates/rekindle-server/src/server_state.rs, the publishing functions of community_host.rs, and
-- `broadcast_to_members` of rpc.rs.
use rekindle.Base.{
  ℕ, ◌-◌, ◌^◌, min, Bool, true, false, String, List, ◌++◌, Option, none, some, modify,
}
use rekindle.Base.Int.{ℤ}
use rekindle.Server.State.{HostedCommunity}
use rekindle.Server.Protocol.{CommunityBroadcast, CommunityResponse}
use rekindle.Server.Store.{Database, Statement, attempt}

-- What one request finds outside: the clock in seconds, 32 and 8 random bytes (the latter printed
-- by `hex::encode`), and Veilid's reading of a keypair, its public key as text, empty if malformed.
pub record Env : Type 0 where
  pub now : ℕ
  pub random_key : List ℕ
  pub random_hex : String
  pub public_key : String → String

-- `timestamp_now`: seconds as an `i64`.
abbrev pub timestamp_now : Env → ℕ
timestamp_now env = min env.now (2 ^ 63 - 1)

pub record RosterEntry : Type 0 where
  pub pseudonym_key : String
  pub role_ids : List ℕ
  pub display_name : String
  pub joined_at : ℤ

pub record ChannelListing : Type 0 where
  pub id : String
  pub name : String
  pub channel_type : String
  pub sort_order : ℤ

-- What is written to the DHT, less the time of the write; `metadata` has the name, the description
-- and the owner's key.
pub data DhtValue : Type 0 where
  metadata : String → Option String → String → DhtValue
  channel_list : List ChannelListing → DhtValue
  member_roster : List RosterEntry → DhtValue
  mek_bundle : ℕ → DhtValue
  server_route : List ℕ → DhtValue

-- A write to a subkey of a DHT record, a message to a private route, or the release of a route of our
-- own, in the order of the code.
pub data Effect : Type 0 where
  publish : String → ℕ → DhtValue → Effect
  send : List ℕ → CommunityBroadcast → Effect
  release_route : ℕ → Effect

pub record Server (D : Database) : Type 0 where
  pub hosted : List (String × HostedCommunity)
  pub db : D.Db
  pub sent : List Effect

-- A guard passes with a value or refuses with the reply.
pub data Check {ℓ} (A : Type ℓ) : Type ℓ where
  pass : A → Check A
  refuse : CommunityResponse → Check A

infixl 5 ◌>>=◌ ◌>>◌
unfoldable pub ◌>>=◌ {ℓ κ} : {A : Type ℓ} {B : Type κ} → Check A → (A → Check B) → Check B
pass a >>= f = f a
refuse r >>= f = refuse r

abbrev pub ◌>>◌ {ℓ} : {B : Type ℓ} → Check (Unit {0}) → Check B → Check B
m >> k = m >>= λ _. k

unfoldable pub require : Bool → ℕ → String → Check (Unit {0})
require true code message = pass tt
require false code message = refuse (CommunityResponse.error code message)

unfoldable pub found {ℓ} : {A : Type ℓ} → Option A → ℕ → String → Check A
found none code message = refuse (CommunityResponse.error code message)
found (some a) code message = pass a

abbrev pub Handled : Database → Type 0
Handled D = Server D × CommunityResponse

module _ {D : Database} where
  -- A refused request leaves the server as it was.
  unfoldable pub settle : Server D → Check (Handled D) → Handled D
  settle s (pass r) = r
  settle s (refuse e) = (s, e)

  abbrev pub change : String → (HostedCommunity → HostedCommunity) → Server D → Server D
  change cid f s = record s { hosted = modify cid f s.hosted }

  abbrev pub store : Statement → Server D → Server D
  store st s = record s { db = attempt D st s.db }

  abbrev pub emit : List Effect → Server D → Server D
  emit es s = record s { sent = s.sent ++ es }

-- A line `unfolding checks` opens the guards at once.
unfoldable pub checks : Unit {0}
unfolding ◌>>=◌ require found settle
checks = tt
