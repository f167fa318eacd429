-- ===== src/Server/Keys.antt =====
-- The community's media key: `rotate_mek` of crates/rekindle-server/src/mek.rs, `handle_request_mek`
-- and `handle_rotate_mek` of rpc.rs.
use rekindle.Base.{ℕ, ◌+◌, ◌-◌, ◌%◌, ◌^◌, min, String, get}
use rekindle.Permissions.{manage_community}
use rekindle.Server.State.{HostedCommunity, MediaEncryptionKey}
use rekindle.Server.Protocol.{CommunityResponse, mek, mek_rotated}
use rekindle.Server.Store.{Database, Statement, insert_mek}
use rekindle.Server.Core.{
  Env, Server, Handled, pass, found, ◌>>=◌, ◌>>◌, settle, change, store, timestamp_now,
}
use rekindle.Server.Guards.{check_permission, verify_membership}
use rekindle.Server.Effects.{mek_payload, broadcast_to_members, publish_mek_bundle}

-- `u64` addition; it wraps.
abbrev pub next_generation : HostedCommunity → ℕ
next_generation c = (c.mek.generation + 1) % 2 ^ 64

abbrev pub fresh_key : Env → ℕ → MediaEncryptionKey
fresh_key env generation = record { key = env.random_key; generation = generation }

-- The generation as an `i64`.
abbrev pub insert_key : Env → String → ℕ → Statement
insert_key env cid generation =
    insert_mek cid (min generation (2 ^ 63 - 1)) env.random_key (timestamp_now env)

abbrev pub with_key : Env → HostedCommunity → HostedCommunity
with_key env c = record c { mek = fresh_key env (next_generation c) }

module _ {D : Database} where
  -- The new key replaces the old one whether or not its statement succeeds.
  unfoldable pub rotate_mek : Env → String → HostedCommunity → Server D → Server D
  rotate_mek env cid c s =
      store (insert_key env cid (next_generation c)) (change cid (with_key env) s)

  unfoldable pub handle_request_mek : String → String → Server D → Handled D
  handle_request_mek cid sender s = settle s do
    c ← found (get cid s.hosted) 404 "community not found"
    verify_membership c sender
    pass (s, mek (mek_payload c) c.mek.generation)

  unfoldable pub handle_rotate_mek : Env → String → String → Server D → Handled D
  unfolding rotate_mek
  handle_rotate_mek env cid sender s = settle s do
    c ← found (get cid s.hosted) 404 "community not found"
    verify_membership c sender
    check_permission env c sender manage_community
    pass (
      broadcast_to_members cid "" (mek_rotated cid (next_generation c))
          (publish_mek_bundle cid (rotate_mek env cid c s)),
      CommunityResponse.ok,
    )
