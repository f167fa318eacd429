-- ===== src/Server/Security/Records/Channels.antt =====
-- Requests about channels and keys leave a ban on record (crates/rekindle-server/src/rpc.rs).
use rekindle.Base.{ℕ, String, refl, Option-cases, inl, inr}
use rekindle.Server.State.{HostedCommunity, ServerChannel}
use rekindle.Server.Protocol.{CommunityResponse}
use rekindle.Server.Store.{Database, insert_channel}
use rekindle.Server.Store.Laws.{IsLawful}
use rekindle.Server.Core.{Env, Server, Handled}
use rekindle.Server.Effects.Frame.{broadcast_to_members-Same, publish_mek_bundle-Same}
use rekindle.Server.Guards.Rules.{
  after_authorise, after_found, after_require, after_membership, after_permission, after_pass,
}
use rekindle.Server.Keys.{rotate_mek, handle_rotate_mek}
use rekindle.Server.Channels.{
  add_channel, handle_create_channel, handle_delete_channel, handle_rename_channel,
  handle_set_channel_overwrite, handle_delete_channel_overwrite,
}
use rekindle.Server.Security.Records.{Banned, kept, stored, executed}

module _ {D : Database} (lawful : IsLawful D) (bcid p : String) (env : Env) (cid sender : String)
    (s : Server D) (h : Banned lawful bcid p s.db) where
  abbrev Kept : Handled D → Type 0
  Kept r = Banned lawful bcid p r.0.db

  no : (r : CommunityResponse) → Kept (s, r)
  no r = h

  add_channel-Kept : (c : HostedCommunity) (ch : ServerChannel) → Kept (add_channel cid c ch s)
  unfolding add_channel
  add_channel-Kept c ch =
      elim (Option-cases (
        D.execute (insert_channel c.community_id ch.id ch.name ch.channel_type ch.sort_order)
          s.db)) [
            | inl e ↦ rw (e, add_channel) h
            | inr (db', e) ↦ rw (e, add_channel) (executed lawful bcid p _ s.db db' refl e h)
          ]

  pub handle_create_channel-Kept :
      (name type : String) → Kept (handle_create_channel env cid sender name type s)
  unfolding handle_create_channel
  handle_create_channel-Kept name type =
      after_authorise Kept s no env cid sender _ _ λ c e b q.
        after_require Kept s no _ _ _ _ λ t. after_pass Kept s no _ (add_channel-Kept c _)

  pub handle_delete_channel-Kept : (ch : String) → Kept (handle_delete_channel env cid sender ch s)
  unfolding handle_delete_channel
  handle_delete_channel-Kept ch =
      after_authorise Kept s no env cid sender _ _
        λ c e b q. after_pass Kept s no _ (stored lawful bcid p _ s.db refl h)

  pub handle_rename_channel-Kept :
      (ch name : String) → Kept (handle_rename_channel env cid sender ch name s)
  unfolding handle_rename_channel
  handle_rename_channel-Kept ch name = after_authorise Kept s no env cid sender _ _ λ c e b q.
      after_found Kept s no _ _ _ _
        λ x f. after_pass Kept s no _ (stored lawful bcid p _ s.db refl h)

  pub handle_rotate_mek-Kept : Kept (handle_rotate_mek env cid sender s)
  unfolding handle_rotate_mek rotate_mek
  handle_rotate_mek-Kept = after_found Kept s no _ _ _ _ λ c e.
      after_membership Kept s no c sender _ λ b. after_permission Kept s no env c sender _ _ λ q.
        after_pass Kept s no _ (
          kept lawful bcid p (broadcast_to_members-Same cid "" _ _).1 (
            kept lawful bcid p (publish_mek_bundle-Same cid _).1
              (stored lawful bcid p _ s.db refl h)))

  pub handle_set_channel_overwrite-Kept :
      (ch type target : String) (allow deny : ℕ)
      → Kept (handle_set_channel_overwrite env cid sender ch type target allow deny s)
  unfolding handle_set_channel_overwrite
  handle_set_channel_overwrite-Kept ch type target allow deny =
      after_authorise Kept s no env cid sender _ _ λ c e b q. after_found Kept s no _ _ _ _ λ x f.
        after_pass Kept s no _ (
          kept lawful bcid p (broadcast_to_members-Same cid "" _ _).1
            (stored lawful bcid p _ s.db refl h))

  pub handle_delete_channel_overwrite-Kept :
      (ch type target : String)
      → Kept (handle_delete_channel_overwrite env cid sender ch type target s)
  unfolding handle_delete_channel_overwrite
  handle_delete_channel_overwrite-Kept ch type target =
      after_authorise Kept s no env cid sender _ _
        λ c e b q. after_pass Kept s no _ (stored lawful bcid p _ s.db refl h)
