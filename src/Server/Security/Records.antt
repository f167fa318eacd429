-- ===== src/Server/Security/Records.antt =====
-- The row of a ban while a member leaves (crates/rekindle-server/src/rpc.rs).
pub mod Channels
pub mod Members
pub mod Joining
pub mod Requests
use rekindle.Base.{
  String, true, false, ◌≡◌, refl, sym, ap, ◌∙◌, get, none, some, Bool-cases, Option-cases, inl, inr,
}
use mathlib.Core.Path.{subst}
use rekindle.Permissions.{ban_members}
use rekindle.Server.State.{HostedCommunity}
use rekindle.Server.Protocol.{CommunityRequest, error}
use rekindle.Server.Store.{Database, Statement, attempt, replace_ban, delete_ban}
use rekindle.Server.Store.Laws.{IsLawful, lifts_ban}
use rekindle.Server.Core.{Env, Server, checks, store, timestamp_now}
use rekindle.Server.Effects.Frame.{
  publish_member_roster-Same, publish_mek_bundle-Same, broadcast_to_members-Same,
}
use rekindle.Server.Guards.{
  belongs, is_permitted, outranks, find_member, verify_membership, check_permission,
  check_hierarchy, or_else, by_route,
}
use rekindle.Server.Keys.{rotate_mek}
use rekindle.Server.Join.{handle_join, handle_admission, is_hosted, unknown_over_ipc}
use rekindle.Server.Departure.{
  handle_ban, handle_unban, handle_leave, depart, remove_member, announce_departure, announce_key,
  name_of,
}
use rekindle.Server.Dispatch.{handle, dispatch_request}

module _ {D : Database} (lawful : IsLawful D) (cid p : String) where
  pub attempt-banned :
      (st : Statement) (db : D.Db)
      → lifts_ban st cid p ≡ false
      → D.banned db cid p ≡ true
      → D.banned (attempt D st db) cid p ≡ true
  unfolding attempt
  attempt-banned st db other h = elim (Option-cases (D.execute st db)) [
    | inl e ↦ rw (e, attempt) h
    | inr (db', e) ↦ rw (e, attempt) (lawful.banned-execute cid p st db db' other e h)
  ]

  pub remove_member-banned :
      (env : Env) (k pseudonym : String) (s : Server D)
      → D.banned s.db cid p ≡ true
      → D.banned (remove_member env k pseudonym s).db cid p ≡ true
  unfolding remove_member rotate_mek
  remove_member-banned env k pseudonym s h = elim (Option-cases (get k s.hosted)) [
    | inl e ↦ rw (e, remove_member) (attempt-banned _ s.db refl h)
    | inr (c, e) ↦ rw (e, remove_member) (attempt-banned _ _ refl (attempt-banned _ s.db refl h))
  ]

module _ {D : Database} (cid pseudonym : String) (s : Server D) where
  announce_key-db : (announce_key cid pseudonym s).db ≡ s.db
  unfolding announce_key
  announce_key-db = elim (Option-cases (get cid s.hosted)) [
    | inl e ↦ rw (e, announce_key) refl
    | inr (c, e) ↦ rw (e, announce_key) ((broadcast_to_members-Same cid pseudonym _ s).1)
  ]

module _ {D : Database} (cid pseudonym : String) (s : Server D) where
  announce_departure-db : (announce_departure cid pseudonym s).db ≡ s.db
  unfolding announce_departure
  announce_departure-db =
      announce_key-db cid pseudonym _
      ∙ (broadcast_to_members-Same cid pseudonym _ _).1
      ∙ (publish_mek_bundle-Same cid _).1
      ∙ (publish_member_roster-Same cid s).1

module _ {D : Database} (lawful : IsLawful D) (cid p : String) where
  depart-banned :
      (env : Env) (k pseudonym : String) (s : Server D)
      → D.banned s.db cid p ≡ true
      → D.banned (depart env k pseudonym s).0.db cid p ≡ true
  unfolding depart
  depart-banned env k pseudonym s h =
      ap (λ db. D.banned db cid p) (announce_departure-db k pseudonym _)
      ∙ remove_member-banned lawful cid p env k pseudonym s h

  pub handle_leave-banned :
      (env : Env) (k pseudonym : String) (s : Server D)
      → D.banned s.db cid p ≡ true
      → D.banned (handle_leave env k pseudonym s).0.db cid p ≡ true
  unfolding handle_leave verify_membership checks
  handle_leave-banned env k pseudonym s h = elim (Option-cases (get k s.hosted)) [
    | inl e ↦ rw (e, handle_leave) (depart-banned env k pseudonym s h)
    | inr (c, e) ↦ elim (Bool-cases (belongs c pseudonym)) [
      | inl b ↦ rw (e, b, handle_leave) (depart-banned env k pseudonym s h)
      | inr b ↦ rw (e, b, handle_leave) h
    ]
  ]

module _ {D : Database} (lawful : IsLawful D) (bcid p : String) where
  -- The ban is on record.
  abbrev pub Banned : D.Db → Type 0
  Banned db = D.banned db bcid p ≡ true

  pub kept : {db db' : D.Db} → db' ≡ db → Banned db → Banned db'
  kept e h = subst Banned (sym e) h

  -- One statement that lifts no ban.
  pub stored :
      (st : Statement) (db : D.Db)
      → lifts_ban st bcid p ≡ false
      → Banned db
      → Banned (attempt D st db)
  stored st db other h = attempt-banned lawful bcid p st db other h

  pub executed :
      (st : Statement) (db db' : D.Db)
      → lifts_ban st bcid p ≡ false
      → D.execute st db ≡ some db'
      → Banned db
      → Banned db'
  executed st db db' other e h = lawful.banned-execute bcid p st db db' other e h
