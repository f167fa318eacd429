-- ===== src/Server/Security/Bans.antt =====
-- What a ban does, and what lifting it does (crates/rekindle-server/src/rpc.rs).
use rekindle.Base.{
  ℕ, String, true, false, not, Option, some, ◌≡◌, List, ap, ◌∙◌, arith, get, eq_iff, str_eq,
}
use mathlib.Core.Path.{subst}
use rekindle.Permissions.{ban_members}
use rekindle.Server.State.{HostedCommunity}
use rekindle.Server.Protocol.{CommunityRequest, error}
use rekindle.Server.Store.{Database, Statement, attempt, replace_ban, delete_ban}
use rekindle.Server.Store.Laws.{IsLawful}
use rekindle.Server.Core.{Env, Server, checks, store, timestamp_now}
use rekindle.Server.Guards.{
  belongs, is_permitted, outranks, find_member, verify_membership, check_permission,
  check_hierarchy, or_else, by_route,
}
use rekindle.Server.Join.{handle_join, handle_admission, is_hosted, unknown_over_ipc}
use rekindle.Server.Departure.{handle_ban, handle_unban, handle_leave, name_of}
use rekindle.Server.Dispatch.{handle, dispatch_request}
use rekindle.Server.Security.Admitted.{Admitted, handle_admission-Admitted}
use rekindle.Server.Security.Removal.{removal_guarded}
use rekindle.Server.Security.Records.{handle_leave-banned}

-- What handle_ban asks of the sender.
pub record MayBan (env : Env) (c : HostedCommunity) (sender target : String) : Type 0 where
  pub member : belongs c sender ≡ true
  pub permitted : is_permitted env c sender ban_members ≡ true
  pub other : str_eq sender target ≡ false
  pub higher : outranks c sender target ≡ true

-- The row that handle_ban writes.
abbrev pub ban_row : Env → String → HostedCommunity → String → Statement
ban_row env cid c target =
    replace_ban cid target (name_of (find_member c target)) (timestamp_now env)

known :
    (ipc : Option String) (hosted : Option HostedCommunity)
    → is_hosted hosted ≡ true
    → unknown_over_ipc ipc (is_hosted hosted) ≡ false
unfolding unknown_over_ipc
known ipc hosted h = ground arith

claims_itself : (p : String) → not (str_eq p p) ≡ false
claims_itself p = ground (arith, eq_iff p p)

module _ {D : Database} (env : Env) (cid p name : String) (route : Option (List ℕ))
    (incoming : Option ℕ) (ipc : Option String) (s : Server D)
    (here : or_else ipc (by_route s.hosted incoming) ≡ some cid)
    (hosted : is_hosted (get cid s.hosted) ≡ true) where
  pub join_barred :
      D.banned s.db cid p ≡ true
      → dispatch_request env p (CommunityRequest.join p name route) incoming ipc s
        ≡ (s, error 403 "you are banned from this community")
  unfolding dispatch_request handle_join
  join_barred h = rw (claims_itself p, here, known ipc (get cid s.hosted) hosted, h, handle_join)

  join_open :
      D.banned s.db cid p ≡ false
      → dispatch_request env p (CommunityRequest.join p name route) incoming ipc s
        ≡ handle_admission env cid p name route s
  unfolding dispatch_request handle_join
  join_open h = rw (claims_itself p, here, known ipc (get cid s.hosted) hosted, h, handle_join)

module _ {D : Database} (env : Env) (cid sender target : String) (s : Server D)
    (c : HostedCommunity) (hosted : get cid s.hosted ≡ some c) where
  -- Once the guards pass, banning is the row and then leaving.
  handle_ban-passes :
      MayBan env c sender target
      → handle_ban env cid sender target s
        ≡ handle_leave env cid target (store (ban_row env cid c target) s)
  unfolding handle_ban verify_membership check_permission check_hierarchy checks
  handle_ban-passes may = rw (hosted, may.member, may.permitted, may.other, may.higher)

  pub still_hosted :
      (request : CommunityRequest)
      → is_hosted (get cid (handle env cid sender request s).0.hosted) ≡ true
  still_hosted request = ap is_hosted (removal_guarded env cid sender s c request hosted).1

  attempt-some :
      (st : Statement) (db' : D.Db) → D.execute st s.db ≡ some db' → attempt D st s.db ≡ db'
  unfolding attempt
  attempt-some st db' e = rw (e, attempt)

  handle_ban-banned :
      IsLawful D
      → MayBan env c sender target
      → (db' : D.Db) → D.execute (ban_row env cid c target) s.db ≡ some db'
      → D.banned (handle env cid sender (CommunityRequest.ban target) s).0.db cid target ≡ true
  unfolding handle
  handle_ban-banned lawful may db' wrote = rw (handle_ban-passes may) (
      handle_leave-banned lawful cid target env cid target (store (ban_row env cid c target) s) (
        ap (λ db. D.banned db cid target) (attempt-some _ db' wrote)
        ∙ lawful.banned-replace_ban cid target _ _ s.db db' wrote))

  -- Who is banned by a member that may ban, and whose row is written, cannot join: a `Join` of theirs
  -- that follows, for the community, by its route or over IPC, is answered with the error 403 and
  -- changes nothing.
  pub ban_bars_join :
      IsLawful D
      → MayBan env c sender target
      → (db' : D.Db) → D.execute (ban_row env cid c target) s.db ≡ some db'
      → (env' : Env) (name : String) (route : Option (List ℕ)) (incoming : Option ℕ)
        (ipc : Option String)
      → or_else ipc
          (by_route (handle env cid sender (CommunityRequest.ban target) s).0.hosted incoming)
        ≡ some cid
      → dispatch_request env' target
          (CommunityRequest.join target name route)
          incoming
          ipc
          (handle env cid sender (CommunityRequest.ban target) s).0
        ≡ (
          (handle env cid sender (CommunityRequest.ban target) s).0,
          error 403 "you are banned from this community",
        )
  ban_bars_join lawful may db' wrote env' name route incoming ipc here =
      join_barred env' cid target name route incoming ipc _ here
        (still_hosted (CommunityRequest.ban target)) (handle_ban-banned lawful may db' wrote)

  -- Banning somebody who is not in the community records the ban, and still replies with an error.
  pub ban_of_stranger :
      MayBan env c sender target
      → belongs c target ≡ false
      → handle env cid sender (CommunityRequest.ban target) s
        ≡ (store (ban_row env cid c target) s, error 403 "not a member")
  unfolding handle handle_leave verify_membership checks
  ban_of_stranger may stranger = rw (handle_ban-passes may, hosted, stranger, handle_leave)

  handle_unban-free :
      IsLawful D
      → belongs c sender ≡ true
      → is_permitted env c sender ban_members ≡ true
      → c.community_id ≡ cid
      → (db' : D.Db) → D.execute (delete_ban c.community_id target) s.db ≡ some db'
      → D.banned (handle env cid sender (CommunityRequest.unban target) s).0.db cid target ≡ false
  unfolding handle handle_unban verify_membership check_permission checks
  handle_unban-free lawful member permitted same db' wrote =
      rw (hosted, member, permitted)
        (ap (λ db. D.banned db cid target) (attempt-some _ db' wrote)
          ∙ subst (λ k. D.banned db' k target ≡ false) same
              (lawful.banned-delete_ban c.community_id target s.db db' wrote))

  handle_unban-hosted :
      belongs c sender ≡ true
      → is_permitted env c sender ban_members ≡ true
      → get cid (handle env cid sender (CommunityRequest.unban target) s).0.hosted ≡ some c
  unfolding handle handle_unban verify_membership check_permission checks
  handle_unban-hosted member permitted = rw (hosted, member, permitted) hosted

  -- Once a member who may ban lifts a ban and its row is deleted, a `Join` of the key that was
  -- banned, for the community, makes it a member: it then stands in the roster, with its own roles if
  -- it was still there and with the default roles if not, and is answered with the media key, the
  -- channels, these roles and the community's.
  pub unban_readmits :
      IsLawful D
      → belongs c sender ≡ true
      → is_permitted env c sender ban_members ≡ true
      → c.community_id ≡ cid
      → (db' : D.Db) → D.execute (delete_ban c.community_id target) s.db ≡ some db'
      → (env' : Env) (name : String) (route : Option (List ℕ)) (incoming : Option ℕ)
        (ipc : Option String)
      → or_else ipc
          (by_route (handle env cid sender (CommunityRequest.unban target) s).0.hosted incoming)
        ≡ some cid
      → Admitted cid target c (
          dispatch_request env' target
            (CommunityRequest.join target name route)
            incoming
            ipc
            (handle env cid sender (CommunityRequest.unban target) s).0)
  unban_readmits lawful member permitted same db' wrote env' name route incoming ipc here =
      let after = (handle env cid sender (CommunityRequest.unban target) s).0 in
      rw
        (join_open env' cid target name route incoming ipc after here
          (still_hosted (CommunityRequest.unban target))
          (handle_unban-free lawful member permitted same db' wrote))
        (handle_admission-Admitted env' cid target name route after c
          (handle_unban-hosted member permitted))
