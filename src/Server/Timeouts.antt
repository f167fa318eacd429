-- ===== src/Server/Timeouts.antt =====
-- Timeouts: crates/rekindle-server/src/rpc.rs.
use rekindle.Base.{ℕ, ◌+◌, ◌%◌, ◌^◌, String, Option, none, some}
use rekindle.Permissions.{moderate_members}
use rekindle.Server.State.{ServerMember}
use rekindle.Server.Protocol.{CommunityResponse, member_timed_out}
use rekindle.Server.Store.{Database, replace_timeout, delete_timeout}
use rekindle.Server.Core.{Env, Server, Handled, pass, found, ◌>>=◌, ◌>>◌, settle, change, store}
use rekindle.Server.Guards.{authorise, check_hierarchy, find_member}
use rekindle.Server.Roles.{edit_member}
use rekindle.Server.Effects.{broadcast_to_members}

-- `now + duration_seconds` on `u64`; it wraps.
abbrev pub end_of_timeout : Env → ℕ → ℕ
end_of_timeout env duration_seconds = (env.now + duration_seconds) % 2 ^ 64

abbrev pub set_timeout : Option ℕ → ServerMember → ServerMember
set_timeout until m = record m { timeout_until = until }

module _ {D : Database} where
  unfoldable pub handle_timeout_member :
      Env → String → String → String → ℕ → Option String → Server D → Handled D
  handle_timeout_member env cid sender target duration_seconds reason s = settle s do
    c ← authorise env cid sender moderate_members s
    check_hierarchy c sender target
    let until = end_of_timeout env duration_seconds
    m ← found (find_member c target) 404 "target member not found"
    pass (
      broadcast_to_members cid "" (member_timed_out cid target (some until)) (
          store (replace_timeout c.community_id target until reason)
            (change cid (edit_member target (set_timeout (some until))) s)),
      CommunityResponse.ok,
    )

  unfoldable pub handle_remove_timeout : Env → String → String → String → Server D → Handled D
  handle_remove_timeout env cid sender target s = settle s do
    c ← authorise env cid sender moderate_members s
    pass (
      broadcast_to_members cid "" (member_timed_out cid target none) (
          store (delete_timeout c.community_id target)
            (change cid (edit_member target (set_timeout none)) s)),
      CommunityResponse.ok,
    )
