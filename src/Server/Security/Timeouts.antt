-- ===== src/Server/Security/Timeouts.antt =====
-- A timeout from the request that sets it to the messages it stops
-- (crates/rekindle-server/src/rpc.rs).
use rekindle.Base.{
  ℕ, ◌+◌, ◌^◌, ◌<◌, ◌≤◌, String, Bool, true, false, ◌||◌, List, Option, some, none, ◌≡◌, refl, ap,
  ◌∙◌, arith, get, get-modify_self, find-holds, find-update_first, any-of_find,
}
use rekindle.Bits.{has_bit}
use rekindle.Permissions.{has_permission, calculate_permissions, send_messages, moderate_members}
use rekindle.Permissions.Spec.{gives, in_channel}
use rekindle.Permissions.Timeout.{timeout_silences, expired_lem}
use rekindle.Server.State.{HostedCommunity, ServerMember}
use rekindle.Server.Protocol.{CommunityRequest, error}
use rekindle.Server.Store.{Database}
use rekindle.Server.Core.{Env, Server, refuse, checks}
use rekindle.Server.Effects.Frame.{broadcast_to_members-Same}
use rekindle.Server.Guards.{
  belongs, is_member, is_permitted, outranks, find_member, authorise, verify_membership,
  check_permission, check_hierarchy,
}
use rekindle.Server.Messages.{check_message, find_channel, overwrites_of}
use rekindle.Server.Roles.{edit_member}
use rekindle.Server.Timeouts.{end_of_timeout, set_timeout, handle_timeout_member}
use rekindle.Server.Dispatch.{handle}
use rekindle.Server.Security.Silence.{send-checked}

-- What handle_timeout_member asks of the sender and of the target.
pub record MaySilence (env : Env) (c : HostedCommunity) (sender target : String) (m : ServerMember)
    : Type 0 where
  pub member : belongs c sender ≡ true
  pub permitted : is_permitted env c sender moderate_members ≡ true
  pub higher : outranks c sender target ≡ true
  pub listed : find_member c target ≡ some m

abbrev pub silenced : Env → String → ℕ → HostedCommunity → HostedCommunity
silenced env target duration = edit_member target (set_timeout (some (end_of_timeout env duration)))

or_true : (b : Bool) → (b || true) ≡ true
or_true b = ground arith

module _ (env env' : Env) (target ch : String) (duration generation : ℕ) (c : HostedCommunity)
    (m : ServerMember) (listed : find_member c target ≡ some m) where
  silenced-find :
      find_member (silenced env target duration c) target
      ≡ some (set_timeout (some (end_of_timeout env duration)) m)
  silenced-find =
      find-update_first (is_member target) (set_timeout (some (end_of_timeout env duration)))
        c.members m listed (find-holds (is_member target) c.members m listed)

  silenced-belongs : belongs (silenced env target duration c) target ≡ true
  unfolding belongs
  silenced-belongs =
      rw (any-of_find (is_member target) (silenced env target duration c).members _ silenced-find)
        (or_true _)

  lasting :
      env.now + duration < 2 ^ 64
      → env'.now < env.now + duration
      → env'.now < end_of_timeout env duration
  lasting fits early = omega arith

  silenced-speech :
      env.now + duration < 2 ^ 64
      → env'.now < env.now + duration
      → gives 3 c.roles m.role_ids ≡ false
      → in_channel 3 m.role_ids target (overwrites_of (find_channel c ch)) false ≡ false
      → has_permission
          (calculate_permissions env'.now m.role_ids c.roles
            (overwrites_of (find_channel c ch))
            target
            (some (end_of_timeout env duration)))
          send_messages
        ≡ false
  unfolding has_bit
  silenced-speech fits early plain closed =
      timeout_silences env'.now m.role_ids c.roles (overwrites_of (find_channel c ch)) target 11
        (end_of_timeout env duration) (omega arith) refl (lasting fits early) plain closed

  silenced-refused :
      env.now + duration < 2 ^ 64
      → env'.now < env.now + duration
      → gives 3 c.roles m.role_ids ≡ false
      → in_channel 3 m.role_ids target (overwrites_of (find_channel c ch)) false ≡ false
      → check_message env' (silenced env target duration c) target ch generation
        ≡ refuse (error 403 "you do not have permission to send messages in this channel")
  unfolding check_message verify_membership checks
  silenced-refused fits early plain closed =
      rw (silenced-belongs, silenced-find, silenced-speech fits early plain closed)

module _ {D : Database} (env : Env) (cid sender target : String) (s : Server D)
    (c : HostedCommunity) (m : ServerMember) (duration : ℕ) (reason : Option String)
    (hosted : get cid s.hosted ≡ some c) (may : MaySilence env c sender target m) where
  silencing-hosted :
      get cid
        (handle env cid sender (CommunityRequest.timeout_member target duration reason) s).0.hosted
      ≡ some (silenced env target duration c)
  unfolding handle handle_timeout_member authorise verify_membership check_permission
      check_hierarchy checks
  silencing-hosted =
      rw (hosted, may.member, may.permitted, may.higher, may.listed)
        (ap (get cid) ((broadcast_to_members-Same cid "" _ _).0)
          ∙ get-modify_self cid (silenced env target duration) s.hosted c hosted)

  -- After a member who may moderate times another one out, every message of the latter is refused
  -- with the error 403 until the duration is over, in every channel, and changes nothing; unless the
  -- end of the timeout does not fit in 64 bits, or a role of the target's or an overwrite of the
  -- channel gives ADMINISTRATOR.
  pub timeout_takes_hold :
      (env' : Env) (ch : String) (text : List ℕ) (generation : ℕ)
      → env.now + duration < 2 ^ 64
      → env'.now < env.now + duration
      → gives 3 c.roles m.role_ids ≡ false
      → in_channel 3 m.role_ids target (overwrites_of (find_channel c ch)) false ≡ false
      → handle env' cid target
          (CommunityRequest.send_message ch text generation)
          (handle env cid sender (CommunityRequest.timeout_member target duration reason) s).0
        ≡ (
          (handle env cid sender (CommunityRequest.timeout_member target duration reason) s).0,
          error 403 "you do not have permission to send messages in this channel",
        )
  unfolding handle checks
  timeout_takes_hold env' ch text generation fits early plain closed =
      send-checked env' cid target ch text generation _ (silenced env target duration c) _
        silencing-hosted
        (silenced-refused env env' target ch duration generation c m may.listed fits early plain
          closed)

  -- A duration whose end leaves the 64 bits (as far as the clock and the duration fit in them) is no
  -- timeout at all: at no later time do the target's permissions in a channel differ from what they
  -- are without one.
  pub long_timeout_is_none :
      (now' : ℕ) (ch : String)
      → env.now < 2 ^ 64
      → duration < 2 ^ 64
      → 2 ^ 64 ≤ env.now + duration
      → env.now ≤ now'
      → (get cid
            (handle env cid sender
              (CommunityRequest.timeout_member target duration reason)
              s).0.hosted
          ≡ some (silenced env target duration c))
        × (find_member (silenced env target duration c) target
            ≡ some (set_timeout (some (end_of_timeout env duration)) m))
        × (calculate_permissions now' m.role_ids c.roles
              (overwrites_of (find_channel c ch))
              target
              (some (end_of_timeout env duration))
            ≡ calculate_permissions now' m.role_ids c.roles
                (overwrites_of (find_channel c ch))
                target
                none)
  long_timeout_is_none now' ch small short over later = (
    silencing-hosted,
    silenced-find env env target ch duration 0 c m may.listed,
    expired_lem now' m.role_ids c.roles (overwrites_of (find_channel c ch)) target
        (end_of_timeout env duration) (omega arith),
  )
