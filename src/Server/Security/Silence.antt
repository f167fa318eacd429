-- ===== src/Server/Security/Silence.antt =====
-- Who may send a message, and what a timeout does to it (crates/rekindle-server/src/rpc.rs).
use rekindle.Base.{
  ℕ, ◌^◌, ◌==◌, String, Bool, true, List, Option, none, some, ◌≡◌, refl, sym, arith, get, ◌⊎◌, ◌-◌,
  ==_iff, Bool-cases, Option-cases, inl, inr, min,
}
use mathlib.Core.Path.{subst}
use rekindle.Permissions.{has_permission, calculate_permissions, send_messages}
use rekindle.Server.State.{HostedCommunity, ServerMember}
use rekindle.Server.Protocol.{CommunityRequest, CommunityResponse, error, new_message}
use rekindle.Server.Store.{Database, insert_message}
use rekindle.Server.Core.{
  Env, Server, Handled, Check, pass, refuse, checks, settle, ◌>>=◌, timestamp_now,
}
use rekindle.Server.Effects.{broadcast_to_members}
use rekindle.Server.Guards.{belongs, find_member, verify_membership}
use rekindle.Server.Messages.{
  check_message, check_send, deliver, find_channel, mismatch, handle_send_message, overwrites_of,
}
use rekindle.Server.Dispatch.{handle}

-- The sender's permission to send in the channel, with its overwrites and the sender's timeout.
abbrev pub may_speak : Env → HostedCommunity → String → String → Option ServerMember → Bool
may_speak env c sender ch none = true
may_speak env c sender ch (some m) =
    has_permission
      (calculate_permissions env.now m.role_ids c.roles (overwrites_of (find_channel c ch)) sender
        m.timeout_until)
      send_messages

pub record MayPost (env : Env) (c : HostedCommunity) (sender ch : String) (generation : ℕ)
    : Type 0 where
  pub member : belongs c sender ≡ true
  pub speaks : may_speak env c sender ch (find_member c sender) ≡ true
  pub current : generation ≡ c.mek.generation

module _ (env : Env) (c : HostedCommunity) (sender ch : String) (generation : ℕ) where
  check_send-cases :
      (o : Option ServerMember)
      → ((may_speak env c sender ch o ≡ true) × (check_send env c sender ch o ≡ pass tt))
        ⊎ (check_send env c sender ch o
            ≡ refuse (error 403 "you do not have permission to send messages in this channel"))
  unfolding checks
  check_send-cases none = inl (refl, refl)
  check_send-cases (some m) = elim (Bool-cases (may_speak env c sender ch (some m))) [
    | inl e ↦ inl (e, rw e)
    | inr e ↦ inr (rw e)
  ]

  pub check_message-cases :
      (MayPost env c sender ch generation × (check_message env c sender ch generation ≡ pass tt))
      ⊎ ((code : ℕ) × (message : String) × (check_message env c sender ch generation
            ≡ refuse (error code message)))
  unfolding check_message verify_membership checks
  check_message-cases = elim (Bool-cases (belongs c sender)) [
    | inr b ↦ inr (403, "not a member", rw b)
    | inl b ↦ elim (check_send-cases (find_member c sender)) [
      | inr e ↦ inr (403, "you do not have permission to send messages in this channel", rw (b, e))
      | inl (may, e) ↦ elim (Bool-cases (generation == c.mek.generation)) [
        | inl g ↦
            inl (
              record { member = b; speaks = may; current = (==_iff generation _).0 g },
              rw (b, e, g),
            )
        | inr g ↦ inr (409, mismatch generation c.mek.generation, rw (b, e, g))
      ]
    ]
  ]

module _ {D : Database} (env : Env) (cid sender ch : String) (text : List ℕ) (generation : ℕ)
    (s : Server D) where
  -- What an accepted message has left behind.
  abbrev pub IsPosted : Handled D → Type 0
  IsPosted r =
      (c : HostedCommunity) × (get cid s.hosted ≡ some c)
      × MayPost env c sender ch generation
      × (db' : D.Db) × (D.execute
            (insert_message cid ch sender text (min generation (2 ^ 63 - 1)) (timestamp_now env))
            s.db
          ≡ some db')
      × (r.0
          ≡ broadcast_to_members cid sender
              (new_message cid ch sender text generation (timestamp_now env))
              (record s { db = db' }))

  abbrev Accepted : Handled D → Type 0
  Accepted r = r.1 ≡ CommunityResponse.ok → IsPosted r

  deliver-stored :
      (db' : D.Db)
      → D.execute
          (insert_message cid ch sender text (min generation (2 ^ 63 - 1)) (timestamp_now env))
          s.db
        ≡ some db'
      → deliver env cid sender ch text generation s ≡ (
        broadcast_to_members cid sender
            (new_message cid ch sender text generation (timestamp_now env))
            (record s { db = db' }),
        CommunityResponse.ok,
      )
  unfolding deliver
  deliver-stored db' h = rw (h, deliver)

  deliver-failed :
      D.execute
          (insert_message cid ch sender text (min generation (2 ^ 63 - 1)) (timestamp_now env))
          s.db
        ≡ none
      → deliver env cid sender ch text generation s ≡ (s, error 500 "failed to store message")
  unfolding deliver
  deliver-failed h = rw (h, deliver)

  deliver-Accepted :
      (c : HostedCommunity)
      → get cid s.hosted ≡ some c
      → MayPost env c sender ch generation
      → Accepted (deliver env cid sender ch text generation s)
  deliver-Accepted c e may =
      elim (Option-cases (
        D.execute
          (insert_message cid ch sender text (min generation (2 ^ 63 - 1)) (timestamp_now env))
          s.db)) [
            | inl h ↦ subst Accepted (sym (deliver-failed h)) λ r. ground arith
            | inr (db', h) ↦
                subst Accepted (sym (deliver-stored db' h)) λ r. (c, e, may, db', h, refl)
          ]

  pub send-unhosted :
      get cid s.hosted ≡ none
      → handle_send_message env cid sender ch text generation s
        ≡ (s, error 404 "community not found")
  unfolding handle_send_message checks
  send-unhosted e = rw e

  pub send-checked :
      (c : HostedCommunity) (k : Check (Unit {0}))
      → get cid s.hosted ≡ some c
      → check_message env c sender ch generation ≡ k
      → handle_send_message env cid sender ch text generation s
        ≡ settle s (k >>= λ _. pass (deliver env cid sender ch text generation s))
  unfolding handle_send_message checks
  send-checked c k e h = rw (e, h)

  handle_send_message-Accepted : Accepted (handle_send_message env cid sender ch text generation s)
  unfolding checks
  handle_send_message-Accepted = elim (Option-cases (get cid s.hosted)) [
    | inl e ↦ subst Accepted (sym (send-unhosted e)) λ r. ground arith
    | inr (c, e) ↦ elim (check_message-cases env c sender ch generation) [
      | inl (may, h) ↦
          subst Accepted (sym (send-checked c (pass tt) e h)) (deliver-Accepted c e may)
      | inr (code, message, h) ↦
          subst Accepted (sym (send-checked c (refuse (error code message)) e h)) λ r. ground arith
    ]
  ]

  -- A message is accepted only if the community is hosted, the sender belongs to it, a sender in the
  -- roster may send in the channel (by its roles, the channel's overwrites and its timeout), and the
  -- message is for the current key's generation. It is then stored, and sent to the other members.
  pub message_accepted :
      (handle env cid sender (CommunityRequest.send_message ch text generation) s).1
        ≡ CommunityResponse.ok
      → IsPosted (handle env cid sender (CommunityRequest.send_message ch text generation) s)
  unfolding handle
  message_accepted = handle_send_message-Accepted
