-- ===== src/Server/Tests/Security.antt =====
-- Bans, roles, messages and timeouts on the sample.
use rekindle.Base.{◌^◌, ◌-◌, true, false, [], ◌∷◌, none, some, ◌≡◌, refl, ap, ◌∙◌, get, arith}
use rekindle.Bits.{has_bit}
use rekindle.Permissions.{
  is_timed_out, calculate_permissions, manage_roles, ban_members, moderate_members,
}
use rekindle.Permissions.Calculation.{has_permission-bit, calculate_permissions-bit}
use rekindle.Server.Protocol.{CommunityRequest, CommunityResponse, error}
use rekindle.Server.Store.Memory.{memory-IsLawful}
use rekindle.Server.Core.{pass, store, checks}
use rekindle.Server.Guards.{
  belongs, verify_membership, outranks, is_permitted, find_member, highest_role_position,
  held_positions, max_or,
}
use rekindle.Server.Guards.Permitted.{is_permitted-bit}
use rekindle.Server.Store.{delete_ban}
use rekindle.Server.Roles.{edit_first, may_edit}
use rekindle.Server.Timeouts.{set_timeout, end_of_timeout}
use rekindle.Server.Messages.{overwrites_of, find_channel, check_message, deliver}
use rekindle.Server.Dispatch.{handle, dispatch_request}
use rekindle.Server.Security.Admitted.{Admitted}
use rekindle.Server.Security.Bans.{MayBan, ban_row, ban_bars_join, ban_of_stranger, unban_readmits}
use rekindle.Server.Security.Escalation.{crown, crowning, edit_role_escalates}
use rekindle.Server.Security.Silence.{IsPosted, may_speak, send-checked, message_accepted}
use rekindle.Server.Security.Timeouts.{
  MaySilence, silenced, timeout_takes_hold, long_timeout_is_none,
}
use rekindle.Server.Tests.Town.{town, start, env_at, role, person}

-- The moderator's permissions.
bob_may_ban : is_permitted (env_at 1000) town "bob" ban_members ≡ true
unfolding has_bit is_timed_out
bob_may_ban = is_permitted-bit (env_at 1000) town "bob" 2 (omega arith)

bob_may_moderate : is_permitted (env_at 1000) town "bob" moderate_members ≡ true
unfolding has_bit is_timed_out
bob_may_moderate = is_permitted-bit (env_at 1000) town "bob" 40 (omega arith)

bob_may_manage : is_permitted (env_at 1000) town "bob" manage_roles ≡ true
unfolding has_bit is_timed_out
bob_may_manage = is_permitted-bit (env_at 1000) town "bob" 28 (omega arith)

bob_outranks_eve : outranks town "bob" "eve" ≡ true
unfolding outranks highest_role_position held_positions max_or
bob_outranks_eve = refl

bob_outranks_zoe : outranks town "bob" "zoe" ≡ true
unfolding outranks highest_role_position held_positions max_or
bob_outranks_zoe = refl

bob_belongs : belongs town "bob" ≡ true
unfolding belongs
bob_belongs = refl

zoe_stranger : belongs town "zoe" ≡ false
unfolding belongs
zoe_stranger = refl

bob_bans_eve : MayBan (env_at 1000) town "bob" "eve"
bob_bans_eve = record {
  member = bob_belongs;
  permitted = bob_may_ban;
  other = refl;
  higher = bob_outranks_eve;
}

bob_bans_zoe : MayBan (env_at 1000) town "bob" "zoe"
bob_bans_zoe = record {
  member = bob_belongs;
  permitted = bob_may_ban;
  other = refl;
  higher = bob_outranks_zoe;
}

ban_of_stranger_example :
    handle (env_at 1000) "c1" "bob" (CommunityRequest.ban "zoe") start
    ≡ (store (ban_row (env_at 1000) "c1" town "zoe") start, error 403 "not a member")
ban_of_stranger_example =
    ban_of_stranger (env_at 1000) "c1" "bob" "zoe" start town refl bob_bans_zoe zoe_stranger

ban_bars_join_example :
    dispatch_request
      (env_at 2000)
      "eve"
      (CommunityRequest.join "eve" "Eve" none)
      none
      (some "c1")
      (handle (env_at 1000) "c1" "bob" (CommunityRequest.ban "eve") start).0
    ≡ (
      (handle (env_at 1000) "c1" "bob" (CommunityRequest.ban "eve") start).0,
      error 403 "you are banned from this community",
    )
ban_bars_join_example =
    ban_bars_join (env_at 1000) "c1" "bob" "eve" start town refl memory-IsLawful bob_bans_eve
      (ban_row (env_at 1000) "c1" town "eve" ∷ []) refl (env_at 2000) "Eve" none none (some "c1")
      refl

unban_readmits_example : Admitted "c1" "zoe" town (
    dispatch_request
      (env_at 2000)
      "zoe"
      (CommunityRequest.join "zoe" "Zoe" none)
      none
      (some "c1")
      (handle (env_at 1000) "c1" "bob" (CommunityRequest.unban "zoe") start).0)
unban_readmits_example =
    unban_readmits (env_at 1000) "c1" "bob" "zoe" start town refl memory-IsLawful bob_belongs
      bob_may_ban refl (delete_ban "c1" "zoe" ∷ []) refl (env_at 2000) "Zoe" none none (some "c1")
      refl

bob_may_edit : may_edit (env_at 1000) town "bob" (role 1 "Member" 2048) ≡ true
unfolding may_edit highest_role_position held_positions max_or
bob_may_edit = refl

edit_role_escalates_example :
    (get "c1"
        (handle
          (env_at 1000)
          "c1"
          "bob"
          (crowning (env_at 1000) "c1" "bob" start town refl 1)
          start).0.hosted
      ≡ some (edit_first 1 crown town))
    × (is_permitted (env_at 3000) (edit_first 1 crown town) "bob" (2 ^ 2) ≡ true)
edit_role_escalates_example =
    edit_role_escalates (env_at 1000) "c1" "bob" start town refl 1 (role 1 "Member" 2048)
      (person "bob" (0 ∷ 1 ∷ 2 ∷ [])) bob_belongs bob_may_manage refl bob_may_edit refl refl
      (env_at 3000) 2

bob_silences_eve : MaySilence (env_at 1000) town "bob" "eve" (person "eve" (0 ∷ 1 ∷ []))
bob_silences_eve = record {
  member = bob_belongs;
  permitted = bob_may_moderate;
  higher = bob_outranks_eve;
  listed = refl;
}

timeout_takes_hold_example :
    handle
      (env_at 1599)
      "c1"
      "eve"
      (CommunityRequest.send_message "ch1" (1 ∷ 2 ∷ []) 4)
      (handle (env_at 1000) "c1" "bob" (CommunityRequest.timeout_member "eve" 600 none) start).0
    ≡ (
      (handle (env_at 1000) "c1" "bob" (CommunityRequest.timeout_member "eve" 600 none) start).0,
      error 403 "you do not have permission to send messages in this channel",
    )
unfolding has_bit
timeout_takes_hold_example =
    timeout_takes_hold (env_at 1000) "c1" "bob" "eve" start town (person "eve" (0 ∷ 1 ∷ [])) 600
      none refl bob_silences_eve (env_at 1599) "ch1" (1 ∷ 2 ∷ []) 4 (omega arith) (omega arith) refl
      refl

long_timeout_is_none_example :
    (get "c1"
        (handle
          (env_at 1000)
          "c1"
          "bob"
          (CommunityRequest.timeout_member "eve" (2 ^ 64 - 1) none)
          start).0.hosted
      ≡ some (silenced (env_at 1000) "eve" (2 ^ 64 - 1) town))
    × (find_member (silenced (env_at 1000) "eve" (2 ^ 64 - 1) town) "eve"
        ≡ some (
            set_timeout
              (some (end_of_timeout (env_at 1000) (2 ^ 64 - 1)))
              (person "eve" (0 ∷ 1 ∷ []))))
    × (calculate_permissions 1001
          (0 ∷ 1 ∷ [])
          town.roles
          (overwrites_of (find_channel town "ch1"))
          "eve"
          (some (end_of_timeout (env_at 1000) (2 ^ 64 - 1)))
        ≡ calculate_permissions 1001
            (0 ∷ 1 ∷ [])
            town.roles
            (overwrites_of (find_channel town "ch1"))
            "eve"
            none)
long_timeout_is_none_example =
    long_timeout_is_none (env_at 1000) "c1" "bob" "eve" start town (person "eve" (0 ∷ 1 ∷ []))
      (2 ^ 64 - 1) none refl bob_silences_eve 1001 "ch1" (omega arith) (omega arith) (omega arith)
      (omega arith)

is_permitted-bit_example : is_permitted (env_at 1000) town "eve" (2 ^ 2) ≡ false
unfolding has_bit is_timed_out
is_permitted-bit_example = is_permitted-bit (env_at 1000) town "eve" 2 (omega arith)

eve_speaks : may_speak (env_at 1000) town "eve" "ch1" (find_member town "eve") ≡ true
unfolding has_bit is_timed_out
eve_speaks =
    has_permission-bit 11 _
    ∙ ground (
      arith,
      calculate_permissions-bit 3 1000 (0 ∷ 1 ∷ []) town.roles [] "eve" none (omega arith),
      calculate_permissions-bit 11 1000 (0 ∷ 1 ∷ []) town.roles [] "eve" none (omega arith),
    )

eve_checked : check_message (env_at 1000) town "eve" "ch1" 4 ≡ pass tt
unfolding check_message verify_membership belongs checks
eve_checked = rw eve_speaks

eve_sends :
    (handle (env_at 1000) "c1" "eve" (CommunityRequest.send_message "ch1" (1 ∷ 2 ∷ []) 4) start).1
    ≡ CommunityResponse.ok
unfolding handle deliver checks
eve_sends =
    ap (λ r. r.1)
      (send-checked (env_at 1000) "c1" "eve" "ch1" (1 ∷ 2 ∷ []) 4 start town (pass tt) refl
        eve_checked)

message_accepted_example :
    IsPosted
      (env_at 1000)
      "c1"
      "eve"
      "ch1"
      (1 ∷ 2 ∷ [])
      4
      start
      (handle (env_at 1000) "c1" "eve" (CommunityRequest.send_message "ch1" (1 ∷ 2 ∷ []) 4) start)
message_accepted_example =
    message_accepted (env_at 1000) "c1" "eve" "ch1" (1 ∷ 2 ∷ []) 4 start eve_sends
