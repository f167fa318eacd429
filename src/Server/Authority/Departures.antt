-- ===== src/Server/Authority/Departures.antt =====
-- The handlers of crates/rekindle-server/src/rpc.rs that read, rotate the key, or remove a member
-- change the hosted communities in an allowed way, or not at all.
use rekindle.Base.{
  ℕ, String, List, Option, none, some, true, not, str_eq, eq_iff, arith, ◌≡◌, ◌≢◌, refl, ap, ◌∙◌,
  inl, inr, get, modify, modify-modify, Option-cases,
}
use rekindle.Server.State.{HostedCommunity}
use rekindle.Server.Protocol.{CommunityResponse}
use rekindle.Server.Store.{Database}
use rekindle.Server.Core.{Env, Server, Handled, settle, pass, checks}
use rekindle.Server.Guards.{belongs}
use rekindle.Server.Guards.Rules.{
  after_require, after_found, after_membership, after_permission, after_hierarchy, after_pass,
}
use rekindle.Server.Effects.Frame.{
  Same, broadcast_to_members-Same, publish_member_roster-Same, publish_mek_bundle-Same,
}
use rekindle.Server.Keys.{with_key, handle_request_mek, handle_rotate_mek}
use rekindle.Server.Departure.{
  without_member, remove_member, announce_departure, depart, handle_leave, handle_kick, handle_ban,
  handle_unban, handle_get_ban_list,
}
use rekindle.Server.Messages.{handle_send_message, handle_get_messages}
use rekindle.Server.Authority.{Allowed, Moves, still, moved, leaves, removes, rotates}

module _ {D : Database} (env : Env) (cid sender : String) (s : Server D) where
  abbrev pub Fine : Handled D → Type 0
  Fine r = Moves env cid sender s r.0

  pub refused : (r : CommunityResponse) → Fine (s, r)
  refused r = still refl

  pub passes : (r : Handled D) → Fine r → Fine (settle s (pass r))
  passes = after_pass Fine s refused

  pub handle_request_mek-Moves : Fine (handle_request_mek cid sender s)
  unfolding handle_request_mek
  handle_request_mek-Moves =
      after_found Fine s refused _ _ _ _
        λ c e. after_membership Fine s refused c sender _ λ b. passes _ (still refl)

  pub handle_rotate_mek-Moves : Fine (handle_rotate_mek env cid sender s)
  unfolding handle_rotate_mek
  handle_rotate_mek-Moves = after_found Fine s refused _ _ _ _ λ c e.
      after_membership Fine s refused c sender _ λ b.
        after_permission Fine s refused env c sender _ _ λ p. passes _ (
          moved c (with_key env) e
            ((broadcast_to_members-Same cid _ _ _).0 ∙ (publish_mek_bundle-Same cid _).0)
            (rotates (record { member = b; permitted = p }) refl))

  pub handle_get_messages-Moves :
      (channel_id : String) (before : Option ℕ) (limit : ℕ)
      → Fine (handle_get_messages cid sender channel_id before limit s)
  unfolding handle_get_messages checks
  handle_get_messages-Moves channel_id before limit = still (ground arith)

  pub handle_send_message-Moves :
      (channel_id : String) (text : List ℕ) (generation : ℕ)
      → Fine (handle_send_message env cid sender channel_id text generation s)
  unfolding handle_send_message checks
  handle_send_message-Moves channel_id text generation =
      still (grind (arith, broadcast_to_members-Same))

  pub handle_get_ban_list-Moves : Fine (handle_get_ban_list env cid sender s)
  unfolding handle_get_ban_list
  handle_get_ban_list-Moves = after_found Fine s refused _ _ _ _ λ c e.
      after_membership Fine s refused c sender _
        λ b. after_permission Fine s refused env c sender _ _ λ p. passes _ (still refl)

  pub handle_unban-Moves : (target : String) → Fine (handle_unban env cid sender target s)
  unfolding handle_unban
  handle_unban-Moves target = after_found Fine s refused _ _ _ _ λ c e.
      after_membership Fine s refused c sender _
        λ b. after_permission Fine s refused env c sender _ _ λ p. passes _ (still refl)

module _ {D : Database} (env : Env) (cid : String) where
  announce_departure-Same :
      (pseudonym : String) (t : Server D) → Same t (announce_departure cid pseudonym t)
  unfolding announce_departure
  announce_departure-Same pseudonym t =
      grind (arith, broadcast_to_members-Same, publish_mek_bundle-Same, publish_member_roster-Same)

  -- What a departure leaves hosted, where the community is, and where it is not.
  hosted-remove_member :
      (pseudonym : String) (t : Server D) (c : HostedCommunity)
      → get cid t.hosted ≡ some c
      → (remove_member env cid pseudonym t).hosted
        ≡ modify cid (λ c. with_key env (without_member pseudonym c)) t.hosted
  unfolding remove_member
  hosted-remove_member pseudonym t c e =
      rw (e, remove_member) (modify-modify cid (without_member pseudonym) (with_key env) t.hosted)

  hosted-remove_member-none :
      (pseudonym : String) (t : Server D)
      → get cid t.hosted ≡ none
      → (remove_member env cid pseudonym t).hosted ≡ t.hosted
  unfolding remove_member
  hosted-remove_member-none pseudonym t e = rw (e, remove_member)

  hosted-depart :
      (pseudonym : String) (t : Server D)
      → (depart env cid pseudonym t).0.hosted ≡ (remove_member env cid pseudonym t).hosted
  unfolding depart
  hosted-depart pseudonym t =
      (announce_departure-Same pseudonym (remove_member env cid pseudonym t)).0

  -- Leaving, from a server that hosts what `s` does.
  pub handle_leave-Moves :
      (sender pseudonym : String) (s t : Server D) (c : HostedCommunity)
      → t.hosted ≡ s.hosted
      → get cid s.hosted ≡ some c
      → (belongs c pseudonym ≡ true
          → Allowed env sender c (with_key env (without_member pseudonym c)))
      → Moves env cid sender s (handle_leave env cid pseudonym t).0
  unfolding handle_leave
  handle_leave-Moves sender pseudonym s t c same e allow =
      rw (here, handle_leave)
        (after_membership (λ r. Moves env cid sender s r.0) t (λ r. still same) c pseudonym _
          λ b.
            after_pass (λ r. Moves env cid sender s r.0) t (λ r. still same) _
              (moved c (λ c. with_key env (without_member pseudonym c)) e
                (hosted-depart pseudonym t
                  ∙ hosted-remove_member pseudonym t c here
                  ∙ ap (modify cid (λ c. with_key env (without_member pseudonym c))) same)
                (allow b)))
    where
      here : get cid t.hosted ≡ some c
      here = rw same e

module _ {D : Database} (env : Env) (cid sender : String) (s : Server D) where
  pub leave-Moves : Fine env cid sender s (handle_leave env cid sender s)
  leave-Moves = elim (Option-cases (get cid s.hosted)) [
    | inr (c, e) ↦ handle_leave-Moves env cid sender sender s s c refl e λ b. leaves b refl
    | inl e ↦ still (
        unfold handle_leave in
        rw (e, handle_leave)
          (hosted-depart env cid sender s ∙ hosted-remove_member-none env cid sender s e))
  ]

  ne_of_str_eq : (a b : String) → not (str_eq a b) ≡ true → a ≢ b
  ne_of_str_eq a b h e = ground (arith, eq_iff a b)

  pub handle_kick-Moves :
      (target : String) → Fine env cid sender s (handle_kick env cid sender target s)
  unfolding handle_kick
  handle_kick-Moves target =
      after_found (Fine env cid sender s) s (refused env cid sender s) _ _ _ _ λ c e.
        after_permission (Fine env cid sender s) s (refused env cid sender s) env c sender _ _ λ p.
          after_require (Fine env cid sender s) s (refused env cid sender s) _ _ _ _ λ ne.
            after_hierarchy (Fine env cid sender s) s (refused env cid sender s) c sender target _
              λ h. passes env cid sender s _ (
                handle_leave-Moves env cid sender target s s c refl e λ b.
                  removes target
                    (record {
                      other = ne_of_str_eq sender target ne;
                      permitted = inl p;
                      higher = h;
                    })
                    b refl)

  pub handle_ban-Moves :
      (target : String) → Fine env cid sender s (handle_ban env cid sender target s)
  unfolding handle_ban
  handle_ban-Moves target =
      after_found (Fine env cid sender s) s (refused env cid sender s) _ _ _ _ λ c e.
        after_membership (Fine env cid sender s) s (refused env cid sender s) c sender _ λ m.
          after_permission (Fine env cid sender s) s (refused env cid sender s) env c sender _ _
            λ p. after_require (Fine env cid sender s) s (refused env cid sender s) _ _ _ _ λ ne.
              after_hierarchy (Fine env cid sender s) s (refused env cid sender s) c sender target _
                λ h. passes env cid sender s _ (
                  handle_leave-Moves env cid sender target s _ c refl e λ b.
                    removes target
                      (record {
                        other = ne_of_str_eq sender target ne;
                        permitted = inr p;
                        higher = h;
                      })
                      b refl)
