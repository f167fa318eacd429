-- ===== src/Server/Authority/Admission.antt =====
-- Joining, and the whole of `dispatch_request` (crates/rekindle-server/src/rpc.rs), against the
-- abstract transitions.
use rekindle.Base.{
  ℕ, String, Bool, true, false, not, List, [], ◌∷◌, Option, none, some, ◌≡◌, refl, if◌then◌else◌,
  ap, ◌∙◌, inl, inr, get, modify, Option-cases, Bool-cases, str_eq,
}
use rekindle.Server.State.{HostedCommunity, ServerMember}
use rekindle.Server.Protocol.{CommunityRequest, CommunityResponse, error, joined}
use rekindle.Server.Store.{Database}
use rekindle.Server.Core.{Env, Server, Handled, change}
use rekindle.Server.Guards.{find_member, or_else, by_route, resolve_community_id}
use rekindle.Server.Effects.{mek_payload, channel_infos, roles_to_dto}
use rekindle.Server.Effects.Frame.{broadcast_to_members-Same, publish_member_roster-Same}
use rekindle.Server.Join.{
  is_first_member, default_role_ids, rejoined, with_member, store_route, store_roles, store_creator,
  store_member, build_rejoin_response, welcome, handle_rejoin, add_new_member, handle_admission,
  handle_join, unknown_over_ipc, is_hosted,
}
use rekindle.Server.Dispatch.{dispatch_resolved, dispatch_request}
use rekindle.Server.Authority.{still, Transition, acts, returns, joins}
use rekindle.Server.Authority.Refine.{handle-Moves}

module _ {D : Database} where
  pub hosted-store_route :
      (cid p : String) (route : Option (List ℕ)) (t : Server D)
      → (store_route cid p route t).hosted ≡ t.hosted
  unfolding store_route
  hosted-store_route cid p none t = refl
  hosted-store_route cid p (some blob) t = refl

  hosted-store_roles :
      (cid p : String) (rids : List ℕ) (t : Server D) → (store_roles cid p rids t).hosted ≡ t.hosted
  unfolding store_roles
  hosted-store_roles cid p [] t = refl
  hosted-store_roles cid p (rid ∷ rids) t = hosted-store_roles cid p rids _

  hosted-store_member :
      (env : Env) (cid p name : String) (first : Bool) (t : Server D)
      → (store_member env cid p name first t).hosted ≡ t.hosted
  unfolding store_member
  hosted-store_member env cid p name first t = hosted-store_roles cid p (default_role_ids first) _

  hosted-store_creator :
      (first : Bool) (cid p : String) (t : Server D)
      → (store_creator first cid p t).hosted ≡ t.hosted
  unfolding store_creator
  hosted-store_creator true cid p t = refl
  hosted-store_creator false cid p t = refl

module _ {D : Database} (env : Env) (sender name : String) (route : Option (List ℕ))
    (s : Server D) where
  -- What a new member leaves hosted.
  pub hosted-add_new_member :
      (cid : String) (c : HostedCommunity)
      → get cid s.hosted ≡ some c
      → (add_new_member env cid sender name route s).0.hosted
        ≡ modify cid
            (with_member env sender name route (is_first_member (get cid s.hosted)))
            s.hosted
  unfolding add_new_member
  hosted-add_new_member cid c e = go (is_first_member (get cid s.hosted))
    where
      go :
          (first : Bool)
          → (elim (get cid s.hosted) as (λ _. Server D × Option CommunityResponse) [
            | none ↦ (store_member env cid sender name first s, none)
            | some c ↦ (
              store_route c.community_id sender route (
                  change cid
                    (with_member env sender name route first)
                    (store_creator first cid sender (store_member env cid sender name first s))),
              some (
                  joined
                    (mek_payload c)
                    c.mek.generation
                    (channel_infos c)
                    (default_role_ids first)
                    (roles_to_dto c)),
            )
          ]).0.hosted
            ≡ modify cid (with_member env sender name route first) s.hosted
      go first = rw e (
          hosted-store_route c.community_id sender route _
          ∙ ap (modify cid (with_member env sender name route first)) (
              hosted-store_creator first cid sender _
              ∙ hosted-store_member env cid sender name first s))

  pub hosted-welcome :
      (cid : String) (first : Bool) (r : Server D × Option CommunityResponse)
      → (welcome cid sender name first r).0.hosted ≡ r.0.hosted
  unfolding welcome
  hosted-welcome cid first (t, none) = refl
  hosted-welcome cid first (t, some response) =
      (broadcast_to_members-Same cid _ _ _).0 ∙ (publish_member_roster-Same cid _).0

  pub handle_rejoin-new :
      (cid : String) (c : HostedCommunity)
      → get cid s.hosted ≡ some c
      → find_member c sender ≡ none
      → handle_rejoin cid sender route s ≡ none
  unfolding handle_rejoin
  handle_rejoin-new cid c e f = rw (e, handle_rejoin) (rw f)

  handle_rejoin-known :
      (cid : String) (c : HostedCommunity) (m : ServerMember)
      → get cid s.hosted ≡ some c
      → find_member c sender ≡ some m
      → (r : Handled D) × (handle_rejoin cid sender route s ≡ some r)
        × (r.0.hosted ≡ modify cid (rejoined route sender) s.hosted)
  unfolding handle_rejoin
  handle_rejoin-known cid c m e f = (
    (
      store_route cid sender route (change cid (rejoined route sender) s),
      build_rejoin_response (rejoined route sender c) sender,
    ),
    rw (e, handle_rejoin) (rw f),
    hosted-store_route cid sender route _,
  )

  handle_admission-Transition :
      (cid : String) (c : HostedCommunity)
      → get cid s.hosted ≡ some c
      → D.banned s.db cid sender ≡ false
      → Transition env sender s (handle_admission env cid sender name route s).0
  unfolding handle_admission
  handle_admission-Transition cid c e free = elim (Option-cases (find_member c sender)) [
    | inl f ↦ joins cid name c route e free f (
        rw (handle_rejoin-new cid c e f, handle_admission)
          (hosted-welcome cid _ _
            ∙ hosted-add_new_member cid c e
            ∙ ap (λ b. modify cid (with_member env sender name route b) s.hosted)
                (ap is_first_member e)))
    | inr (m, f) ↦
        let (r, back, h) = handle_rejoin-known cid c m e f in
        returns cid c route e free (rw (back, handle_admission) h)
  ]

  hosted-add_none :
      (cid : String)
      → get cid s.hosted ≡ none
      → (add_new_member env cid sender name route s).0.hosted ≡ s.hosted
  unfolding add_new_member
  hosted-add_none cid e = rw (e, add_new_member) (hosted-store_member env cid sender name _ s)

  hosted-admission_none :
      (cid : String)
      → get cid s.hosted ≡ none
      → (handle_admission env cid sender name route s).0.hosted ≡ s.hosted
  unfolding handle_admission handle_rejoin
  hosted-admission_none cid e =
      rw (e, handle_admission, handle_rejoin) (hosted-welcome cid _ _ ∙ hosted-add_none cid e)

  handle_join-Transition :
      (incoming : Option ℕ) (ipc : Option String)
      → Transition env sender s (handle_join env sender name route incoming ipc s).0
  unfolding handle_join
  handle_join-Transition incoming ipc = go (or_else ipc (by_route s.hosted incoming))
    where
      admit :
          (cid : String)
          → D.banned s.db cid sender ≡ false
          → Transition env sender s (handle_admission env cid sender name route s).0
      admit cid free = elim (Option-cases (get cid s.hosted)) [
        | inl e ↦ acts cid (still (hosted-admission_none cid e))
        | inr (c, e) ↦ handle_admission-Transition cid c e free
      ]

      checked :
          (cid : String) (unknown banned : Bool)
          → D.banned s.db cid sender ≡ banned
          → Transition env sender s
              (if unknown
                then (s, error 404 "community not found")
                else if banned
                then (s, error 403 "you are banned from this community")
                else handle_admission env cid sender name route s).0
      checked cid true banned b = acts cid (still refl)
      checked cid false true b = acts cid (still refl)
      checked cid false false b = admit cid b

      go :
          (o : Option String)
          → Transition env sender s
              (elim o as (λ _. Handled D) [
                | none ↦ (s, error 404 "no hosted community matches this route")
                | some cid ↦
                    if unknown_over_ipc ipc (is_hosted (get cid s.hosted))
                    then (s, error 404 "community not found")
                    else if D.banned s.db cid sender
                    then (s, error 403 "you are banned from this community")
                    else handle_admission env cid sender name route s
              ]).0
      go none = acts "" (still refl)
      go (some cid) = checked cid _ _ refl

module _ {D : Database} (env : Env) (sender : String) (s : Server D) where
  dispatch_resolved-Transition :
      (request : CommunityRequest) (o : Option String)
      → Transition env sender s (dispatch_resolved env sender request o s).0
  unfolding dispatch_resolved
  dispatch_resolved-Transition request none = acts "" (still refl)
  dispatch_resolved-Transition request (some cid) = acts cid (handle-Moves env cid sender s request)

  -- Whatever the request and however it arrives: nothing hosted changes; or one community changes
  -- in a way that the sender's membership, permissions and rank allow; or the sender, who is not
  -- banned, joins one community, or comes back to it with a new route.
  pub dispatch_request-Transition :
      (request : CommunityRequest) (incoming : Option ℕ) (ipc : Option String)
      → Transition env sender s (dispatch_request env sender request incoming ipc s).0
  unfolding dispatch_request
  dispatch_request-Transition (CommunityRequest.join p name route) incoming ipc =
      elim (Bool-cases (not (str_eq p sender))) [
        | inl e ↦ rw e (acts "" (still refl))
        | inr e ↦ rw e (handle_join-Transition env sender name route s incoming ipc)
      ]
  dispatch_request-Transition request incoming ipc =
      dispatch_resolved-Transition request (resolve_community_id s.hosted sender incoming ipc)
