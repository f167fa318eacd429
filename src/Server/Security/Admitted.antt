-- ===== src/Server/Security/Admitted.antt =====
-- What becomes of somebody who is admitted (crates/rekindle-server/src/rpc.rs).
use rekindle.Base.{
  ℕ, Bool, true, String, List, [], ◌∷◌, ◌++◌, Option, none, some, ◌≡◌, refl, ap, sym, ◌∙◌, arith,
  find, update_first, get, modify, get-modify_self, eq_iff, Bool-cases, Option-cases, inl, inr,
}
use mathlib.Core.Option.{some-injective}
use rekindle.Server.State.{HostedCommunity, ServerMember}
use rekindle.Server.Protocol.{CommunityResponse, joined}
use rekindle.Server.Store.{Database}
use rekindle.Server.Core.{Env, Server, Handled, change}
use rekindle.Server.Guards.{find_member, is_member}
use rekindle.Server.Effects.{mek_payload, roles_to_dto, channel_infos, held_roles}
use rekindle.Server.Join.{
  handle_admission, handle_rejoin, add_new_member, build_rejoin_response, welcome, with_member,
  new_member, rejoined, set_route, is_first_member, default_role_ids, store_route,
}
use rekindle.Server.Authority.Admission.{
  hosted-add_new_member, hosted-welcome, handle_rejoin-new, hosted-store_route,
}

module _ {ℓ} {A : Type ℓ} (p : A → Bool) where
  find-append :
      (xs : List A) (a : A) → find p xs ≡ none → p a ≡ true → find p (xs ++ (a ∷ [])) ≡ some a
  find-append [] a e h = rw h refl
  find-append (x ∷ xs) a e h = ground (arith, find-append xs a)

  find-update_first :
      (f : A → A) (xs : List A) (a : A)
      → ((x : A) → p x ≡ true → p (f x) ≡ true)
      → find p xs ≡ some a
      → find p (update_first p f xs) ≡ some (f a)
  find-update_first f [] a kept e = ground (arith, e)
  find-update_first f (x ∷ xs) a kept e = elim (Bool-cases (p x)) [
    | inl h ↦ rw (h, kept x h) (ap (λ y. some (f y)) (some-injective x a (rw h at e)))
    | inr h ↦ rw (h, h) (find-update_first f xs a kept (rw h at e))
  ]

-- The roles that they get: their own where they come back, the default roles where they are new.
abbrev pub roles_given : HostedCommunity → Option ServerMember → List ℕ
roles_given c none = default_role_ids (is_first_member (some c))
roles_given c (some m) = m.role_ids

-- They stand in the roster with these roles, and are sent the key, the channels and the roles.
abbrev pub Admitted : {D : Database} → String → String → HostedCommunity → Handled D → Type 0
Admitted cid p c r =
    (after : HostedCommunity) × (m : ServerMember) × (get cid r.0.hosted ≡ some after)
    × (find_member after p ≡ some m)
    × (m.role_ids ≡ roles_given c (find_member c p))
    × (r.1 ≡ joined (mek_payload c) c.mek.generation (channel_infos c) m.role_ids (roles_to_dto c))

module _ {D : Database} (env : Env) (cid p name : String) (route : Option (List ℕ)) (s : Server D)
    (c : HostedCommunity) (hosted : get cid s.hosted ≡ some c) where
  set_route-is_member :
      (m : ServerMember) → is_member p m ≡ true → is_member p (set_route route m) ≡ true
  set_route-is_member m h = ground (arith, h)

  set_route-roles : (m : ServerMember) → (set_route route m).role_ids ≡ m.role_ids
  set_route-roles m = ground arith

  -- The state and the reply when a member comes back.
  abbrev back : Handled D
  back = (
    store_route cid p route (change cid (rejoined route p) s),
    build_rejoin_response (rejoined route p c) p,
  )

  handle_rejoin-back :
      (m : ServerMember) → find_member c p ≡ some m → handle_rejoin cid p route s ≡ some back
  unfolding handle_rejoin
  handle_rejoin-back m found = rw (hosted, handle_rejoin) (rw found)

  back-Admitted : (m : ServerMember) → find_member c p ≡ some m → Admitted cid p c back
  unfolding build_rejoin_response mek_payload channel_infos roles_to_dto
  back-Admitted m found =
      let still : find_member (rejoined route p c) p ≡ some (set_route route m) =
        find-update_first (is_member p) (set_route route) c.members m set_route-is_member found in
      (
        rejoined route p c,
        set_route route m,
        ap (get cid) (hosted-store_route cid p route _)
            ∙ get-modify_self cid (rejoined route p) s.hosted c hosted,
        still,
        set_route-roles m ∙ sym (ap (roles_given c) found),
        ap
            (λ o.
              joined (mek_payload c) c.mek.generation (channel_infos c) (held_roles o)
                (roles_to_dto c))
            still,
      )

  comes_back :
      (m : ServerMember)
      → find_member c p ≡ some m
      → Admitted cid p c (handle_admission env cid p name route s)
  unfolding handle_admission
  comes_back m found = rw (handle_rejoin-back m found, handle_admission) (back-Admitted m found)

  abbrev first : Bool
  first = is_first_member (some c)

  add_new_member-reply :
      (add_new_member env cid p name route s).1
      ≡ some (
          joined
            (mek_payload c)
            c.mek.generation
            (channel_infos c)
            (default_role_ids first)
            (roles_to_dto c))
  unfolding add_new_member
  add_new_member-reply =
      rw (hosted, add_new_member)
        (ap
          (λ o. some (
            joined (mek_payload c) c.mek.generation (channel_infos c)
              (default_role_ids (is_first_member o)) (roles_to_dto c)))
          hosted)

  welcome-reply :
      (b : Bool) (r : Server D × Option CommunityResponse) (reply : CommunityResponse)
      → r.1 ≡ some reply
      → (welcome cid p name b r).1 ≡ reply
  unfolding welcome
  welcome-reply b (t, none) reply e = ground (arith, e)
  welcome-reply b (t, some response) reply e = some-injective response reply e

  is_new : find_member c p ≡ none → Admitted cid p c (handle_admission env cid p name route s)
  unfolding handle_admission
  is_new absent =
      let made = new_member env p name route first in
      let here : find_member (with_member env p name route first c) p ≡ some made =
        find-append (is_member p) c.members made absent (ground (arith, eq_iff p p)) in
      rw (handle_rejoin-new env p name route s cid c hosted absent, handle_admission)
        (
          with_member env p name route first c,
          made,
          ap (get cid) (
                hosted-welcome env p name route s cid _ _
                ∙ hosted-add_new_member env p name route s cid c hosted
                ∙ ap (λ o. modify cid (with_member env p name route (is_first_member o)) s.hosted)
                    hosted)
              ∙ get-modify_self cid (with_member env p name route first) s.hosted c hosted,
          here,
          sym (ap (roles_given c) absent),
          welcome-reply _ _ _ add_new_member-reply,
        )

  -- Whoever is not barred is a member afterwards, with the roles and the answer of one.
  pub handle_admission-Admitted : Admitted cid p c (handle_admission env cid p name route s)
  handle_admission-Admitted = elim (Option-cases (find_member c p)) [
    | inl absent ↦ is_new absent
    | inr (m, found) ↦ comes_back m found
  ]
