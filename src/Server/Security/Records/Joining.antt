-- ===== src/Server/Security/Records/Joining.antt =====
-- Joining and coming back leave a ban on record (crates/rekindle-server/src/rpc.rs).
use rekindle.Base.{
  ℕ, if◌then◌else◌, Bool, true, false, String, List, [], ◌∷◌, Option, none, some, refl, ◌∙◌, get,
}
use rekindle.Server.Protocol.{CommunityResponse}
use rekindle.Server.Store.{Database}
use rekindle.Server.Store.Laws.{IsLawful}
use rekindle.Server.Core.{Env, Server, Handled}
use rekindle.Server.Effects.Frame.{broadcast_to_members-Same, publish_member_roster-Same}
use rekindle.Server.Security.Records.{Banned, kept, stored}
use rekindle.Server.Protocol.{error}
use rekindle.Server.Join.{
  handle_join, handle_admission, handle_rejoin, add_new_member, store_member, store_roles,
  store_route, store_creator, welcome, default_role_ids, is_hosted, unknown_over_ipc,
}
use rekindle.Server.Guards.{or_else, by_route, find_member}

pub after_option :
    {A : Type 0} {B : Type 0} (P : B → Type 0) (o : Option A) (n : B) (f : A → B)
    → P n
    → ((a : A) → P (f a))
    → P (elim o as (λ _. B) [ none ↦ n | some a ↦ f a ])
after_option P none n f pn pf = pn
after_option P (some a) n f pn pf = pf a

after_if : {B : Type 0} (P : B → Type 0) (b : Bool) (x y : B) → P x → P y → P (if b then x else y)
after_if P true x y px py = px
after_if P false x y px py = py

module _ {D : Database} (lawful : IsLawful D) (bcid p : String) where
  store_roles-Banned :
      (k q : String) (rids : List ℕ) (t : Server D)
      → Banned lawful bcid p t.db
      → Banned lawful bcid p (store_roles k q rids t).db
  unfolding store_roles
  store_roles-Banned k q [] t g = g
  store_roles-Banned k q (rid ∷ rids) t g =
      store_roles-Banned k q rids _ (stored lawful bcid p _ t.db refl g)

  store_route-Banned :
      (k q : String) (route : Option (List ℕ)) (t : Server D)
      → Banned lawful bcid p t.db
      → Banned lawful bcid p (store_route k q route t).db
  unfolding store_route
  store_route-Banned k q none t g = g
  store_route-Banned k q (some blob) t g = stored lawful bcid p _ t.db refl g

  store_creator-Banned :
      (first : Bool) (k q : String) (t : Server D)
      → Banned lawful bcid p t.db
      → Banned lawful bcid p (store_creator first k q t).db
  unfolding store_creator
  store_creator-Banned true k q t g = stored lawful bcid p _ t.db refl g
  store_creator-Banned false k q t g = g

  store_member-Banned :
      (env : Env) (k q name : String) (first : Bool) (t : Server D)
      → Banned lawful bcid p t.db
      → Banned lawful bcid p (store_member env k q name first t).db
  unfolding store_member
  store_member-Banned env k q name first t g =
      store_roles-Banned k q (default_role_ids first) _ (stored lawful bcid p _ t.db refl g)

  module _ (env : Env) (k q name : String) (route : Option (List ℕ)) (s : Server D)
      (h : Banned lawful bcid p s.db) where
    added-Banned : Banned lawful bcid p (add_new_member env k q name route s).0.db
    unfolding add_new_member
    added-Banned =
        after_option (λ (r : Server D × Option CommunityResponse). Banned lawful bcid p r.0.db)
          (get k s.hosted) _ _ (store_member-Banned env k q name _ s h)
          λ c.
            store_route-Banned c.community_id q route _
              (store_creator-Banned _ k q _ (store_member-Banned env k q name _ s h))

    welcome-Banned :
        (first : Bool) (r : Server D × Option CommunityResponse)
        → Banned lawful bcid p r.0.db
        → Banned lawful bcid p (welcome k q name first r).0.db
    unfolding welcome
    welcome-Banned first (t, none) g = g
    welcome-Banned first (t, some response) g =
        kept lawful bcid p
          ((broadcast_to_members-Same k q _ _).1 ∙ (publish_member_roster-Same k t).1) g

    -- Nothing, or a result that leaves the ban.
    abbrev BackKept : Option (Handled D) → Type 0
    BackKept none = Unit
    BackKept (some r) = Banned lawful bcid p r.0.db

    rejoin-Banned : BackKept (handle_rejoin k q route s)
    unfolding handle_rejoin
    rejoin-Banned =
        after_option BackKept (get k s.hosted) _ _ tt
          λ c. after_option BackKept (find_member c q) _ _ tt λ m. store_route-Banned k q route _ h

    admitted :
        (o : Option (Handled D)) (r : Handled D)
        → BackKept o
        → Banned lawful bcid p r.0.db
        → Banned lawful bcid p (elim o as (λ _. Handled D) [ some back ↦ back | none ↦ r ]).0.db
    admitted none r b g = g
    admitted (some back) r b g = b

    admission-Banned : Banned lawful bcid p (handle_admission env k q name route s).0.db
    unfolding handle_admission
    admission-Banned =
        admitted (handle_rejoin k q route s) _ rejoin-Banned (welcome-Banned _ _ added-Banned)

  module _ (env : Env) (q name : String) (route : Option (List ℕ)) (s : Server D)
      (h : Banned lawful bcid p s.db) where
    pub join-Banned :
        (incoming : Option ℕ) (ipc : Option String)
        → Banned lawful bcid p (handle_join env q name route incoming ipc s).0.db
    unfolding handle_join
    join-Banned incoming ipc =
        after_option (λ (r : Handled D). Banned lawful bcid p r.0.db)
          (or_else ipc (by_route s.hosted incoming))
          (s, error 404 "no hosted community matches this route")
          (λ k.
            if unknown_over_ipc ipc (is_hosted (get k s.hosted))
            then (s, error 404 "community not found")
            else if D.banned s.db k q
            then (s, error 403 "you are banned from this community")
            else handle_admission env k q name route s)
          h
          λ k.
            after_if (λ (r : Handled D). Banned lawful bcid p r.0.db)
              (unknown_over_ipc ipc (is_hosted (get k s.hosted)))
              (s, error 404 "community not found")
              (if D.banned s.db k q
                then (s, error 403 "you are banned from this community")
                else handle_admission env k q name route s)
              h
              (after_if (λ (r : Handled D). Banned lawful bcid p r.0.db) (D.banned s.db k q)
                (s, error 403 "you are banned from this community")
                (handle_admission env k q name route s) h (admission-Banned env k q name route s h))
