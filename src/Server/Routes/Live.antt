-- ===== src/Server/Routes/Live.antt =====
-- After a change of routes no community is left with a dead one.
use rekindle.Base.{
  ℕ, ◌==◌, if◌then◌else◌, String, str_eq, eq_iff, Bool, true, false, List, [], ◌∷◌, Option, none,
  some, any, get, modify, get-modify, modify-modify, ◌≡◌, ◌⊎◌, refl, sym, ap, ◌∙◌, arith,
  Bool-cases, Option-cases, inl, inr,
}
use mathlib.Core.Path.{subst}
use mathlib.Core.Option
use mathlib.Core.Option.{some-injective}
use rekindle.Server.State.{HostedCommunity}
use rekindle.Server.Store.{Database}
use rekindle.Server.Core.{Server, change}
use rekindle.Server.Routes.{
  Veilid, is_dead, affected, reroute_each, rerouted, handle_server_route_change, with_route,
  without_route, without_route_id,
}

-- A community is found under its own id.
abbrev pub Named : {D : Database} → Server D → Type 0
Named s = (j : String) (c : HostedCommunity) → get j s.hosted ≡ some c → c.community_id ≡ j

abbrev waits : String → List (String × String) → Bool
waits j es = any (λ (e : String × String). str_eq e.0 j) es

abbrev Affects : List ℕ → String → HostedCommunity → List (String × HostedCommunity) → Type 0
Affects dead j c m =
    get j m ≡ some c
    → c.community_id ≡ j
    → is_dead dead c.route_id ≡ true
    → waits j (affected dead m) ≡ true

affected-get :
    (dead : List ℕ) (j : String) (c : HostedCommunity) (m : List (String × HostedCommunity))
    → Affects dead j c m
unfolding affected
affected-get dead j c [] e n d = ground arith
affected-get dead j c ((k, x) ∷ m) e n d = elim (Bool-cases (str_eq k j)) [
  | inl here ↦
      let same : x ≡ c = some-injective x c (rw here at e) in
      rw (same, d, (eq_iff c.community_id j).1 n) refl
  | inr there ↦ let rest = affected-get dead j c m (rw there at e) n d in ground (arith, rest)
]

module _ {D : Database} (V : Veilid) (dead : List ℕ) where
  abbrev LiveRoutes : Server D → Type 0
  LiveRoutes s =
      (j : String) (c : HostedCommunity) → get j s.hosted ≡ some c → is_dead dead c.route_id ≡ false

  -- The route is not dead, or the community is still to be visited.
  abbrev LiveOrWaits : List (String × String) → Server D → Type 0
  LiveOrWaits es s =
      (j : String) (c : HostedCommunity)
      → get j s.hosted ≡ some c
      → (is_dead dead c.route_id ≡ false) ⊎ (waits j es ≡ true)

  module _
      (fresh : (cid : String) (id : ℕ) (blob : List ℕ)
        → V.new_private_route cid ≡ some (id, blob)
        → any (λ d. d == id) dead ≡ false) where
    -- What a visit does to the map.
    hosted-rerouted :
        (cid key : String) (o : Option (ℕ × List ℕ)) (s : Server D)
        → V.new_private_route cid ≡ o
        → (f : HostedCommunity → HostedCommunity) × ((rerouted V cid key o
              (change cid without_route_id s)).hosted
            ≡ modify cid f s.hosted)
          × ((c : HostedCommunity) → is_dead dead (f c).route_id ≡ false)
    hosted-rerouted cid key none s e =
        (λ c. without_route (without_route_id c), modify-modify cid _ _ s.hosted, λ c. refl)
    hosted-rerouted cid key (some (id, blob)) s e = (
      λ c. with_route id blob (without_route_id c),
      modify-modify cid _ _ s.hosted,
      λ c. fresh cid id blob e,
    )

    visited :
        (cid key : String) (es : List (String × String)) (s : Server D)
        → LiveOrWaits ((cid, key) ∷ es) s
        → LiveOrWaits es
            (rerouted V cid key (V.new_private_route cid) (change cid without_route_id s))
    visited cid key es s h j c e =
        let (f, m, live) = hosted-rerouted cid key (V.new_private_route cid) s refl in
        let found : (if str_eq cid j then Option.map f (get j s.hosted) else get j s.hosted)
            ≡ some c =
          sym (get-modify cid j f s.hosted) ∙ (sym (ap (get j) m) ∙ e) in
        elim (Bool-cases (str_eq cid j)) [
          | inl same ↦ elim (Option-cases (get j s.hosted)) [
            | inl n ↦ ground (arith, rw (same, n) at found)
            | inr (x, n) ↦ inl (
                subst (λ y. is_dead dead y.route_id ≡ false)
                  (some-injective (f x) c (rw (same, n) at found)) (live x))
          ]
          | inr other ↦ elim (h j c (rw other at found)) [
            | inl alive ↦ inl alive
            | inr w ↦ inr (rw other at w)
          ]
        ]

    reroute_each-LiveRoutes :
        (es : List (String × String)) (s : Server D)
        → LiveOrWaits es s
        → LiveRoutes (reroute_each V es s)
    unfolding reroute_each
    reroute_each-LiveRoutes [] s h =
        λ j c e. elim (h j c e) [ inl live ↦ live | inr w ↦ ground (arith, w) ]
    reroute_each-LiveRoutes ((cid, key) ∷ es) s h =
        reroute_each-LiveRoutes es _ (visited cid key es s h)

    -- When Veilid reports dead routes, no community that is hosted afterwards has one of them as its
    -- route. Communities are found under their own ids, and no route that is allocated is among the
    -- dead ones.
    pub handle_server_route_change-LiveRoutes :
        (s : Server D) (j : String) (c : HostedCommunity)
        → Named s
        → get j (handle_server_route_change V dead s).hosted ≡ some c
        → is_dead dead c.route_id ≡ false
    unfolding handle_server_route_change
    handle_server_route_change-LiveRoutes s j' c' named =
        (reroute_each-LiveRoutes (affected dead s.hosted) s λ j c e.
            elim (Bool-cases (is_dead dead c.route_id)) [
              | inl d ↦ inr (affected-get dead j c s.hosted e (named j c e) d)
              | inr live ↦ inl live
            ])
          j' c'
