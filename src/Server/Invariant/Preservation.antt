-- ===== src/Server/Invariant/Preservation.antt =====
-- The invariant through whole requests, and through any sequence of them.
use rekindle.Base.{ℕ, String, Option, some, ◌≡◌, sym, get, modify, All}
use mathlib.Core.Path.{subst}
use rekindle.Server.State.{HostedCommunity}
use rekindle.Server.Protocol.{CommunityRequest}
use rekindle.Server.Store.{Database}
use rekindle.Server.Core.{Env, Server}
use rekindle.Server.Join.{is_empty, rejoined, with_member}
use rekindle.Server.Dispatch.{dispatch_request}
use rekindle.Server.Authority.{still, moved, Transition, acts, returns, joins}
use rekindle.Server.Authority.Admission.{dispatch_request-Transition}
use rekindle.Server.Invariant.{IsValid, AllValid, HasIds, AllHaveIds}
use rekindle.Server.Invariant.Lists.{All-modify, All-get}
use rekindle.Server.Invariant.Changes.{Allowed-IsValid, rejoined-IsValid, with_member-IsValid}

module _ {D : Database} (env : Env) (sender : String) (s : Server D) (valid : AllValid s) where
  -- The map of communities after one of them changed.
  changed :
      (s' : Server D) (cid : String) (c : HostedCommunity) (f : HostedCommunity → HostedCommunity)
      → get cid s.hosted ≡ some c
      → s'.hosted ≡ modify cid f s.hosted
      → (IsValid c → IsValid (f c))
      → AllValid s'
  changed s' cid c f e h kept =
      subst (All (λ (x : String × HostedCommunity). IsValid x.1)) (sym h)
        (All-modify IsValid cid f c s.hosted e kept valid)

  unchanged : (s' : Server D) → s'.hosted ≡ s.hosted → AllValid s'
  unchanged s' h = subst (All (λ (x : String × HostedCommunity). IsValid x.1)) (sym h) valid

  Transition-AllValid : (s' : Server D) → AllHaveIds s → Transition env sender s s' → AllValid s'
  Transition-AllValid s' ids (acts cid (still h)) = unchanged s' h
  Transition-AllValid s' ids (acts cid (moved c f e h a)) =
      changed s' cid c f e h
        λ v. Allowed-IsValid c v env sender (f c) (All-get HasIds cid c s.hosted e ids) a
  Transition-AllValid s' ids (returns cid c route e free h) =
      changed s' cid c (rejoined route sender) e h λ v. rejoined-IsValid c v route sender
  Transition-AllValid s' ids (joins cid name c route e free new h) =
      changed s' cid c (with_member env sender name route (is_empty c.members)) e h
        λ v. with_member-IsValid c v env sender name route (is_empty c.members) new

  -- Whatever the request, as long as a role id is left in 32 bits: after it, in every hosted
  -- community, no key stands twice in the roster, no id twice among the roles, @everyone is defined,
  -- and every member holds it, if all this held before.
  pub dispatch_request-AllValid :
      (request : CommunityRequest) (incoming : Option ℕ) (ipc : Option String)
      → AllHaveIds s
      → AllValid (dispatch_request env sender request incoming ipc s).0
  dispatch_request-AllValid request incoming ipc ids =
      Transition-AllValid _ ids (dispatch_request-Transition env sender s request incoming ipc)
