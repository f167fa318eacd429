-- ===== src/Server/Guards/Rules.antt =====
-- To prove a property of a handler's outcome, prove it of each refusal and of what comes after the
-- guards, knowing that they passed.
use rekindle.Base.{
  ℕ, String, Bool, true, false, Option, none, some, ◌≡◌, refl, get, ◌⊎◌, inl, inr, Option-cases,
  Bool-cases,
}
use rekindle.Server.State.{HostedCommunity}
use rekindle.Server.Protocol.{CommunityResponse, error}
use rekindle.Server.Store.{Database}
use rekindle.Server.Core.{
  Env, Server, Handled, Check, pass, refuse, require, found, ◌>>=◌, settle, checks,
}
use rekindle.Server.Guards.{
  authorise, belongs, is_permitted, outranks, verify_membership, check_permission, check_hierarchy,
}

-- Either it refuses, or the community is hosted, the sender belongs to it and has the permission.
pub authorise-cases :
    {D : Database} (env : Env) (cid sender : String) (required : ℕ) (s : Server D)
    → ((r : CommunityResponse) × (authorise env cid sender required s ≡ refuse r))
      ⊎ ((c : HostedCommunity) × (get cid s.hosted ≡ some c)
          × (belongs c sender ≡ true)
          × (is_permitted env c sender required ≡ true)
          × (authorise env cid sender required s ≡ pass c))
unfolding authorise verify_membership check_permission checks
authorise-cases env cid sender required s = elim (Option-cases (get cid s.hosted)) [
  | inl e ↦ inl (error 404 "community not found", rw e)
  | inr (c, e) ↦ elim (Bool-cases (belongs c sender)) [
    | inr b ↦ inl (error 403 "not a member", rw (e, b))
    | inl b ↦ elim (Bool-cases (is_permitted env c sender required)) [
      | inr p ↦ inl (error 403 "insufficient permissions", rw (e, b, p))
      | inl p ↦ inr (c, e, b, p, rw (e, b, p))
    ]
  ]
]

module _ {ℓ} {D : Database} (P : Handled D → Type ℓ) (s : Server D)
    (refused : (r : CommunityResponse) → P (s, r)) where
  pub after_require :
      (b : Bool) (code : ℕ) (message : String) (k : Check (Handled D))
      → (b ≡ true → P (settle s k))
      → P (settle s (require b code message >>= λ _. k))
  unfolding checks
  after_require true code message k h = h refl
  after_require false code message k h = refused _

  pub after_found {κ} :
      {A : Type κ} (o : Option A) (code : ℕ) (message : String) (k : A → Check (Handled D))
      → ((a : A) → o ≡ some a → P (settle s (k a)))
      → P (settle s (found o code message >>= k))
  unfolding checks
  after_found none code message k h = refused _
  after_found (some a) code message k h = h a refl

  pub after_pass : (r : Handled D) → P r → P (settle s (pass r))
  unfolding checks
  after_pass r h = h

  pub after_membership :
      (c : HostedCommunity) (sender : String) (k : Check (Handled D))
      → (belongs c sender ≡ true → P (settle s k))
      → P (settle s (verify_membership c sender >>= λ _. k))
  unfolding verify_membership
  after_membership c sender k h = after_require _ _ _ k h

  pub after_permission :
      (env : Env) (c : HostedCommunity) (sender : String) (required : ℕ) (k : Check (Handled D))
      → (is_permitted env c sender required ≡ true → P (settle s k))
      → P (settle s (check_permission env c sender required >>= λ _. k))
  unfolding check_permission
  after_permission env c sender required k h = after_require _ _ _ k h

  pub after_hierarchy :
      (c : HostedCommunity) (sender target : String) (k : Check (Handled D))
      → (outranks c sender target ≡ true → P (settle s k))
      → P (settle s (check_hierarchy c sender target >>= λ _. k))
  unfolding check_hierarchy
  after_hierarchy c sender target k h = after_require _ _ _ k h

  pub after_authorise :
      (env : Env) (cid sender : String) (required : ℕ) (k : HostedCommunity → Check (Handled D))
      → ((c : HostedCommunity)
          → get cid s.hosted ≡ some c
          → belongs c sender ≡ true
          → is_permitted env c sender required ≡ true
          → P (settle s (k c)))
      → P (settle s (authorise env cid sender required s >>= k))
  unfolding checks
  after_authorise env cid sender required k h = elim (authorise-cases env cid sender required s) [
    | inl (r, e) ↦ rw e (refused r)
    | inr (c, e, b, p, passed) ↦ rw passed (h c e b p)
  ]
