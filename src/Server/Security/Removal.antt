-- ===== src/Server/Security/Removal.antt =====
-- What has to happen when a member goes (crates/rekindle-server/src/rpc.rs and mek.rs): rank, and a
-- new key.
use mathlib.Core.Option.{some-injective}
use mathlib.Core.Path.{subst}
use rekindle.Base.{
  String, Bool, true, false, not, List, [], ◌∷◌, none, some, ◌≡◌, ◌⊎◌, inl, inr, refl, sym, ap, ◌∙◌,
  arith, get, any, retain, get-modify_self, str_eq, eq_iff,
}
use rekindle.Base.Distinct.{any-update_first, any-map}
use rekindle.Server.State.{HostedCommunity, ServerMember}
use rekindle.Server.Core.{Env, Server}
use rekindle.Server.Store.{Database}
use rekindle.Server.Protocol.{CommunityRequest}
use rekindle.Server.Guards.{is_member, outranks}
use rekindle.Server.Keys.{with_key, next_generation}
use rekindle.Server.Departure.{without_member}
use rekindle.Server.Roles.{edit_member, drop_role_id, push_role_id}
use rekindle.Server.Timeouts.{set_timeout}
use rekindle.Server.Dispatch.{handle}
use rekindle.Server.Authority.{
  Moves, still, moved, Allowed, leaves, removes, rotates, renames, adds_channel, drops_channel,
  names_channel, sets_overwrites, adds_role, edits_role, drops_role, assigns_role, unassigns_role,
  times_out, ends_timeout,
}
use rekindle.Server.Authority.Refine.{handle-Moves}

-- In the roster, by the key.
abbrev pub present : String → HostedCommunity → Bool
present p c = any (is_member p) c.members

-- A change of the community that takes nobody else out of the roster than it may, and never without
-- a new key.
pub record Guarded (env : Env) (sender : String) (c c' : HostedCommunity) : Type 0 where
  pub generation : (c'.mek.generation ≡ c.mek.generation) ⊎ (c'.mek.generation ≡ next_generation c)
  pub rekeyed :
      (p : String)
      → present p c ≡ true
      → present p c' ≡ false
      → (c'.mek.generation ≡ next_generation c) × (c'.mek.key ≡ env.random_key)
  pub ranked :
      (p : String)
      → present p c ≡ true
      → present p c' ≡ false
      → (p ≡ sender) ⊎ (outranks c sender p ≡ true)

module _ (env : Env) (sender : String) (c : HostedCommunity) where
  -- Where the roster's keys stay, whatever becomes of the key.
  kept :
      {c' : HostedCommunity}
      → ((c'.mek.generation ≡ c.mek.generation) ⊎ (c'.mek.generation ≡ next_generation c))
      → ((p : String) → present p c' ≡ present p c)
      → Guarded env sender c c'
  kept g same = record {
    generation = g;
    rekeyed = λ p here gone. cc (same p);
    ranked = λ p here gone. cc (same p);
  }

  retain-others :
      (p q : String) (ms : List ServerMember)
      → any (is_member p) ms ≡ true
      → any (is_member p) (retain (λ m. not (is_member q m)) ms) ≡ false
      → p ≡ q
  retain-others p q [] here gone = cc
  retain-others p q (m ∷ ms) here gone =
      ground
        (arith, eq_iff m.pseudonym_key_hex p, eq_iff m.pseudonym_key_hex q, retain-others p q ms)

  expelled :
      (target : String)
      → (target ≡ sender) ⊎ (outranks c sender target ≡ true)
      → Guarded env sender c (with_key env (without_member target c))
  expelled target rank = record {
    generation = inr refl;
    rekeyed = λ p here gone. (refl, refl);
    ranked = λ p here gone.
        subst (λ q. (q ≡ sender) ⊎ (outranks c sender q ≡ true))
          (sym (retain-others p target c.members here gone)) rank;
  }

  edited :
      (target : String) (f : ServerMember → ServerMember)
      → ((m : ServerMember) → (f m).pseudonym_key_hex ≡ m.pseudonym_key_hex)
      → Guarded env sender c (edit_member target f c)
  edited target f same = kept (inl refl) λ p.
      any-update_first f (is_member p) (is_member target) c.members
        (λ m. ap (λ k. str_eq k p) (same m))

  pub Allowed-Guarded : (c' : HostedCommunity) → Allowed env sender c c' → Guarded env sender c c'
  Allowed-Guarded c' (leaves b e) = rw e (expelled sender (inl refl))
  Allowed-Guarded c' (removes target m b e) = rw e (expelled target (inr m.higher))
  Allowed-Guarded c' (rotates m e) = rw e (kept (inr refl) (λ p. refl))
  Allowed-Guarded c' (renames n d m e) = rw e (kept (inl refl) (λ p. refl))
  Allowed-Guarded c' (adds_channel ch m e) = rw e (kept (inl refl) (λ p. refl))
  Allowed-Guarded c' (drops_channel ch m e) = rw e (kept (inl refl) (λ p. refl))
  Allowed-Guarded c' (names_channel ch n m e) = rw e (kept (inl refl) (λ p. refl))
  Allowed-Guarded c' (sets_overwrites ch f m e) = rw e (kept (inl refl) (λ p. refl))
  Allowed-Guarded c' (adds_role r m i e) = rw e (kept (inl refl) (λ p. refl))
  Allowed-Guarded c' (edits_role rid r n co pe po h me m f k e) = rw e (kept (inl refl) (λ p. refl))
  Allowed-Guarded c' (drops_role rid ne m b e) =
      rw e (kept (inl refl) (λ p. any-map (drop_role_id rid) (is_member p) c.members (λ m. refl)))
  Allowed-Guarded c' (assigns_role rid target m o b e) =
      rw e (edited target (push_role_id rid) (λ m. ground arith))
  Allowed-Guarded c' (unassigns_role rid target ne m o e) =
      rw e (edited target (drop_role_id rid) (λ m. refl))
  Allowed-Guarded c' (times_out until target m o e) =
      rw e (edited target (set_timeout (some until)) (λ m. refl))
  Allowed-Guarded c' (ends_timeout target m e) = rw e (edited target (set_timeout none) (λ m. refl))

module _ {D : Database} (env : Env) (cid sender : String) (s : Server D) (c : HostedCommunity) where
  Moves-Guarded :
      (s' : Server D)
      → get cid s.hosted ≡ some c
      → Moves env cid sender s s'
      → (c' : HostedCommunity) × (get cid s'.hosted ≡ some c') × Guarded env sender c c'
  Moves-Guarded s' e (still h) = (c, ap (get cid) h ∙ e, kept env sender c (inl refl) (λ p. refl))
  Moves-Guarded s' e (moved d f g h a) =
      let same : d ≡ c = some-injective d c (sym g ∙ e) in
      (
        f c,
        ap (get cid) h ∙ get-modify_self cid f s.hosted c e,
        Allowed-Guarded env sender c (f c) (subst (λ x. Allowed env sender x (f x)) same a),
      )

  -- After any request but `Join` the community is still hosted. Its key generation is the old one or
  -- the next one. If somebody has gone from the roster, the generation is the next one and the key is
  -- the fresh random one; and it was the sender, or somebody whom the sender outranks.
  pub removal_guarded :
      (request : CommunityRequest)
      → get cid s.hosted ≡ some c
      → (c' : HostedCommunity) × (get cid (handle env cid sender request s).0.hosted ≡ some c')
        × Guarded env sender c c'
  removal_guarded request e = Moves-Guarded _ e (handle-Moves env cid sender s request)
