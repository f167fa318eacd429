-- ===== src/Desktop/Keys/Cached.antt =====
-- The key that a client keeps, and what is encrypted with it.
use rekindle.Base.{
  ℕ, String, str_eq, eq_iff, List, [], ◌∷◌, ◌++◌, ltb, leb, false, true, length, length-append,
  some, get, modify, get-put_self, ◌≡◌, refl, ap, arith, Bool-cases, inl, inr,
}
use mathlib.Core.Path.{subst}
use mathlib.Core.Option.{some-injective}
use rekindle.Base.Bytes.{le_bytes, length-le_bytes, take, drop, take-append, drop-append}
use rekindle.Base.Results.{Result, failed, done, map_err-done}
use rekindle.Signal.{Primitives, CryptoError, IsSound}
use rekindle.Server.State.{MediaEncryptionKey}
use rekindle.Server.Protocol.{mek}
use rekindle.Desktop.Keys.{
  encrypt, decrypt, with_nonce, Client, Setting, Membership, received_key, has_channel,
  find_community, with_generation, keep_key, persist_mek, fetch_mek_from_server,
}

take-length : (xs : List ℕ) → take (length xs) xs ≡ xs
take-length [] = refl
take-length (x ∷ xs) = ap (λ ys. x ∷ ys) (take-length xs)

module _ (C : Primitives) (sound : IsSound C) where
  with_nonce-done :
      (nonce out : List ℕ) (r : Result CryptoError (List ℕ))
      → with_nonce nonce r ≡ done out
      → (text : List ℕ) × (r ≡ done text) × (out ≡ nonce ++ text)
  with_nonce-done nonce out (failed why) e = ground (arith, e)
  with_nonce-done nonce out (done text) e = (text, refl, ground (arith, e))

  pub decrypt-encrypt :
      (nonce : List ℕ) (k : MediaEncryptionKey) (text out : List ℕ)
      → length nonce ≡ 12
      → encrypt C nonce k text ≡ done out
      → decrypt C k out ≡ done text
  unfolding encrypt decrypt
  decrypt-encrypt nonce k text out twelve e =
      let (body, ok, whole) = with_nonce-done nonce out _ e in
      let made : C.encrypt k.key nonce text ≡ done body = map_err-done _ _ body ok in
      let long : ltb (length out) 12 ≡ false =
        rw (whole, length-append nonce body, twelve) (ground arith) in
      let front : take 12 out ≡ nonce =
        rw whole (subst (λ n. take n (nonce ++ body) ≡ nonce) twelve (take-append nonce body)) in
      let back : drop 12 out ≡ body =
        rw whole (subst (λ n. drop n (nonce ++ body) ≡ body) twelve (drop-append nonce body)) in
      rw (long, front, back, sound.decrypt-encrypt k.key nonce text body made) refl

  pub encrypt-done :
      (nonce : List ℕ) (k : MediaEncryptionKey) (text : List ℕ)
      → length k.key ≡ 32
      → (out : List ℕ) × (encrypt C nonce k text ≡ done out)
  unfolding encrypt
  encrypt-done nonce k text long =
      let (body, made) = sound.encrypt-done k.key nonce text long in (nonce ++ body, rw made refl)

-- The 40 bytes give the key.
pub received-payload :
    (key : List ℕ) (generation : ℕ)
    → length key ≡ 32
    → received_key (le_bytes 8 generation ++ key) generation
      ≡ some (record { key = key; generation = generation })
received-payload key generation long =
    let behind : drop 8 (le_bytes 8 generation ++ key) ≡ key =
      subst (λ n. drop n (le_bytes 8 generation ++ key) ≡ key) (length-le_bytes 8 generation)
        (drop-append (le_bytes 8 generation) key) in
    let whole : take 32 key ≡ key = subst (λ n. take n key ≡ key) long (take-length key) in
    let enough : leb 40 (length (le_bytes 8 generation ++ key)) ≡ true =
      rw (length-append (le_bytes 8 generation) key, length-le_bytes 8 generation, long) refl in
    rw (enough, behind, whole) refl

found_here :
    (channel : String) (communities : List (String × Membership)) (o : String × Membership)
    → find_community channel communities ≡ some o
    → has_channel channel o.1 ≡ true
found_here channel [] o e = ground arith
found_here channel ((j, n) ∷ rest) o e = elim (Bool-cases (has_channel channel n)) [
  | inl h ↦
      let same : (j, n) ≡ o = some-injective (j, n) o (rw h at e) in
      subst (λ (p : String × Membership). has_channel channel p.1 ≡ true) same h
  | inr h ↦ found_here channel rest o (rw h at e)
]

find_community-modify :
    (channel cid : String) (generation : ℕ) (m : Membership)
    (communities : List (String × Membership))
    → get cid communities ≡ some m
    → find_community channel communities ≡ some (cid, m)
    → find_community channel (modify cid (with_generation generation) communities)
      ≡ some (cid, with_generation generation m)
find_community-modify channel cid generation m [] known found = ground (arith, known)
find_community-modify channel cid generation m ((j, n) ∷ rest) known found =
    elim (Bool-cases (str_eq j cid)) [
      | inl e ↦
          let same : n ≡ m = some-injective n m (rw e at known) in
          let here : has_channel channel n ≡ true =
            rw same (found_here channel ((j, n) ∷ rest) (cid, m) found) in
          rw (e, here, same, (eq_iff j cid).0 e) refl
      | inr e ↦ elim (Bool-cases (has_channel channel n)) [
        | inl h ↦
            let same : (j, n) ≡ (cid, m) = some-injective (j, n) (cid, m) (rw h at found) in
            ground (arith, e, eq_iff j cid, ap (λ (p : String × Membership). p.0) same)
        | inr h ↦
            rw (e, h)
              (find_community-modify channel cid generation m rest (rw e at known) (rw h at found))
      ]
    ]

module _ (W : Setting) (cid : String) where
  keep_key-communities :
      (bytes : List ℕ) (s : Client) → (keep_key W cid bytes s).communities ≡ s.communities
  keep_key-communities bytes s = ground arith

  keep_key-cache : (bytes : List ℕ) (s : Client) → (keep_key W cid bytes s).mek_cache ≡ s.mek_cache
  keep_key-cache bytes s = ground arith

  -- After the server's answer its key is cached.
  pub fetch_mek_from_server-cached :
      (k : MediaEncryptionKey) (s : Client)
      → W.reply ≡ some (mek (le_bytes 8 k.generation ++ k.key) k.generation)
      → length k.key ≡ 32
      → get cid (fetch_mek_from_server W cid s).mek_cache ≡ some k
  unfolding fetch_mek_from_server persist_mek
  fetch_mek_from_server-cached k s reply long =
      simp (reply, received-payload k.key k.generation long)
        (rw (keep_key-cache (le_bytes 8 k.generation ++ k.key) _) (get-put_self cid k s.mek_cache))

  -- And the community of a channel has its generation.
  pub fetch_mek_from_server-found :
      (k : MediaEncryptionKey) (s : Client) (m : Membership) (channel : String)
      → W.reply ≡ some (mek (le_bytes 8 k.generation ++ k.key) k.generation)
      → length k.key ≡ 32
      → get cid s.communities ≡ some m
      → find_community channel s.communities ≡ some (cid, m)
      → find_community channel (fetch_mek_from_server W cid s).communities
        ≡ some (cid, with_generation k.generation m)
  unfolding fetch_mek_from_server persist_mek
  fetch_mek_from_server-found k s m channel reply long known found =
      simp (reply, received-payload k.key k.generation long)
        (rw (keep_key-communities (le_bytes 8 k.generation ++ k.key) _)
          (find_community-modify channel cid k.generation m s.communities known found))
