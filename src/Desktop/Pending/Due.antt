-- ===== src/Desktop/Pending/Due.antt =====
-- Which messages of the queue are still to be tried, while it is gone through.
use rekindle.Base.{
  ℕ, suc, ◌≤◌, ◌==◌, String, str_eq, Bool, true, false, List, [], ◌∷◌, map, retain, any, All, ◌≡◌,
  ◌⊎◌, refl, sym, arith, Bool-cases, inl, inr,
}
use mathlib.Core.Path.{subst}
use rekindle.Desktop.Pending.{PendingMessage, without_id, retried}

module _ (own : String) where
  abbrev pub Owned : PendingMessage → Type 0
  Owned r = str_eq r.owner_key own ≡ true

  abbrev pub listed : ℕ → List PendingMessage → Bool
  listed id ms = any (λ (m : PendingMessage). m.id == id) ms

  -- Tried so often, or once less and still to be visited.
  abbrev pub Due : ℕ → List PendingMessage → PendingMessage → Type 0
  Due k ms r = Owned r → (suc k ≤ r.retry_count) ⊎ ((k ≤ r.retry_count) × (listed r.id ms ≡ true))

  -- Still to be visited.
  abbrev pub Awaits : List PendingMessage → PendingMessage → Type 0
  Awaits ms r = Owned r → listed r.id ms ≡ true

  pub without_id-Due :
      (k : ℕ) (m : PendingMessage) (ms rows : List PendingMessage)
      → All (Due k (m ∷ ms)) rows
      → All (Due k ms) (without_id m.id rows)
  without_id-Due k m ms [] h = tt
  without_id-Due k m ms (r ∷ rows) h =
      let rest = without_id-Due k m ms rows h.1 in
      elim (Bool-cases (r.id == m.id)) [
        | inl e ↦ rw e rest
        | inr e ↦ rw e (
          (λ o. elim (h.0 o) [ inl d ↦ inl d | inr (d, l) ↦ inr (d, ground (arith, e, l)) ]),
          rest,
        )
      ]

  once_more :
      (k : ℕ) (m : PendingMessage) (ms : List PendingMessage) (r : PendingMessage)
      → Due k (m ∷ ms) r
      → Due k ms (retried m.id r)
  once_more k m ms r h o = elim (Bool-cases (r.id == m.id)) [
    | inl e ↦ rw e (inl (elim (h o) [ inl d ↦ omega (arith, d) | inr (d, l) ↦ omega (arith, d) ]))
    | inr e ↦ rw e (elim (h o) [ inl d ↦ inl d | inr (d, l) ↦ inr (d, ground (arith, e, l)) ])
  ]

  pub retried-Due :
      (k : ℕ) (m : PendingMessage) (ms rows : List PendingMessage)
      → All (Due k (m ∷ ms)) rows
      → All (Due k ms) (map (retried m.id) rows)
  retried-Due k m ms [] h = tt
  retried-Due k m ms (r ∷ rows) h = (once_more k m ms r h.0, retried-Due k m ms rows h.1)

  pub without_id-Awaits :
      (m : PendingMessage) (ms rows : List PendingMessage)
      → All (Awaits (m ∷ ms)) rows
      → All (Awaits ms) (without_id m.id rows)
  without_id-Awaits m ms [] h = tt
  without_id-Awaits m ms (r ∷ rows) h =
      let rest = without_id-Awaits m ms rows h.1 in
      elim (Bool-cases (r.id == m.id)) [
        | inl e ↦ rw e rest
        | inr e ↦ rw e ((λ o. ground (arith, h.0 o, e)), rest)
      ]

  abbrev pub AtLeast : ℕ → PendingMessage → Type 0
  AtLeast k r = Owned r → k ≤ r.retry_count

  abbrev pub owned : List PendingMessage → List PendingMessage
  owned rows = retain (λ (r : PendingMessage). str_eq r.owner_key own) rows

  All-Awaits :
      (x : PendingMessage) (ms rows : List PendingMessage)
      → All (Awaits ms) rows
      → All (Awaits (x ∷ ms)) rows
  All-Awaits x ms [] h = tt
  All-Awaits x ms (r ∷ rows) h = ((λ o. ground (arith, h.0 o)), All-Awaits x ms rows h.1)

  pub owned-Awaits : (rows : List PendingMessage) → All (Awaits (owned rows)) rows
  owned-Awaits [] = tt
  owned-Awaits (r ∷ rows) = elim (Bool-cases (str_eq r.owner_key own)) [
    | inl e ↦
        let here : owned (r ∷ rows) ≡ r ∷ owned rows = rw e refl in
        subst (λ ms. All (Awaits ms) (r ∷ rows)) (sym here)
          ((λ o. ground arith), All-Awaits r (owned rows) rows (owned-Awaits rows))
    | inr e ↦
        let there : owned (r ∷ rows) ≡ owned rows = rw e refl in
        subst (λ ms. All (Awaits ms) (r ∷ rows)) (sym there)
          ((λ o. ground (arith, e, o)), owned-Awaits rows)
  ]

  pub first-Due :
      (k : ℕ) (ms rows : List PendingMessage)
      → All (AtLeast k) rows
      → All (Awaits ms) rows
      → All (Due k ms) rows
  first-Due k ms [] h a = tt
  first-Due k ms (r ∷ rows) h a = ((λ o. inr (h.0 o, a.0 o)), first-Due k ms rows h.1 a.1)

  pub last-Due :
      (k : ℕ) (rows : List PendingMessage) → All (Due k []) rows → All (AtLeast (suc k)) rows
  last-Due k [] h = tt
  last-Due k (r ∷ rows) h =
      ((λ o. elim (h.0 o) [ inl d ↦ d | inr (d, l) ↦ ground (arith, l) ]), last-Due k rows h.1)

  pub none_left :
      (rows : List PendingMessage)
      → All (Awaits []) rows
      → any (λ (r : PendingMessage). str_eq r.owner_key own) rows ≡ false
  none_left [] h = refl
  none_left (r ∷ rows) h = elim (Bool-cases (str_eq r.owner_key own)) [
    | inl e ↦ let l = h.0 e in ground (arith, l)
    | inr e ↦ rw e (none_left rows h.1)
  ]

  pub exhausted :
      (k : ℕ) (rows : List PendingMessage)
      → All (AtLeast k) rows
      → All (λ (m : PendingMessage). k ≤ m.retry_count) (owned rows)
  exhausted k [] h = tt
  exhausted k (r ∷ rows) h = elim (Bool-cases (str_eq r.owner_key own)) [
    | inl e ↦ rw e (h.0 e, exhausted k rows h.1)
    | inr e ↦ rw e (exhausted k rows h.1)
  ]
