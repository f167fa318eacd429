-- ===== src/Base/Distinct.antt =====
-- Lists in which no two elements are the same by a Boolean test, under the operations of Base.Lists.
use mathlib.Core.Path.{◌≡◌, refl, ap, ◌∙◌}
use mathlib.Core.Bool.{Bool, false, ◌||◌}
use mathlib.Core.List.{List, [], ◌∷◌, ◌++◌, map}
use native.Mathlib.Omega.{arith}
use mathlib.Core.Logic.{inl, inr}
use rekindle.Base.Tests.{Bool-cases}
use rekindle.Base.Lists.{any, retain, update_first}

module _ {ℓ} {A : Type ℓ} where
  abbrev pub Distinct : (A → A → Bool) → List A → Type 0
  Distinct same [] = Unit
  Distinct same (x ∷ xs) = (any (same x) xs ≡ false) × Distinct same xs

  pub any-retain : (q p : A → Bool) (xs : List A) → any q xs ≡ false → any q (retain p xs) ≡ false
  any-retain q p [] h = refl
  any-retain q p (x ∷ xs) h = ground (arith, any-retain q p xs)

  pub Distinct-retain :
      (same : A → A → Bool) (p : A → Bool) (xs : List A)
      → Distinct same xs
      → Distinct same (retain p xs)
  Distinct-retain same p [] h = tt
  Distinct-retain same p (x ∷ xs) h =
      ground (arith, Distinct-retain same p xs h.1, any-retain (same x) p xs)

  pub any-append : (q : A → Bool) (xs ys : List A) → any q (xs ++ ys) ≡ (any q xs || any q ys)
  any-append q [] ys = refl
  any-append q (x ∷ xs) ys = ground (arith, any-append q xs ys)

  -- An element that is the same as none of the others may be added at the end.
  pub Distinct-append :
      (same : A → A → Bool) (swap : (a b : A) → same a b ≡ same b a) (xs : List A) (a : A)
      → Distinct same xs
      → any (same a) xs ≡ false
      → Distinct same (xs ++ (a ∷ []))
  Distinct-append same swap [] a h new = (refl, tt)
  Distinct-append same swap (x ∷ xs) a h new =
      ground (arith, Distinct-append same swap xs a h.1, any-append (same x) xs (a ∷ []), swap x a)

  module _ (f : A → A) where
    pub any-update_first :
        (q p : A → Bool) (xs : List A)
        → ((a : A) → q (f a) ≡ q a)
        → any q (update_first p f xs) ≡ any q xs
    any-update_first q p [] kept = refl
    any-update_first q p (x ∷ xs) kept = ground (arith, any-update_first q p xs kept, kept x)

    pub any-map :
        (q : A → Bool) (xs : List A) → ((a : A) → q (f a) ≡ q a) → any q (map f xs) ≡ any q xs
    any-map q [] kept = refl
    any-map q (x ∷ xs) kept = ground (arith, any-map q xs kept, kept x)

    module _ (same : A → A → Bool) (left : (a : A) → same (f a) ≡ same a)
        (right : (a b : A) → same a (f b) ≡ same a b) where
      pub Distinct-update_first :
          (p : A → Bool) (xs : List A) → Distinct same xs → Distinct same (update_first p f xs)
      Distinct-update_first p [] h = tt
      Distinct-update_first p (x ∷ xs) h = elim (Bool-cases (p x)) [
        | inl e ↦ rw e (ap (λ q. any q xs) (left x) ∙ h.0, h.1)
        | inr e ↦
            rw e (any-update_first (same x) p xs (right x) ∙ h.0, Distinct-update_first p xs h.1)
      ]

      pub Distinct-map : (xs : List A) → Distinct same xs → Distinct same (map f xs)
      Distinct-map [] h = tt
      Distinct-map (x ∷ xs) h = (
        any-map (same (f x)) xs (right (f x)) ∙ ap (λ q. any q xs) (left x) ∙ h.0,
        Distinct-map xs h.1,
      )
