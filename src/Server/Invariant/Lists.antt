-- ===== src/Server/Invariant/Lists.antt =====
-- The list facts behind the invariant of a community.
use rekindle.Base.{
  ℕ, ◌+◌, ◌^◌, ◌<◌, Bool, true, false, List, [], ◌∷◌, ◌++◌, ◌≡◌, refl, sym, arith, any, all, retain,
  map, update_first, Bool-cases, inl, inr, String, str_eq, eq_iff, All, some, get, modify,
}
use mathlib.Core.Option.{some-injective}
use mathlib.Core.Path.{subst}
use rekindle.Permissions.{RoleDefinition}
use rekindle.Server.Roles.{has_id, max_id, next_role_id}

-- An id above all others is new.
pub any-has_id_above :
    (n : ℕ) (roles : List RoleDefinition) → max_id roles < n → any (has_id n) roles ≡ false
unfolding max_id
any-has_id_above n [] h = refl
any-has_id_above n (r ∷ rs) h = ground (arith, any-has_id_above n rs)

pub any-has_id_next :
    (roles : List RoleDefinition)
    → max_id roles + 1 < 2 ^ 32
    → any (has_id (next_role_id roles)) roles ≡ false
unfolding next_role_id
any-has_id_next roles h = any-has_id_above _ roles (omega arith)

module _ {ℓ} {A : Type ℓ} (q : A → Bool) where
  -- What a filter keeps is still found.
  pub any-retain_kept :
      (p : A → Bool) (xs : List A)
      → ((a : A) → q a ≡ true → p a ≡ true)
      → any q xs ≡ true
      → any q (retain p xs) ≡ true
  any-retain_kept p [] kept h = cc
  any-retain_kept p (x ∷ xs) kept h = ground (arith, kept x, any-retain_kept p xs kept)

  pub all-retain : (p : A → Bool) (xs : List A) → all q xs ≡ true → all q (retain p xs) ≡ true
  all-retain p [] h = refl
  all-retain p (x ∷ xs) h = ground (arith, all-retain p xs)

  pub all-append :
      (xs : List A) (a : A) → all q xs ≡ true → q a ≡ true → all q (xs ++ (a ∷ [])) ≡ true
  all-append [] a h k = rw k
  all-append (x ∷ xs) a h k = ground (arith, all-append xs a)

  module _ (f : A → A) (kept : (a : A) → q a ≡ true → q (f a) ≡ true) where
    pub all-update_first :
        (p : A → Bool) (xs : List A) → all q xs ≡ true → all q (update_first p f xs) ≡ true
    all-update_first p [] h = refl
    all-update_first p (x ∷ xs) h = ground (arith, kept x, all-update_first p xs)

    pub all-map : (xs : List A) → all q xs ≡ true → all q (map f xs) ≡ true
    all-map [] h = refl
    all-map (x ∷ xs) h = ground (arith, kept x, all-map xs)

pub str_eq_comm : (a b : String) → str_eq a b ≡ str_eq b a
str_eq_comm a b = ground (arith, eq_iff a b, eq_iff b a)

-- A property of every value of a map survives a change that keeps it at the key's value.
pub All-modify {ℓ κ} :
    {V : Type ℓ} (P : V → Type κ) (k : String) (f : V → V) (v : V) (m : List (String × V))
    → get k m ≡ some v
    → (P v → P (f v))
    → All (λ (e : String × V). P e.1) m
    → All (λ (e : String × V). P e.1) (modify k f m)
All-modify P k f v [] e kept h = tt
All-modify P k f v ((j, w) ∷ m) e kept h = elim (Bool-cases (str_eq j k)) [
  | inl hit ↦
      let same : w ≡ v = some-injective w v (rw hit at e) in
      rw hit (subst (λ x. P (f x)) (sym same) (kept (subst P same h.0)), h.1)
  | inr miss ↦ rw miss (h.0, All-modify P k f v m (rw miss at e) kept h.1)
]

pub All-get {ℓ κ} :
    {V : Type ℓ} (P : V → Type κ) (k : String) (v : V) (m : List (String × V))
    → get k m ≡ some v
    → All (λ (e : String × V). P e.1) m
    → P v
All-get P k v [] e h = cc
All-get P k v ((j, w) ∷ m) e h = elim (Bool-cases (str_eq j k)) [
  | inl hit ↦ subst P (some-injective w v (rw hit at e)) h.0
  | inr miss ↦ All-get P k v m (rw miss at e) h.1
]
