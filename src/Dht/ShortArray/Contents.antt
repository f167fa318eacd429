-- ===== src/Dht/ShortArray/Contents.antt =====
-- What an array holds: the elements at its slots, in the order of the head.
use rekindle.Base.{
  ℕ, zero, suc, ◌+◌, ◌≤◌, ◌<◌, ◌==◌, ◌^◌, true, false, List, [], ◌∷◌, ◌++◌, Option, none, some,
  String, length, get_elem?, All, ◌≡◌, ◌≢◌, refl, ◌∙◌, ap, arith, inl, inr,
}
use mathlib.Core.Option.{some-injective}
use mathlib.Core.Logic.{◌⊎◌}
use rekindle.Base.Distinct.{any-append}
use rekindle.Dht.Network.{Network, Result, done}
use rekindle.Dht.ShortArray.{HeadJson, remove_at}
use rekindle.Dht.ShortArray.Slots.{holds}

-- `v[i] = x`
abbrev pub set_at {ℓ} : {A : Type ℓ} → ℕ → A → List A → List A
set_at i y [] = []
set_at zero y (x ∷ xs) = y ∷ xs
set_at (suc i) y (x ∷ xs) = x ∷ set_at i y xs

-- No slot twice.
abbrev pub Single : List ℕ → Type 0
Single [] = Unit
Single (slot ∷ slots) = (holds slots slot ≡ false) × Single slots

-- The elements stand at the slots.
abbrev pub Stored : (ℕ → Result String (Option (List ℕ))) → List ℕ → List (List ℕ) → Type 0
Stored at [] [] = Unit
Stored at [] (x ∷ xs) = ⊥
Stored at (slot ∷ slots) [] = ⊥
Stored at (slot ∷ slots) (x ∷ xs) = (at (slot + 1) ≡ done (some x)) × Stored at slots xs

-- The record at a key is an array with so many slots that holds these elements.
pub record Holds (N : Network) (J : HeadJson) (key : N.RecordKey) (stride : ℕ) (s : N.State)
    (xs : List (List ℕ)) : Type 0 where
  pub slots : List ℕ
  pub bytes : List ℕ
  pub at_head : N.get_dht_value key 0 s ≡ done (some bytes)
  pub reads : J.from_slice bytes ≡ done (record { stride = stride; slots = slots })
  pub single : Single slots
  pub inside : All (λ slot. slot < stride) slots
  pub within : length slots ≤ stride
  pub small : stride < 2 ^ 16
  pub stored : Stored (λ i. N.get_dht_value key i s) slots xs

pub length-Stored :
    (at : ℕ → Result String (Option (List ℕ))) (slots : List ℕ) (xs : List (List ℕ))
    → Stored at slots xs
    → length slots ≡ length xs
length-Stored at [] [] h = refl
length-Stored at [] (x ∷ xs) h = elim h [ ]
length-Stored at (slot ∷ slots) [] h = elim h [ ]
length-Stored at (slot ∷ slots) (x ∷ xs) h = omega (arith, length-Stored at slots xs h.1)

-- The values of the slots are all that counts.
pub Stored-agree :
    (at at' : ℕ → Result String (Option (List ℕ))) (slots : List ℕ) (xs : List (List ℕ))
    → ((slot : ℕ) → holds slots slot ≡ true → at' (slot + 1) ≡ at (slot + 1))
    → Stored at slots xs
    → Stored at' slots xs
Stored-agree at at' [] [] same h = tt
Stored-agree at at' [] (x ∷ xs) same h = h
Stored-agree at at' (slot ∷ slots) [] same h = h
Stored-agree at at' (slot ∷ slots) (x ∷ xs) same h = (
  same slot (ground arith) ∙ h.0,
  Stored-agree at at' slots xs (λ t e. same t (ground (arith, e))) h.1,
)

pub Stored-append :
    (at : ℕ → Result String (Option (List ℕ))) (slots : List ℕ) (xs : List (List ℕ)) (slot : ℕ)
    (x : List ℕ)
    → Stored at slots xs
    → at (slot + 1) ≡ done (some x)
    → Stored at (slots ++ (slot ∷ [])) (xs ++ (x ∷ []))
Stored-append at [] [] slot x h e = (e, tt)
Stored-append at [] (y ∷ xs) slot x h e = elim h [ ]
Stored-append at (t ∷ slots) [] slot x h e = elim h [ ]
Stored-append at (t ∷ slots) (y ∷ xs) slot x h e = (h.0, Stored-append at slots xs slot x h.1 e)

pub Stored-remove_at :
    (at : ℕ → Result String (Option (List ℕ))) (i : ℕ) (slots : List ℕ) (xs : List (List ℕ))
    → Stored at slots xs
    → Stored at (remove_at i slots) (remove_at i xs)
Stored-remove_at at i [] [] h = tt
Stored-remove_at at i [] (x ∷ xs) h = elim h [ ]
Stored-remove_at at i (slot ∷ slots) [] h = elim h [ ]
Stored-remove_at at zero (slot ∷ slots) (x ∷ xs) h = h.1
Stored-remove_at at (suc i) (slot ∷ slots) (x ∷ xs) h = (h.0, Stored-remove_at at i slots xs h.1)

holds-get_elem? :
    (i : ℕ) (slots : List ℕ) (slot : ℕ) → get_elem? slots i ≡ some slot → holds slots slot ≡ true
holds-get_elem? i [] slot e = ground arith
holds-get_elem? zero (t ∷ slots) slot e = ground arith
holds-get_elem? (suc i) (t ∷ slots) slot e = ground (arith, holds-get_elem? i slots slot e)

-- The slot of one index is emptied.
pub Stored-set_at :
    (at at' : ℕ → Result String (Option (List ℕ))) (i slot : ℕ) (y : List ℕ) (slots : List ℕ)
    (xs : List (List ℕ))
    → Single slots
    → get_elem? slots i ≡ some slot
    → at' (slot + 1) ≡ done (some y)
    → ((t : ℕ) → slot ≢ t → at' (t + 1) ≡ at (t + 1))
    → Stored at slots xs
    → Stored at' slots (set_at i y xs)
Stored-set_at at at' i slot y [] xs single e new old h = ground arith
Stored-set_at at at' i slot y (t ∷ slots) [] single e new old h = elim h [ ]
Stored-set_at at at' zero slot y (t ∷ slots) (x ∷ xs) single e new old h = (
  ap (λ u. at' (u + 1)) (some-injective t slot e) ∙ new,
  Stored-agree at at' slots xs (λ u used. old u (ground (arith, single.0, used, e))) h.1,
)
Stored-set_at at at' (suc i) slot y (t ∷ slots) (x ∷ xs) single e new old h = (
  old t (ground (arith, holds-get_elem? i slots slot e, single.0)) ∙ h.0,
  Stored-set_at at at' i slot y slots xs single.1 e new old h.1,
)

pub get_elem?-Stored :
    (at : ℕ → Result String (Option (List ℕ))) (i : ℕ) (slots : List ℕ) (xs : List (List ℕ))
    → Stored at slots xs
    → (get_elem? slots i ≡ none) × (get_elem? xs i ≡ none)
      ⊎ ((slot : ℕ) × (x : List ℕ) × (get_elem? slots i ≡ some slot)
          × (get_elem? xs i ≡ some x)
          × (at (slot + 1) ≡ done (some x)))
get_elem?-Stored at i [] [] h = inl (refl, refl)
get_elem?-Stored at i [] (x ∷ xs) h = elim h [ ]
get_elem?-Stored at i (slot ∷ slots) [] h = elim h [ ]
get_elem?-Stored at zero (slot ∷ slots) (x ∷ xs) h = inr (slot, x, refl, refl, h.0)
get_elem?-Stored at (suc i) (slot ∷ slots) (x ∷ xs) h = get_elem?-Stored at i slots xs h.1

-- The list of slots, changed.
pub Single-append :
    (slots : List ℕ) (slot : ℕ)
    → Single slots
    → holds slots slot ≡ false
    → Single (slots ++ (slot ∷ []))
Single-append [] slot h new = (refl, tt)
Single-append (t ∷ slots) slot h new = (
  ground (arith, any-append (λ x. x == t) slots (slot ∷ []), h.0, new),
  Single-append slots slot h.1 (ground (arith, new)),
)

pub holds-remove_at :
    (i : ℕ) (slots : List ℕ) (t : ℕ) → holds slots t ≡ false → holds (remove_at i slots) t ≡ false
holds-remove_at i [] t h = refl
holds-remove_at zero (x ∷ slots) t h = ground arith
holds-remove_at (suc i) (x ∷ slots) t h = ground (arith, holds-remove_at i slots t)

pub Single-remove_at : (i : ℕ) (slots : List ℕ) → Single slots → Single (remove_at i slots)
Single-remove_at i [] h = tt
Single-remove_at zero (x ∷ slots) h = h.1
Single-remove_at (suc i) (x ∷ slots) h =
    (holds-remove_at i slots x h.0, Single-remove_at i slots h.1)

pub length-remove_at : (i : ℕ) (slots : List ℕ) → length (remove_at i slots) ≤ length slots
length-remove_at i [] = omega arith
length-remove_at zero (x ∷ slots) = omega arith
length-remove_at (suc i) (x ∷ slots) = omega (arith, length-remove_at i slots)

module _ {ℓ} {A : Type 0} (P : A → Type ℓ) where
  pub All-remove_at : (i : ℕ) (xs : List A) → All P xs → All P (remove_at i xs)
  All-remove_at i [] h = tt
  All-remove_at zero (x ∷ xs) h = h.1
  All-remove_at (suc i) (x ∷ xs) h = (h.0, All-remove_at i xs h.1)

  pub All-append : (xs : List A) (x : A) → All P xs → P x → All P (xs ++ (x ∷ []))
  All-append [] x h p = (p, tt)
  All-append (y ∷ xs) x h p = (h.0, All-append xs x h.1 p)

pub remove_at-set_at {ℓ} :
    {A : Type ℓ} (i : ℕ) (y : A) (xs : List A) → remove_at i (set_at i y xs) ≡ remove_at i xs
remove_at-set_at i y [] = refl
remove_at-set_at zero y (x ∷ xs) = refl
remove_at-set_at (suc i) y (x ∷ xs) = ap (λ ys. x ∷ ys) (remove_at-set_at i y xs)

pub lt-get_elem? {ℓ} :
    {A : Type ℓ} (i : ℕ) (xs : List A) (x : A) → get_elem? xs i ≡ some x → i < length xs
lt-get_elem? i [] x e = ground arith
lt-get_elem? zero (y ∷ xs) x e = omega arith
lt-get_elem? (suc i) (y ∷ xs) x e = omega (arith, lt-get_elem? i xs x e)

-- The same elements, some of which have been emptied.
abbrev pub Emptied : List (List ℕ) → List (List ℕ) → Type 0
Emptied [] [] = Unit
Emptied [] (y ∷ ys) = ⊥
Emptied (x ∷ xs) [] = ⊥
Emptied (x ∷ xs) (y ∷ ys) = ((y ≡ x) ⊎ (y ≡ [])) × Emptied xs ys

pub Stored-blank :
    (at at' : ℕ → Result String (Option (List ℕ))) (slots : List ℕ) (xs : List (List ℕ))
    → ((t : ℕ) → (at' (t + 1) ≡ at (t + 1)) ⊎ (at' (t + 1) ≡ done (some [])))
    → Stored at slots xs
    → (ys : List (List ℕ)) × Stored at' slots ys × Emptied xs ys
Stored-blank at at' [] [] blank h = ([], tt, tt)
Stored-blank at at' [] (x ∷ xs) blank h = elim h [ ]
Stored-blank at at' (slot ∷ slots) [] blank h = elim h [ ]
Stored-blank at at' (slot ∷ slots) (x ∷ xs) blank h =
    let (ys, stored, empty) = Stored-blank at at' slots xs blank h.1 in
    elim (blank slot) [
      | inl same ↦ (x ∷ ys, (same ∙ h.0, stored), (inl refl, empty))
      | inr e ↦ ([] ∷ ys, (e, stored), (inr refl, empty))
    ]
