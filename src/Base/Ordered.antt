-- ===== src/Base/Ordered.antt =====
-- `BTreeMap<u32, V>`: the entries in the ascending order of their keys.
use mathlib.Core.Path.{◌≡◌, refl}
use mathlib.Core.List.{List, [], ◌∷◌}
use mathlib.Core.Option.{Option, none, some}
use native.Mathlib.Omega.{arith}
use Prim.Native.Nat.{ℕ, ◌+◌, ◌≤◌}
use rekindle.Base.Tests.{if◌then◌else◌, ltb, ◌==◌}
use rekindle.Base.Lists.{length, All}

module _ {ℓ} {V : Type ℓ} where
  abbrev pub insert : ℕ → V → List (ℕ × V) → List (ℕ × V)
  insert k v [] = (k, v) ∷ []
  insert k v ((j, w) ∷ m) =
      let rest = insert k v m in
      if ltb k j then (k, v) ∷ (j, w) ∷ m else if k == j then (k, v) ∷ m else (j, w) ∷ rest

  abbrev pub lookup : ℕ → List (ℕ × V) → Option V
  lookup k [] = none
  lookup k ((j, w) ∷ m) = if j == k then some w else lookup k m

  abbrev pub delete : ℕ → List (ℕ × V) → List (ℕ × V)
  delete k [] = []
  delete k ((j, w) ∷ m) = if j == k then m else (j, w) ∷ delete k m

  -- Every key is at least, or above, a number.
  abbrev pub From : ℕ → List (ℕ × V) → Type 0
  From n = All λ (e : ℕ × V). n ≤ e.0

  abbrev pub IsAscending : List (ℕ × V) → Type 0
  IsAscending [] = Unit
  IsAscending ((k, v) ∷ m) = From (k + 1) m × IsAscending m

  pub All-insert {κ} :
      (P : (ℕ × V) → Type κ) (k : ℕ) (v : V) (m : List (ℕ × V))
      → P (k, v)
      → All P m
      → All P (insert k v m)
  All-insert P k v [] p h = (p, tt)
  All-insert P k v ((j, w) ∷ m) p h = ground (arith, All-insert P k v m p h.1)

  pub All-delete {κ} :
      (P : (ℕ × V) → Type κ) (k : ℕ) (m : List (ℕ × V)) → All P m → All P (delete k m)
  All-delete P k [] h = tt
  All-delete P k ((j, w) ∷ m) h = ground (arith, All-delete P k m h.1)

  pub From-weaken : (a b : ℕ) (m : List (ℕ × V)) → a ≤ b → From b m → From a m
  From-weaken a b [] h f = tt
  From-weaken a b ((j, w) ∷ m) h f = (omega (arith, f.0), From-weaken a b m h f.1)

  pub IsAscending-insert :
      (k : ℕ) (v : V) (m : List (ℕ × V)) → IsAscending m → IsAscending (insert k v m)
  IsAscending-insert k v [] h = (tt, tt)
  IsAscending-insert k v ((j, w) ∷ m) h = ground (
    arith,
    From-weaken (k + 1) (j + 1) m,
    All-insert (λ (e : ℕ × V). j + 1 ≤ e.0) k v m,
    IsAscending-insert k v m h.1,
  )

  pub IsAscending-delete : (k : ℕ) (m : List (ℕ × V)) → IsAscending m → IsAscending (delete k m)
  IsAscending-delete k [] h = tt
  IsAscending-delete k ((j, w) ∷ m) h =
      ground (arith, All-delete (λ (e : ℕ × V). j + 1 ≤ e.0) k m h.0, IsAscending-delete k m h.1)

  pub From-delete :
      (k : ℕ) (m : List (ℕ × V)) → IsAscending m → From k m → From (k + 1) (delete k m)
  From-delete k [] h f = tt
  From-delete k ((j, w) ∷ m) h f =
      ground (arith, From-weaken (k + 1) (j + 1) m, All-delete (λ (e : ℕ × V). k + 1 ≤ e.0) k m)

  pub length-insert : (k : ℕ) (v : V) (m : List (ℕ × V)) → length (insert k v m) ≤ length m + 1
  length-insert k v [] = omega arith
  length-insert k v ((j, w) ∷ m) = ground (arith, length-insert k v m)

  pub length-delete : (k : ℕ) (m : List (ℕ × V)) → length (delete k m) ≤ length m
  length-delete k [] = omega arith
  length-delete k ((j, w) ∷ m) = ground (arith, length-delete k m)

  pub lookup-above : (k : ℕ) (m : List (ℕ × V)) → From (k + 1) m → lookup k m ≡ none
  lookup-above k [] h = refl
  lookup-above k ((j, w) ∷ m) h = ground (arith, lookup-above k m h.1)

  pub lookup-insert : (k : ℕ) (v : V) (m : List (ℕ × V)) → lookup k (insert k v m) ≡ some v
  lookup-insert k v [] = ground arith
  lookup-insert k v ((j, w) ∷ m) = ground (arith, lookup-insert k v m)
