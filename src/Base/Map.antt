-- ===== src/Base/Map.antt =====
-- A `HashMap` with text keys as an association list; the first entry of a key counts.
use Prim.Native.String.{String}
use mathlib.Core.Path.{◌≡◌, refl}
use mathlib.Core.Logic.{◌≢◌}
use mathlib.Core.List.{List, [], ◌∷◌}
use mathlib.Core.Option
use mathlib.Core.Option.{Option, none, some}
use native.Mathlib.Omega.{arith}
use text.Mathlib.Text.{◌==◌}
use text.Mathlib.TextEquality.{eq_iff}
use rekindle.Base.Tests.{if◌then◌else◌}

module _ {ℓ} {V : Type ℓ} where
  abbrev pub get : String → List (String × V) → Option V
  get k [] = none
  get k ((j, v) ∷ m) = if j == k then some v else get k m

  -- `if let Some(v) = m.get_mut(k) { *v = f(v) }`
  abbrev pub modify : String → (V → V) → List (String × V) → List (String × V)
  modify k f [] = []
  modify k f ((j, v) ∷ m) = if j == k then (j, f v) ∷ m else (j, v) ∷ modify k f m

  pub get-modify :
      (k j : String) (f : V → V) (m : List (String × V))
      → get j (modify k f m) ≡ (if k == j then Option.map f (get j m) else get j m)
  get-modify k j f [] = ground arith
  get-modify k j f ((i, v) ∷ m) =
      ground (arith, eq_iff k j, eq_iff i k, eq_iff i j, get-modify k j f m)

  pub get-modify_self :
      (k : String) (f : V → V) (m : List (String × V)) (v : V)
      → get k m ≡ some v
      → get k (modify k f m) ≡ some (f v)
  get-modify_self k f m v h = ground (arith, get-modify k k f m, eq_iff k k)

  pub get-modify_ne :
      (k j : String) (f : V → V) (m : List (String × V)) → k ≢ j → get j (modify k f m) ≡ get j m
  get-modify_ne k j f m h = ground (arith, get-modify k j f m, eq_iff k j)

  pub modify-modify :
      (k : String) (f g : V → V) (m : List (String × V))
      → modify k g (modify k f m) ≡ modify k (λ v. g (f v)) m
  modify-modify k f g [] = refl
  modify-modify k f g ((i, v) ∷ m) = ground (arith, modify-modify k f g m)

  -- `remove(k)`
  abbrev pub erase : String → List (String × V) → List (String × V)
  erase k [] = []
  erase k ((j, v) ∷ m) = let rest = erase k m in if j == k then rest else (j, v) ∷ rest

  -- `insert(k, v)`
  abbrev pub put : String → V → List (String × V) → List (String × V)
  put k v m = (k, v) ∷ erase k m

  pub get-erase :
      (k j : String) (m : List (String × V))
      → get j (erase k m) ≡ (if k == j then none else get j m)
  get-erase k j [] = ground arith
  get-erase k j ((i, v) ∷ m) = ground (arith, eq_iff k j, eq_iff i k, eq_iff i j, get-erase k j m)

  pub get-put :
      (k j : String) (v : V) (m : List (String × V))
      → get j (put k v m) ≡ (if k == j then some v else get j m)
  get-put k j v m = ground (arith, get-erase k j m)

  pub get-put_self : (k : String) (v : V) (m : List (String × V)) → get k (put k v m) ≡ some v
  get-put_self k v m = ground (arith, eq_iff k k)
