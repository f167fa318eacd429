-- ===== src/Dht/Log/Whole.antt =====
-- A log from its creation to its reading: `create`, `append` and `tail` one after the other.
use rekindle.Base.{ℕ, List, [], ◌∷◌, ◌++◌}
use rekindle.Dht.Network.{Network, IsLawful, Allocates, Action, pure, ◌>>=◌, ◌>>◌}
use rekindle.Dht.ShortArray.{HeadJson}
use rekindle.Dht.ShortArray as ShortArray
use rekindle.Dht.Log.{SpineJson, IsFaithful, Log, default_segment_capacity, create, append}
use rekindle.Dht.Log.Tail.{tail}
use rekindle.Dht.Log.Contents.{Logs}
use Prim.Native.String.{◌++◌ as append_text}

module _ (N : Network) (H : HeadJson) (J : SpineJson) where
  -- One entry after the other, until a failure.
  unfoldable pub append_all : Log N H J → List (List ℕ) → Action N.State (Unit {0})
  append_all self [] = pure tt
  append_all self (x ∷ xs) = append N H J self x >>= λ i. append_all self xs

  -- The last entries of a new log, once these were appended.
  abbrev pub written : List (List ℕ) → ℕ → Action N.State (List (List ℕ))
  written xs count = create N H J >>= λ made. append_all made.0 xs >> tail N H J made.0 count

module _ (N : Network) (H : HeadJson) (J : SpineJson) (laws : IsLawful N) (new : Allocates N)
    (heads : ShortArray.IsFaithful H) (json : IsFaithful J) where
  abbrev Any : N.State → Type 0
  Any s = Unit {0}

  abbrev Made : N.State → Log N H J × N.KeyPair → Type 0
  Made s made = Logs N H J laws json made.0 default_segment_capacity [] [] s
