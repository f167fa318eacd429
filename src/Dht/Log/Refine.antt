-- ===== src/Dht/Log/Refine.antt =====
-- Appending to a log, whether or not the network fails on the way.
use rekindle.Base.{
  ℕ, ◌+◌, ◌<◌, ◌^◌, List, [], ◌∷◌, ◌++◌, Option, none, some, length, sym, ap, ◌∙◌, arith,
  Bool-cases, inl, inr, length-append,
}
use mathlib.Core.List.{append-nil}
use rekindle.Base.Actions.{Ends}
use rekindle.Dht.Network.{Network, IsLawful, Allocates}
use rekindle.Dht.ShortArray.{HeadJson, Self, open_array as open_segment, add as add_entry}
use rekindle.Dht.ShortArray as ShortArray
use rekindle.Dht.Log.{SpineJson, IsFaithful, Log, needs_new_segment, append, append_by}
use rekindle.Dht.Log.Contents.{Logs, read_spine-Logs}
use rekindle.Dht.Log.Latest.{spine, append_rule, write_spine-Counted}
use rekindle.Dht.Log.Start.{Shows, Appended, append_new-Appended}

module _ (N : Network) (H : HeadJson) (J : SpineJson) (laws : IsLawful N) (new : Allocates N)
    (heads : ShortArray.IsFaithful H) (json : IsFaithful J) (self : Log N H J) (cap : ℕ) where
  abbrev Logs' : List (List ℕ) → List (List ℕ) → N.State → Type 0
  Logs' xs others = Logs N H J laws json self cap xs others

  module _ (s : N.State) (xs : List (List ℕ)) (h : Logs' xs [] s) (x : List ℕ)
      (small : length xs + 1 < 2 ^ 64) where
    abbrev Good : N.State → ℕ → Type 0
    Good = Appended N H J laws new heads json self cap s xs h x small

    abbrev Bad : N.State → Type 0
    Bad = Shows N H J laws new heads json self cap xs

    append_by-Appended : (o : Option N.KeyPair) → Ends Bad Good (append_by N H J self x o s)
    append_by-Appended none = ([], h)
    append_by-Appended (some writer) =
        elim (Bool-cases (needs_new_segment (spine N H J laws heads json self cap s xs [] h x))) [
          | inl full ↦
              rw (read_spine-Logs N H J laws json self cap xs [] s h, full)
                (append_new-Appended N H J laws new heads json self cap s xs h x small writer full)
          | inr room ↦
              append_rule N H J laws heads json self cap s xs [] h x (Ends Bad Good) writer room
                (λ s' why k. ([], k))
                λ l ls s' k is same fits.
                  write_spine-Counted N H J laws heads json self cap s xs [] h x (xs ++ (x ∷ [])) []
                    (append-nil _ ∙ ap (λ ys. ys ++ (x ∷ [])) (sym (append-nil xs)))
                    (omega (arith, length-append xs (x ∷ []))) small s' k same
        ]

    -- Appending an entry to a log that holds the entries xs, of which there are fewer than 2^64 - 1. It
    -- returns the length of xs as the position, and then the log holds xs with the entry at the end;
    -- or it fails, and the spine still counts xs and the segments still hold xs in their order, with
    -- at most other entries behind them.
    pub append-Appended : Ends Bad Good (append N H J self x s)
    unfolding append
    append-Appended = append_by-Appended self.owner_keypair
