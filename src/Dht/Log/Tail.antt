-- ===== src/Dht/Log/Tail.antt =====
-- `tail` of `DHTLog`, which opens each segment once: crates/rekindle-protocol/src/dht/log.rs.
use rekindle.Base.{
  ℕ, zero, suc, ◌+◌, ◌-◌, ◌/◌, ◌%◌, ◌==◌, if◌then◌else◌, ◌||◌, not, String, List, [], ◌∷◌, Option,
  none, some, get_elem?,
}
use rekindle.Dht.Network.{Network, Action, pure, ◌>>=◌}
use rekindle.Dht.ShortArray.{HeadJson, open_array as open_segment, get as get_entry}
use rekindle.Dht.Log.{LogSpine, SpineJson, Log, Segment, saturated, read_spine}

-- An entry, if there is one, in front of those that follow.
abbrev pub in_front : Option (List ℕ) → List (List ℕ) → List (List ℕ)
in_front none entries = entries
in_front (some entry) entries = entry ∷ entries

module _ (N : Network) (H : HeadJson) (J : SpineJson) where
  -- The segment of an index, where there is one.
  abbrev pub reopened : Log N H J → Option String → Action N.State (Option (Segment N H J))
  reopened self none = pure none
  reopened self (some key) = do
    segment ← open_segment N H key self.owner_keypair
    pure (some segment)

  -- The segment to read next: the current one, or the one of another index, which is opened.
  abbrev pub next_segment :
      Log N H J
      → List String
      → ℕ
      → ℕ
      → Option (Segment N H J)
      → Action N.State (Option (Segment N H J))
  next_segment self segments idx current none = reopened self (get_elem? segments idx)
  next_segment self segments idx current (some segment) =
      if not (idx == current) then reopened self (get_elem? segments idx) else pure (some segment)

  -- A round of the loop with its segment; without one the loop ends.
  abbrev pub read_on :
      ℕ
      → (Option (Segment N H J) → Action N.State (List (List ℕ)))
      → Option (Segment N H J)
      → Action N.State (List (List ℕ))
  read_on offset others none = pure []
  read_on offset others (some segment) = do
    entry ← get_entry N H segment offset
    rest ← others (some segment)
    pure (in_front entry rest)

  -- The loop of `tail` over n positions from `pos` on.
  unfoldable pub tail_from :
      Log N H J → LogSpine → ℕ → ℕ → ℕ → Option (Segment N H J) → Action N.State (List (List ℕ))
  tail_from self spine zero pos current segment = pure []
  tail_from self spine (suc n) pos current segment = do
    found ← next_segment self spine.segments (pos / spine.segment_capacity) current segment
    read_on (saturated (pos % spine.segment_capacity))
        (tail_from self spine n (pos + 1) (pos / spine.segment_capacity)) found

  -- The subtraction stops at 0, as `saturating_sub` does.
  abbrev pub tail_of : Log N H J → ℕ → LogSpine → Action N.State (List (List ℕ))
  tail_of self count spine =
      let start = spine.total_count - count in
      tail_from self spine (spine.total_count - start) start (start / spine.segment_capacity) none

  unfoldable pub tail : Log N H J → ℕ → Action N.State (List (List ℕ))
  tail self count = do
    spine ← read_spine N H J self
    if (spine.total_count == 0) || (count == 0) then pure [] else tail_of self count spine
