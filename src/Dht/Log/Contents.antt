-- ===== src/Dht/Log/Contents.antt =====
-- What a log holds: the entries of its segments, of which the spine counts as many as it says.
use rekindle.Base.{
  ℕ, ◌+◌, ◌<◌, ◌%◌, ◌^◌, String, List, [], ◌∷◌, ◌++◌, some, length, All, ◌≡◌, ◌≢◌, refl, ◌∙◌, arith,
  length-append,
}
use native.Mathlib.Nat.{mod-eq_of_lt}
use rekindle.Dht.Network.{
  Network, IsLawful, Same, Result, failed, done, ProtocolError, continue, write, map_err,
}
use rekindle.Dht.Network.Rules.{Wrote, write_rule}
use rekindle.Dht.ShortArray.{HeadJson}
use rekindle.Dht.ShortArray.Frame.{KeptOf, Holds-Kept}
use rekindle.Dht.Log.{LogSpine, SpineJson, IsFaithful, Log, read_spine, write_spine}
use rekindle.Dht.Log.Chain.{Link, names, all_entries, Filled, Apart, IsLinked}

module _ (N : Network) (H : HeadJson) (J : SpineJson) (laws : IsLawful N) (json : IsFaithful J)
    (self : Log N H J) (cap : ℕ) where
  abbrev pub spine_of : ℕ → List String → LogSpine
  spine_of total segments = record {
    total_count = total;
    segment_capacity = cap;
    segments = segments;
  }

  -- The spine counts the entries xs, and the segments hold these and then the others.
  pub record Logs (xs others : List (List ℕ)) (s : N.State) : Type 0 where
    pub bytes : List ℕ
    pub links : List (Link N.RecordKey)
    pub at_spine : N.get_dht_value self.spine_key 0 s ≡ done (some bytes)
    pub reads : J.from_slice bytes ≡ done (spine_of (length xs) (names links))
    pub linked : All (IsLinked N H cap s) links
    pub outside : All (λ (l : Link N.RecordKey). self.spine_key ≢ l.key) links
    pub apart : Apart links
    pub filled : Filled cap links
    pub positive : 0 < cap
    pub entries : all_entries links ≡ xs ++ others

  pub read_spine-Logs :
      (xs others : List (List ℕ)) (s : N.State) (h : Logs xs others s)
      → read_spine N H J self s ≡ (s, done (spine_of (length xs) (names h.links)))
  unfolding read_spine
  read_spine-Logs xs others s h = rw (h.at_spine, h.reads) refl

  pub IsLinked-Kept :
      (P : N.RecordKey → Type 0) (s s' : N.State) (ls : List (Link N.RecordKey))
      → KeptOf N P s s'
      → All (λ (l : Link N.RecordKey). P l.key) ls
      → All (IsLinked N H cap s) ls
      → All (IsLinked N H cap s') ls
  IsLinked-Kept P s s' [] kept p h = tt
  IsLinked-Kept P s s' (l ∷ ls) kept p h = (
    (h.0.0, Holds-Kept N H P l.key cap s s' l.entries kept p.0 h.0.1),
    IsLinked-Kept P s s' ls kept p.1 h.1,
  )

  -- A log whose values are still there holds what it held.
  Logs-Kept :
      (P : N.RecordKey → Type 0) (xs others : List (List ℕ)) (s s' : N.State) (h : Logs xs others s)
      → KeptOf N P s s'
      → P self.spine_key
      → All (λ (l : Link N.RecordKey). P l.key) h.links
      → Logs xs others s'
  Logs-Kept P xs others s s' h kept spine p = record {
    bytes = h.bytes;
    links = h.links;
    at_spine = kept self.spine_key 0 h.bytes spine h.at_spine;
    reads = h.reads;
    linked = IsLinked-Kept P s s' h.links kept p h.linked;
    outside = h.outside;
    apart = h.apart;
    filled = h.filled;
    positive = h.positive;
    entries = h.entries;
  }

  pub All-tt : (ls : List (Link N.RecordKey)) → All (λ (l : Link N.RecordKey). Unit {0}) ls
  All-tt [] = tt
  All-tt (l ∷ ls) = (tt, All-tt ls)

  pub Logs-KeptAll :
      (xs others : List (List ℕ)) (s s' : N.State)
      → KeptOf N (λ l. Unit {0}) s s'
      → Logs xs others s
      → Logs xs others s'
  Logs-KeptAll xs others s s' kept h =
      Logs-Kept (λ l. Unit {0}) xs others s s' h kept tt (All-tt h.links)

  pub Logs-Same :
      (xs others : List (List ℕ)) (s s' : N.State)
      → Same N s s'
      → Logs xs others s
      → Logs xs others s'
  Logs-Same xs others s s' same h = Logs-KeptAll xs others s s' (λ l i b u e. same l i ∙ e) h

  -- The spine is written over segments that hold the entries.
  pub Logs-Wrote :
      (xs others : List (List ℕ)) (s s' : N.State) (links : List (Link N.RecordKey))
      (bytes : List ℕ)
      → J.from_slice bytes ≡ done (spine_of (length xs) (names links))
      → Wrote N laws self.spine_key 0 bytes s s'
      → All (IsLinked N H cap s) links
      → All (λ (l : Link N.RecordKey). self.spine_key ≢ l.key) links
      → Apart links
      → Filled cap links
      → 0 < cap
      → all_entries links ≡ xs ++ others
      → Logs xs others s'
  Logs-Wrote xs others s s' links bytes reads w linked outside apart filled positive entries =
      record {
        bytes = bytes;
        links = links;
        at_spine = w.at;
        reads = reads;
        linked =
            IsLinked-Kept (λ l. self.spine_key ≢ l) s s' links (λ l i b ne e. w.keys l i ne ∙ e)
              outside linked;
        outside = outside;
        apart = apart;
        filled = filled;
        positive = positive;
        entries = entries;
      }

  -- The count of an entry more, while it fits in 64 bits.
  pub count-append :
      (xs : List (List ℕ)) (x : List ℕ)
      → length xs + 1 < 2 ^ 64
      → (length xs + 1) % 2 ^ 64 ≡ length (xs ++ (x ∷ []))
  count-append xs x small = mod-eq_of_lt small ∙ omega (arith, length-append xs (x ∷ []))

  -- The spine is written, or nothing changes.
  pub write_spine_rule :
      (P : N.State × Result ProtocolError (Unit {0}) → Type 0) (spine : LogSpine) (s : N.State)
      → ((s' : N.State) (why : ProtocolError) → Same N s s' → P (s', failed why))
      → ((s' : N.State) (bytes : List ℕ)
          → J.from_slice bytes ≡ done spine
          → Wrote N laws self.spine_key 0 bytes s s'
          → P (s', done tt))
      → P (write_spine N H J self spine s)
  unfolding write_spine
  write_spine_rule P spine s bad good = go (J.to_vec spine) refl
    where
      go :
          (o : Result String (List ℕ))
          → J.to_vec spine ≡ o
          → P (
              continue
                (s, map_err ProtocolError.serialization o)
                (λ bytes. write N "write spine: " self.spine_key 0 bytes))
      go (failed why) e = bad s _ (λ k i. refl)
      go (done bytes) e =
          write_rule N laws P "write spine: " self.spine_key 0 bytes s bad
            λ s' w. good s' bytes (json.from_slice-to_vec spine bytes e) w
