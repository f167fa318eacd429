-- ===== src/Dht/Log/Start.antt =====
-- Appending to a log in a new segment, whether or not the network fails on the way.
use rekindle.Base.{
  ℕ, ◌+◌, ◌%◌, ◌<◌, ◌^◌, true, List, [], ◌∷◌, ◌++◌, some, length, All, ◌≡◌, ◌≢◌, refl, sym, ap, ◌∙◌,
  arith,
}
use mathlib.Core.Path.{subst}
use mathlib.Core.List.{append-nil}
use rekindle.Base.Actions.{Ends, after_Ends, both_Ends, weaken_Ends}
use rekindle.Dht.Network.{Network, IsLawful, Allocates, done, continue, pure}
use rekindle.Dht.Network.Rules.{Wrote}
use rekindle.Dht.ShortArray.{
  HeadJson, Self, create as create_segment, open_array as open_segment, add as add_entry,
}
use rekindle.Dht.ShortArray as ShortArray
use rekindle.Dht.ShortArray.Contents.{Holds, All-append}
use rekindle.Dht.ShortArray.Clear.{Made}
use rekindle.Dht.ShortArray.Refine.{Keeps, Added, add-Added}
use rekindle.Dht.ShortArray.Frame.{Kept, KeptBut, IsFresh, add-KeptBut, create-New}
use rekindle.Dht.Log.{
  LogSpine, SpineJson, IsFaithful, Log, counted, with_segment, needs_new_segment, append_new,
}
use rekindle.Dht.Log.Chain.{
  Link, names, all_entries, Filled, IsLinked, all_entries-append, names-append, full-latest,
  append-Filled, append-Apart,
}
use rekindle.Dht.Log.Contents.{
  Logs, spine_of, IsLinked-Kept, All-tt, Logs-KeptAll, Logs-Wrote, count-append, write_spine_rule,
}

module _ (N : Network) (H : HeadJson) (J : SpineJson) (laws : IsLawful N) (new : Allocates N)
    (heads : ShortArray.IsFaithful H) (json : IsFaithful J) (self : Log N H J) (cap : ℕ) where
  next-Filled :
      (ls : List (Link N.RecordKey)) (n : Link N.RecordKey) (xs : List (List ℕ))
      → Filled cap ls
      → all_entries ls ≡ xs
      → 0 < cap
      → length n.entries ≡ 1
      → needs_new_segment (spine_of N H J laws json self cap (length xs) (names ls)) ≡ true
      → Filled cap (ls ++ (n ∷ []))
  next-Filled [] n xs h e positive one full = omega (arith, positive, one)
  next-Filled (l ∷ ls) n xs h e positive one full =
      let all : length xs % cap ≡ 0 = ground (arith, full) in
      append-Filled cap l ls n h (full-latest cap l ls h (rw e all)) (omega (arith, positive, one))

  -- The log holds these entries, and its segments no others.
  abbrev pub HoldsLog : List (List ℕ) → N.State → Type 0
  HoldsLog xs = Logs N H J laws json self cap xs []

  -- It holds these, and its segments may have more.
  abbrev pub Shows : List (List ℕ) → N.State → Type 0
  Shows xs s = (others : List (List ℕ)) × Logs N H J laws json self cap xs others s

  module _ (s : N.State) (xs : List (List ℕ)) (h : HoldsLog xs s) (x : List ℕ)
      (small : length xs + 1 < 2 ^ 64) where
    abbrev pub spine : LogSpine
    spine = spine_of N H J laws json self cap (length xs) (names h.links)

    abbrev pub Appended : N.State → ℕ → Type 0
    Appended s' i = (i ≡ length xs) × HoldsLog (xs ++ (x ∷ [])) s'

    -- A segment with one entry, and what was kept of the others.
    abbrev Started : N.RecordKey → N.State → ℕ → Type 0
    Started key s' i = Holds N H key cap s' (x ∷ []) × Kept N s s' × IsFresh N s key

    add_first :
        (made : Self N H) (s1 : N.State)
        → made.stride ≡ cap
        → Holds N H made.record_key cap s1 []
        → Kept N s s1
        → IsFresh N s made.record_key
        → Ends (Kept N s) (Started made.record_key) (add_entry N H made x s1)
    add_first made s1 stride empty kept fresh =
        let empty' : Keeps N H laws heads made [] s1 =
          subst (λ c. Holds N H made.record_key c s1 []) (sym stride) empty in
        let on : (s2 : N.State) → KeptBut N made.record_key s1 s2 → Kept N s s2 =
          λ s2 spared l i b u at.
            spared l i b (λ same. fresh l i b at (sym same)) (kept l i b u at) in
        weaken_Ends (λ s2. Keeps N H laws heads made [] s2 × KeptBut N made.record_key s1 s2)
          (Kept N s)
          (λ s2 i. Added N H laws heads made s1 [] empty' x s2 i × KeptBut N made.record_key s1 s2)
          (Started made.record_key) (add_entry N H made x s1)
          (both_Ends (Keeps N H laws heads made []) (KeptBut N made.record_key s1)
            (Added N H laws heads made s1 [] empty' x) (λ s2 i. KeptBut N made.record_key s1 s2)
            (add_entry N H made x s1) (add-Added N H laws heads made s1 [] empty' x)
            (add-KeptBut N H laws heads made s1 x))
          (λ s2 both. on s2 both.1)
          λ s2 i both. (
            subst (λ c. Holds N H made.record_key c s2 (x ∷ [])) stride both.0.2,
            on s2 both.1,
            fresh,
          )

    fresh-outside :
        (key : N.RecordKey) (ls : List (Link N.RecordKey))
        → IsFresh N s key
        → All (IsLinked N H cap s) ls
        → All (λ (l : Link N.RecordKey). l.key ≢ key) ls
    fresh-outside key [] fresh linked = tt
    fresh-outside key (l ∷ ls) fresh linked =
        (fresh l.key 0 linked.0.1.bytes linked.0.1.at_head, fresh-outside key ls fresh linked.1)

    -- A new segment is listed in the spine.
    listed :
        (key : N.RecordKey) (s2 s' : N.State) (bytes : List ℕ)
        → needs_new_segment spine ≡ true
        → Holds N H key cap s2 (x ∷ [])
        → Kept N s s2
        → IsFresh N s key
        → J.from_slice bytes ≡ done (counted (with_segment spine (N.to_string key)))
        → Wrote N laws self.spine_key 0 bytes s2 s'
        → HoldsLog (xs ++ (x ∷ [])) s'
    listed key s2 s' bytes full holds kept fresh reads w =
        let link : Link N.RecordKey = record {
          name = N.to_string key;
          key = key;
          entries = x ∷ [];
        } in
        let whole : all_entries h.links ≡ xs = h.entries ∙ append-nil xs in
        Logs-Wrote N H J laws json self cap (xs ++ (x ∷ [])) [] s2 s' (h.links ++ (link ∷ [])) bytes
          (reads
            ∙ ap done (
                rw (count-append N H J laws json self cap xs x small, names-append h.links link)
                  refl))
          w
          (All-append (IsLinked N H cap s2) h.links link
            (IsLinked-Kept N H J laws json self cap (λ l. Unit {0}) s s2 h.links kept
              (All-tt N H J laws json self cap h.links) h.linked)
            (new.parse-to_string key, holds))
          (All-append (λ (l : Link N.RecordKey). self.spine_key ≢ l.key) h.links link h.outside
            (fresh self.spine_key 0 h.bytes h.at_spine))
          (append-Apart h.links link h.apart (fresh-outside key h.links fresh h.linked))
          (next-Filled h.links link xs h.filled whole h.positive refl full) h.positive
          (all_entries-append h.links link ∙ ap (λ es. es ++ (x ∷ [])) whole ∙ sym (append-nil _))

    pub append_new-Appended :
        (writer : N.KeyPair)
        → needs_new_segment spine ≡ true
        → Ends (Shows xs) Appended (append_new N H J self writer x spine s)
    append_new-Appended writer full =
        after_Ends (Ends (Shows xs) Appended) (λ s'. Unit {0} × Kept N s s')
          (λ s' made.
            Made N H laws heads cap s' made × (Kept N s s' × IsFresh N s made.0.record_key))
          (create_segment N H cap (some writer) s) _
          (create-New N H laws heads new s cap (some writer))
          (λ s' why kept. ([], Logs-KeptAll N H J laws json self cap xs [] s s' kept.1 h))
          λ s1 made is.
            after_Ends (Ends (Shows xs) Appended) (Kept N s) (Started made.0.record_key)
              (add_entry N H made.0 x s1) _ (add_first made.0 s1 is.0.0 is.0.1 is.1.0 is.1.1)
              (λ s' why kept. ([], Logs-KeptAll N H J laws json self cap xs [] s s' kept h))
              λ s2 i started.
                write_spine_rule N H J laws json self cap
                  (λ o. Ends (Shows xs) Appended (continue o (λ u. pure (length xs))))
                  (counted (with_segment spine (N.to_string made.0.record_key))) s2
                  (λ s' why same. (
                    [],
                    Logs-KeptAll N H J laws json self cap xs [] s s'
                        (λ l i b u at. same l i ∙ started.1 l i b u at) h,
                  ))
                  λ s' bytes reads w. (
                    refl,
                    listed made.0.record_key s2 s' bytes full started.0 started.1 started.2 reads w,
                  )
