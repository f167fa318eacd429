-- ===== src/Dht/Log/Lost.antt =====
-- Appending to a log whose segments hold entries that the spine does not count: what an `append` leaves
-- behind that adds to a segment and then cannot write the spine.
use rekindle.Base.{
  ℕ, ◌+◌, ◌%◌, ◌<◌, ◌^◌, false, List, [], ◌∷◌, ◌++◌, Option, none, some, length, ◌≡◌, ◌≢◌, refl,
  sym, ap, ◌∙◌, arith, length-append,
}
use mathlib.Core.Path.{subst}
use mathlib.Core.List.{append_assoc}
use rekindle.Base.Actions.{Ends, weaken_Ends}
use rekindle.Dht.Network.{Network, IsLawful, continue, pure}
use rekindle.Dht.ShortArray.{HeadJson}
use rekindle.Dht.ShortArray as ShortArray
use rekindle.Dht.Log.{
  SpineJson, IsFaithful, Log, write_spine, counted, needs_new_segment, append, append_by,
}
use rekindle.Dht.Log.Chain.{Link, names, all_entries, Filled, latest, full-latest}
use rekindle.Dht.Log.Contents.{Logs, spine_of}
use rekindle.Dht.Log.Latest.{spine, append_rule, write_spine-Counted}

module _ (N : Network) (H : HeadJson) (J : SpineJson) (laws : IsLawful N)
    (heads : ShortArray.IsFaithful H) (json : IsFaithful J) (self : Log N H J) (cap : ℕ)
    (s : N.State) (xs : List (List ℕ)) (y : List ℕ) (ys : List (List ℕ))
    (h : Logs N H J laws json self cap xs (y ∷ ys) s) (x : List ℕ)
    (begun : length xs % cap ≢ 0) where
  keeps_segment : needs_new_segment (spine N H J laws heads json self cap s xs (y ∷ ys) h x) ≡ false
  keeps_segment = go h.links refl
    where
      go :
          (links : List (Link N.RecordKey))
          → h.links ≡ links
          → needs_new_segment (spine_of N H J laws json self cap (length xs) (names links)) ≡ false
      go [] is =
          let e : [] ≡ xs ++ (y ∷ ys) = ap all_entries (sym is) ∙ h.entries in
          let n : 0 ≡ length (xs ++ (y ∷ ys)) = ap length e in
          absurd (omega (arith, n, length-append xs (y ∷ ys)))
      go (l ∷ ls) is = ground (arith, begun)

  -- There was room, and the log shows the first uncounted entry, with the new one behind the others.
  abbrev pub Shifted : N.State → ℕ → Type 0
  Shifted s' i =
      (i ≡ length xs)
      × (length (xs ++ (y ∷ ys)) % cap ≢ 0)
      × Logs N H J laws json self cap (xs ++ (y ∷ [])) (ys ++ (x ∷ [])) s'

  abbrev pub StillShows : N.State → Type 0
  StillShows s' = (more : List (List ℕ)) × Logs N H J laws json self cap xs more s'

  not_full :
      (l : Link N.RecordKey) (ls : List (Link N.RecordKey))
      → h.links ≡ l ∷ ls
      → length (latest l ls).entries < cap
      → length (xs ++ (y ∷ ys)) % cap ≢ 0
  not_full l ls is fits e =
      let all : all_entries (l ∷ ls) ≡ xs ++ (y ∷ ys) = ap all_entries (sym is) ∙ h.entries in
      let full =
        full-latest cap l ls (subst (Filled cap) is h.filled)
          (ap (λ es. length es % cap) all ∙ e) in
      omega (arith, full, fits)

  append_by-Shifted :
      length xs + 1 < 2 ^ 64
      → (o : Option N.KeyPair) → Ends StillShows Shifted (append_by N H J self x o s)
  append_by-Shifted small none = (y ∷ ys, h)
  append_by-Shifted small (some writer) =
      append_rule N H J laws heads json self cap s xs (y ∷ ys) h x (Ends StillShows Shifted) writer
        keeps_segment (λ s' why k. (y ∷ ys, k))
        λ l ls s' k is same fits. either_way l ls is fits s' k same
    where
      either_way :
          (l : Link N.RecordKey) (ls : List (Link N.RecordKey))
          → h.links ≡ l ∷ ls
          → length (latest l ls).entries < cap
          → (s' : N.State) (k : Logs N H J laws json self cap xs ((y ∷ ys) ++ (x ∷ [])) s')
          → names k.links ≡ names h.links
          → Ends StillShows Shifted (
              continue
                (write_spine N H J self
                  (counted (spine N H J laws heads json self cap s xs (y ∷ ys) h x))
                  s')
                (λ u. pure (length xs)))
      either_way l ls is fits s' k same =
          weaken_Ends StillShows StillShows
            (λ t i.
              (i ≡ length xs) × Logs N H J laws json self cap (xs ++ (y ∷ [])) (ys ++ (x ∷ [])) t)
            Shifted _
            (write_spine-Counted N H J laws heads json self cap s xs (y ∷ ys) h x (xs ++ (y ∷ []))
              (ys ++ (x ∷ []))
              (append_assoc xs (y ∷ []) (ys ++ (x ∷ [])) ∙ sym (append_assoc xs (y ∷ ys) (x ∷ [])))
              (omega (arith, length-append xs (y ∷ []))) small s' k same)
            (λ t b. b) (λ t i b. (b.0, not_full l ls is fits, b.1))

  -- An entry y (and maybe others, ys) stands in the latest segment of a log, and the spine does not
  -- count it: what is left of an `append` that could not write the spine. The next `append`, of x, can
  -- succeed only while that segment is not full: once the entries are a multiple of the capacity, every
  -- one fails. Where it succeeds, the entry at the position that it returns is y, and x is not counted.
  -- Where it fails, the spine counts what it did.
  pub append-Shifted : length xs + 1 < 2 ^ 64 → Ends StillShows Shifted (append N H J self x s)
  unfolding append
  append-Shifted small = append_by-Shifted small self.owner_keypair
