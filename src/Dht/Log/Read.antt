-- ===== src/Dht/Log/Read.antt =====
-- Reading from a log: `get` and `tail`.
use rekindle.Base.{
  ℕ, zero, suc, ◌+◌, ◌*◌, ◌/◌, ◌%◌, ◌≤◌, ◌<◌, ◌^◌, leb, List, [], ◌∷◌, Option, none, some, length,
  get_elem?, ◌≡◌, refl, sym, ap, ◌∙◌, arith, Bool-cases, inl, inr, lt→ltb, length-append,
}
use native.Mathlib.Nat.{div-add-mod', mod-lt}
use rekindle.Base.Actions.{Ends}
use rekindle.Dht.Network.{Network, IsLawful, Same}
use rekindle.Dht.ShortArray.{HeadJson, Self, open_array as open_segment, get as get_entry}
use rekindle.Dht.ShortArray as ShortArray
use rekindle.Dht.ShortArray.Heads.{Has-Same}
use rekindle.Dht.ShortArray.Refine.{get-Holds}
use rekindle.Dht.ShortArray.Frame.{open_rule}
use rekindle.Dht.Log.{SpineJson, IsFaithful, Log, Segment, saturated, get}
use rekindle.Dht.Log.Chain.{Link, names, all_entries, IsLinked, find_entry, get_elem?-append}
use rekindle.Dht.Log.Contents.{Logs, read_spine-Logs}

beyond : (pos : ℕ) (xs : List (List ℕ)) → length xs ≤ pos → get_elem? xs pos ≡ none
beyond pos [] h = refl
beyond zero (x ∷ xs) h = ground (arith, h)
beyond (suc pos) (x ∷ xs) h = beyond pos xs (omega (arith, h))

module _ (N : Network) (H : HeadJson) (J : SpineJson) (laws : IsLawful N)
    (heads : ShortArray.IsFaithful H) (json : IsFaithful J) (self : Log N H J) (cap : ℕ)
    (s : N.State) (xs others : List (List ℕ)) (h : Logs N H J laws json self cap xs others s) where
  abbrev Place : ℕ → Link N.RecordKey → Type 0
  Place pos l =
      (get_elem? h.links (pos / cap) ≡ some l)
      × (get_elem? (names h.links) (pos / cap) ≡ some l.name)
      × IsLinked N H cap s l
      × (get_elem? l.entries (saturated (pos % cap)) ≡ get_elem? xs pos)

  find-Place : (pos : ℕ) → pos < length xs → (l : Link N.RecordKey) × Place pos l
  find-Place pos low =
      let off : pos % cap < cap = mod-lt pos h.positive in
      let split : pos / cap * cap + pos % cap ≡ pos = div-add-mod' pos cap in
      let all : length (all_entries h.links) ≡ length xs + length others =
        ap length h.entries ∙ length-append xs others in
      let (l, at, named, linked, same) =
        find_entry N H cap s h.links (pos / cap) (pos % cap) h.filled h.linked off
          (omega (arith, split, all, low)) in
      (
        l,
        (
          at,
          named,
          linked,
          rw (lt→ltb (pos % cap) (2 ^ 32) (omega (arith, off, linked.1.small))) (
              same
              ∙ ap (get_elem? (all_entries h.links)) split
              ∙ ap (λ es. get_elem? es pos) h.entries
              ∙ get_elem?-append xs others pos low),
        ),
      )

  -- Reading an entry of a log that shows the entries xs: the one at the position, or none beyond the
  -- last, or the network fails; no value changes.
  pub get-Logs :
      (pos : ℕ)
      → Ends
          (Same N s)
          (λ s' entry. (entry ≡ get_elem? xs pos) × Same N s s')
          (get N H J self pos s)
  unfolding get
  get-Logs pos =
      rw (read_spine-Logs N H J laws json self cap xs others s h)
        (elim (Bool-cases (leb (length xs) pos)) [
          | inl out ↦ rw out (sym (beyond pos xs (ground (arith, out))), λ l i. refl)
          | inr in_ ↦
              let (l, (at, named, linked, same)) = find-Place pos (ground (arith, in_)) in
              rw (in_, named)
                (open_rule N H laws heads
                  (Ends (Same N s) (λ s' entry. (entry ≡ get_elem? xs pos) × Same N s s')) l.name
                  l.key self.owner_keypair cap s l.entries _ linked.0 linked.1 (λ s' why q. q)
                  λ s1 q.
                    let before = Has-Same N H laws heads l.key cap s s1 l.entries q linked.1 in
                    rw
                      (get-Holds N H laws heads
                        (record {
                          record_key = l.key;
                          owner_keypair = self.owner_keypair;
                          stride = cap;
                        })
                        s1 l.entries before (saturated (pos % cap)))
                      (same, q))
        ])

  abbrev handle : Link N.RecordKey → Self N H
  handle l = record { record_key = l.key; owner_keypair = self.owner_keypair; stride = cap }

  -- The current segment is the one of its index.
  abbrev IsAt : ℕ → Option (Segment N H J) → Type 0
  IsAt current none = Unit
  IsAt current (some segment) =
      (l : Link N.RecordKey) × (get_elem? h.links current ≡ some l) × (segment ≡ handle l)
