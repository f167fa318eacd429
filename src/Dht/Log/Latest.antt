-- ===== src/Dht/Log/Latest.antt =====
-- Appending to a log in its latest segment, whether or not the spine counts all that it holds.
use rekindle.Base.{
  ℕ, ◌+◌, ◌<◌, ◌^◌, true, false, arith, List, [], ◌∷◌, ◌++◌, some, length, All, ◌≡◌, refl, sym, ap,
  ◌∙◌,
}
use mathlib.Core.Path.{subst}
use native.Mathlib.Nat.{mod-eq_of_lt}
use mathlib.Core.List.{append_assoc}
use rekindle.Base.Actions.{Ends, after_Ends, both_Ends}
use rekindle.Dht.Network.{Network, IsLawful, Result, ProtocolError, failed, done, continue, pure}
use rekindle.Dht.ShortArray.{HeadJson, Self, open_array as open_segment, add as add_entry}
use rekindle.Dht.ShortArray as ShortArray
use rekindle.Dht.ShortArray.Heads.{Has-Same}
use rekindle.Dht.ShortArray.Refine.{Keeps, Added, add-Added}
use rekindle.Dht.ShortArray.Frame.{KeptBut, add-KeptBut, open_rule}
use rekindle.Dht.Log.{
  LogSpine, SpineJson, IsFaithful, Log, write_spine, counted, append_latest, append_by,
  needs_new_segment, last,
}
use rekindle.Dht.Log.Chain.{Link, names, IsLinked, latest, last-names}
use rekindle.Dht.Log.Contents.{
  Logs, spine_of, read_spine-Logs, Logs-Same, Logs-Wrote, write_spine_rule,
}
use rekindle.Dht.Log.Extend.{All-latest, Logs-same, Logs-extended}

module _ (N : Network) (H : HeadJson) (J : SpineJson) (laws : IsLawful N)
    (heads : ShortArray.IsFaithful H) (json : IsFaithful J) (self : Log N H J) (cap : ℕ) where
  abbrev Logs' : List (List ℕ) → List (List ℕ) → N.State → Type 0
  Logs' xs others = Logs N H J laws json self cap xs others

  module _ (s : N.State) (xs others : List (List ℕ)) (h : Logs' xs others s) (x : List ℕ) where
    abbrev pub spine : LogSpine
    spine = spine_of N H J laws json self cap (length xs) (names h.links)

    -- The entry is added to the latest segment, which had room for it; or that fails, and the log is
    -- as it was.
    add_latest_rule :
        (P : N.State × Result ProtocolError ℕ → Type 0) (l : Link N.RecordKey)
        (ls : List (Link N.RecordKey)) (writer : N.KeyPair)
        → h.links ≡ l ∷ ls
        → ((s' : N.State) (why : ProtocolError) → Logs' xs others s' → P (s', failed why))
        → ((s' : N.State) (k : Logs' xs (others ++ (x ∷ [])) s')
            → names k.links ≡ names h.links
            → length (latest l ls).entries < cap
            → P (continue (write_spine N H J self (counted spine) s') (λ u. pure (length xs))))
        → P (append_latest N H J self writer x spine (some (latest l ls).name) s)
    add_latest_rule P l ls writer is bad good =
        let key = (latest l ls).key in
        let es = (latest l ls).entries in
        let (parses, holds) =
          All-latest (IsLinked N H cap s) l ls (subst (All (IsLinked N H cap s)) is h.linked) in
        open_rule N H laws heads P (latest l ls).name key (some writer) cap s es _ parses holds
          (λ s' why same. bad s' why (Logs-Same N H J laws json self cap xs others s s' same h))
          λ s1 same.
            let segment : Self N H = record {
              record_key = key;
              owner_keypair = some writer;
              stride = cap;
            } in
            let before = Has-Same N H laws heads key cap s s1 es same holds in
            let spared : (s2 : N.State) → KeptBut N key s1 s2 → KeptBut N key s s2 =
              λ s2 kept k i b ne at. kept k i b ne (same k i ∙ at) in
            after_Ends P (λ s2. Keeps N H laws heads segment es s2 × KeptBut N key s1 s2)
              (λ s2 i. Added N H laws heads segment s1 es before x s2 i × KeptBut N key s1 s2)
              (add_entry N H segment x s1) _
              (both_Ends (Keeps N H laws heads segment es) (KeptBut N key s1)
                (Added N H laws heads segment s1 es before x) (λ s2 i. KeptBut N key s1 s2)
                (add_entry N H segment x s1) (add-Added N H laws heads segment s1 es before x)
                (add-KeptBut N H laws heads segment s1 x))
              (λ s2 why both. bad s2 why (
                Logs-same N H J laws json self cap xs others s s2 h l ls is (spared s2 both.1)
                  both.0))
              λ s2 i both.
                let (k, same_names) =
                  Logs-extended N H J laws json self cap xs others s s2 h l ls is (spared s2 both.1)
                    x both.0.1 both.0.2 in
                good s2 k same_names both.0.1

    -- The same for `append`, where no new segment is needed.
    pub append_rule :
        (P : N.State × Result ProtocolError ℕ → Type 0) (writer : N.KeyPair)
        → needs_new_segment spine ≡ false
        → ((s' : N.State) (why : ProtocolError) → Logs' xs others s' → P (s', failed why))
        → ((l : Link N.RecordKey) (ls : List (Link N.RecordKey)) (s' : N.State)
              (k : Logs' xs (others ++ (x ∷ [])) s')
            → h.links ≡ l ∷ ls
            → names k.links ≡ names h.links
            → length (latest l ls).entries < cap
            → P (continue (write_spine N H J self (counted spine) s') (λ u. pure (length xs))))
        → P (append_by N H J self x (some writer) s)
    append_rule P writer room bad good =
        rw (read_spine-Logs N H J laws json self cap xs others s h, room) (go h.links refl)
      where
        go :
            (links : List (Link N.RecordKey))
            → h.links ≡ links
            → P (append_latest N H J self writer x spine (last (names links)) s)
        go [] is =
            let full : needs_new_segment spine ≡ true = rw is refl in
            absurd (ground (arith, full, room))
        go (l ∷ ls) is =
            subst (λ o. P (append_latest N H J self writer x spine o s)) (sym (last-names l ls))
              (add_latest_rule P l ls writer is bad λ s' k same fits. good l ls s' k is same fits)

  -- With the entry x the segments hold zs and then the rest, and zs is one longer than what was counted.
  module _ (s : N.State) (xs others : List (List ℕ)) (h : Logs' xs others s) (x : List ℕ)
      (zs rest : List (List ℕ)) (shown : zs ++ rest ≡ (xs ++ others) ++ (x ∷ []))
      (one_more : length zs ≡ length xs + 1) (small : length xs + 1 < 2 ^ 64) where
    abbrev pub Counted : N.State → ℕ → Type 0
    Counted s' i = (i ≡ length xs) × Logs' zs rest s'

    abbrev pub Uncounted : N.State → Type 0
    Uncounted s' = (more : List (List ℕ)) × Logs' xs more s'

    -- The count is written over the segments that hold the entry.
    pub write_spine-Counted :
        (s2 : N.State) (k : Logs' xs (others ++ (x ∷ [])) s2)
        → names k.links ≡ names h.links
        → Ends Uncounted Counted (
            continue
              (write_spine N H J self (counted (spine s xs others h x)) s2)
              (λ u. pure (length xs)))
    write_spine-Counted s2 k same_names =
        write_spine_rule N H J laws json self cap
          (λ o. Ends Uncounted Counted (continue o (λ u. pure (length xs))))
          (counted (spine s xs others h x)) s2
          (λ s' why same. (
            others ++ (x ∷ []),
            Logs-Same N H J laws json self cap xs (others ++ (x ∷ [])) s2 s' same k,
          ))
          λ s' bytes reads w. (
            refl,
            Logs-Wrote N H J laws json self cap zs rest s2 s' k.links bytes
                (reads ∙ ap done (rw (mod-eq_of_lt small, sym one_more, same_names) refl)) w
                k.linked k.outside k.apart k.filled k.positive
                (k.entries ∙ sym (append_assoc xs others (x ∷ [])) ∙ sym shown),
          )
