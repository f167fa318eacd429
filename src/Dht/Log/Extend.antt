-- ===== src/Dht/Log/Extend.antt =====
-- An entry more in the latest segment of a log.
use rekindle.Base.{ℕ, ◌<◌, some, List, [], ◌∷◌, ◌++◌, length, All, ◌≡◌, ◌≢◌, sym, ap, ◌∙◌}
use mathlib.Core.Path.{subst}
use mathlib.Core.List.{append_assoc}
use rekindle.Dht.Network.{Network, IsLawful, done}
use rekindle.Dht.ShortArray.{HeadJson}
use rekindle.Dht.ShortArray.Contents.{Holds}
use rekindle.Dht.ShortArray.Frame.{KeptBut, Holds-Kept}
use rekindle.Dht.Log.{SpineJson, IsFaithful, Log}
use rekindle.Dht.Log.Chain.{
  Link, names, all_entries, Filled, Apart, IsLinked, latest, extended, names-extended,
  all_entries-extended, extended-Filled, Apart-extended, extended-Apart,
}
use rekindle.Dht.Log.Contents.{Logs, spine_of}

pub All-latest {ℓ} :
    {K : Type 0} (P : Link K → Type ℓ) (l : Link K) (ls : List (Link K))
    → All P (l ∷ ls)
    → P (latest l ls)
All-latest P l [] h = h.0
All-latest P l (m ∷ ls) h = All-latest P m ls h.1

module _ (N : Network) (H : HeadJson) (cap : ℕ) (s s' : N.State) where
  one_kept :
      (key : N.RecordKey) (l : Link N.RecordKey)
      → KeptBut N key s s'
      → l.key ≢ key
      → IsLinked N H cap s l
      → IsLinked N H cap s' l
  one_kept key l spared ne h =
      (h.0, Holds-Kept N H (λ k. key ≢ k) l.key cap s s' l.entries spared (λ e. ne (sym e)) h.1)

  -- Only the latest segment was touched, and it holds what it held.
  IsLinked-same :
      (l : Link N.RecordKey) (ls : List (Link N.RecordKey))
      → KeptBut N (latest l ls).key s s'
      → Apart (l ∷ ls)
      → Holds N H (latest l ls).key cap s' (latest l ls).entries
      → All (IsLinked N H cap s) (l ∷ ls)
      → All (IsLinked N H cap s') (l ∷ ls)
  IsLinked-same l [] spared apart holds h = ((h.0.0, holds), tt)
  IsLinked-same l (m ∷ ls) spared apart holds h = (
    one_kept (latest m ls).key l spared (All-latest (λ n. l.key ≢ n.key) m ls apart.0) h.0,
    IsLinked-same m ls spared apart.1 holds h.1,
  )

  -- Or an entry more.
  IsLinked-extended :
      (x : List ℕ) (l : Link N.RecordKey) (ls : List (Link N.RecordKey))
      → KeptBut N (latest l ls).key s s'
      → Apart (l ∷ ls)
      → Holds N H (latest l ls).key cap s' ((latest l ls).entries ++ (x ∷ []))
      → All (IsLinked N H cap s) (l ∷ ls)
      → All (IsLinked N H cap s') (extended x l ls)
  IsLinked-extended x l [] spared apart holds h = ((h.0.0, holds), tt)
  IsLinked-extended x l (m ∷ ls) spared apart holds h = (
    one_kept (latest m ls).key l spared (All-latest (λ n. l.key ≢ n.key) m ls apart.0) h.0,
    IsLinked-extended x m ls spared apart.1 holds h.1,
  )

module _ (N : Network) (H : HeadJson) (J : SpineJson) (laws : IsLawful N) (json : IsFaithful J)
    (self : Log N H J) (cap : ℕ) where
  module _ (xs others : List (List ℕ)) (s s' : N.State)
      (h : Logs N H J laws json self cap xs others s) (l : Link N.RecordKey)
      (ls : List (Link N.RecordKey)) (is : h.links ≡ l ∷ ls)
      (spared : KeptBut N (latest l ls).key s s') where
    kept_spine : N.get_dht_value self.spine_key 0 s' ≡ done (some h.bytes)
    kept_spine =
        spared self.spine_key 0 h.bytes
          (λ e.
            All-latest (λ n. self.spine_key ≢ n.key) l ls
              (subst (All (λ (n : Link N.RecordKey). self.spine_key ≢ n.key)) is h.outside) (sym e))
          h.at_spine

    -- The latest segment still holds what it held.
    pub Logs-same :
        Holds N H (latest l ls).key cap s' (latest l ls).entries
        → Logs N H J laws json self cap xs others s'
    Logs-same holds = record {
      bytes = h.bytes;
      links = h.links;
      at_spine = kept_spine;
      reads = h.reads;
      linked = subst (All (IsLinked N H cap s')) (sym is) (
          IsLinked-same N H cap s s' l ls spared (subst Apart is h.apart) holds
            (subst (All (IsLinked N H cap s)) is h.linked));
      outside = h.outside;
      apart = h.apart;
      filled = h.filled;
      positive = h.positive;
      entries = h.entries;
    }

    -- It holds an entry more, that the spine does not count yet.
    pub Logs-extended :
        (x : List ℕ)
        → length (latest l ls).entries < cap
        → Holds N H (latest l ls).key cap s' ((latest l ls).entries ++ (x ∷ []))
        → (k : Logs N H J laws json self cap xs (others ++ (x ∷ [])) s') × (names k.links
            ≡ names h.links)
    Logs-extended x room holds = (
      record {
        bytes = h.bytes;
        links = extended x l ls;
        at_spine = kept_spine;
        reads =
            subst
              (λ ns. J.from_slice h.bytes ≡ done (spine_of N H J laws json self cap (length xs) ns))
              (ap names is ∙ sym (names-extended x l ls)) h.reads;
        linked =
            IsLinked-extended N H cap s s' x l ls spared (subst Apart is h.apart) holds
              (subst (All (IsLinked N H cap s)) is h.linked);
        outside =
            Apart-extended (λ k. self.spine_key ≢ k) x l ls
              (subst (All (λ (n : Link N.RecordKey). self.spine_key ≢ n.key)) is h.outside);
        apart = extended-Apart x l ls (subst Apart is h.apart);
        filled = extended-Filled cap x l ls (subst (Filled cap) is h.filled) room;
        positive = h.positive;
        entries =
            all_entries-extended x l ls
            ∙ ap (λ es. es ++ (x ∷ [])) (ap all_entries (sym is) ∙ h.entries)
            ∙ append_assoc xs others (x ∷ []);
      },
      names-extended x l ls ∙ ap names (sym is),
    )
