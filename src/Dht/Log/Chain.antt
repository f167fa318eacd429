-- ===== src/Dht/Log/Chain.antt =====
-- The segments of a log: each a record with its key as text, its key and the entries it holds.
use rekindle.Base.{
  ℕ, zero, suc, ◌+◌, ◌*◌, ◌%◌, ◌≤◌, ◌<◌, String, List, [], ◌∷◌, ◌++◌, some, map, length, get_elem?,
  All, ◌≡◌, ◌≢◌, refl, sym, ap, ◌∙◌, arith, length-append,
}
use mathlib.Core.List.{append_assoc, append-nil}
use native.Mathlib.Decide.{dec_lt}
use native.Mathlib.Nat.{mul-add-mod_self_right, mod_self, mod-eq_of_lt}
use rekindle.Dht.Network.{Network, done}
use rekindle.Dht.ShortArray.{HeadJson}
use rekindle.Dht.ShortArray.Contents.{Holds, All-append}
use rekindle.Dht.Log.{last}

pub record Link (RecordKey : Type 0) : Type 0 where
  pub name : String
  pub key : RecordKey
  pub entries : List (List ℕ)

-- An entry of the list at an index below its length, and in front of other entries.
pub get_elem?-append {ℓ} :
    {A : Type ℓ} (xs ys : List A) (i : ℕ) → i < length xs → get_elem? (xs ++ ys) i ≡ get_elem? xs i
get_elem?-append [] ys i h = ground (arith, h)
get_elem?-append (x ∷ xs) ys zero h = refl
get_elem?-append (x ∷ xs) ys (suc i) h = get_elem?-append xs ys i (omega (arith, h))

pub get_elem?-append_right {ℓ} :
    {A : Type ℓ} (xs ys : List A) (i : ℕ) → get_elem? (xs ++ ys) (length xs + i) ≡ get_elem? ys i
get_elem?-append_right [] ys i = ap (get_elem? ys) (omega arith)
get_elem?-append_right (x ∷ xs) ys i =
    let e : length (x ∷ xs) + i ≡ suc (length xs + i) = omega arith in
    ap (get_elem? ((x ∷ xs) ++ ys)) e ∙ get_elem?-append_right xs ys i

module _ {K : Type 0} where
  abbrev pub all_entries : List (Link K) → List (List ℕ)
  all_entries [] = []
  all_entries (l ∷ ls) = l.entries ++ all_entries ls

  abbrev pub names : List (Link K) → List String
  names ls = map (λ (l : Link K). l.name) ls

  -- All segments but the last are full, and the last is not empty.
  abbrev pub Filled : ℕ → List (Link K) → Type 0
  Filled cap [] = Unit
  Filled cap (l ∷ []) = (0 < length l.entries) × (length l.entries ≤ cap)
  Filled cap (l ∷ m ∷ ls) = (length l.entries ≡ cap) × Filled cap (m ∷ ls)

  -- No two segments have one key.
  abbrev pub Apart : List (Link K) → Type 0
  Apart [] = Unit
  Apart (l ∷ ls) = All (λ (m : Link K). l.key ≢ m.key) ls × Apart ls

  abbrev pub latest : Link K → List (Link K) → Link K
  latest l [] = l
  latest l (m ∷ ls) = latest m ls

  abbrev pub with_entry : List ℕ → Link K → Link K
  with_entry x l = record l { entries = l.entries ++ (x ∷ []) }

  -- An entry more in the last segment.
  abbrev pub extended : List ℕ → Link K → List (Link K) → List (Link K)
  extended x l [] = with_entry x l ∷ []
  extended x l (m ∷ ls) = l ∷ extended x m ls

  pub last-names :
      (l : Link K) (ls : List (Link K)) → last (names (l ∷ ls)) ≡ some (latest l ls).name
  last-names l [] = refl
  last-names l (m ∷ ls) = last-names m ls

  pub names-extended :
      (x : List ℕ) (l : Link K) (ls : List (Link K)) → names (extended x l ls) ≡ names (l ∷ ls)
  names-extended x l [] = refl
  names-extended x l (m ∷ ls) = ap (λ ns. l.name ∷ ns) (names-extended x m ls)

  pub all_entries-extended :
      (x : List ℕ) (l : Link K) (ls : List (Link K))
      → all_entries (extended x l ls) ≡ all_entries (l ∷ ls) ++ (x ∷ [])
  all_entries-extended x l [] =
      append-nil _ ∙ ap (λ es. es ++ (x ∷ [])) (sym (append-nil l.entries))
  all_entries-extended x l (m ∷ ls) =
      ap (λ es. l.entries ++ es) (all_entries-extended x m ls)
      ∙ sym (append_assoc l.entries (all_entries (m ∷ ls)) (x ∷ []))

  pub all_entries-append :
      (ls : List (Link K)) (n : Link K) → all_entries (ls ++ (n ∷ [])) ≡ all_entries ls ++ n.entries
  all_entries-append [] n = append-nil n.entries
  all_entries-append (l ∷ ls) n =
      ap (λ es. l.entries ++ es) (all_entries-append ls n)
      ∙ sym (append_assoc l.entries (all_entries ls) n.entries)

  pub names-append :
      (ls : List (Link K)) (n : Link K) → names (ls ++ (n ∷ [])) ≡ names ls ++ (n.name ∷ [])
  names-append [] n = refl
  names-append (l ∷ ls) n = ap (λ ns. l.name ∷ ns) (names-append ls n)

  pub length-all_entries :
      (cap : ℕ) (l : Link K) (ls : List (Link K))
      → Filled cap (l ∷ ls)
      → length (all_entries (l ∷ ls)) ≡ length ls * cap + length (latest l ls).entries
  length-all_entries cap l [] h = omega (arith, length-append l.entries [])
  length-all_entries cap l (m ∷ ls) h =
      omega (
        arith,
        length-append l.entries (all_entries (m ∷ ls)),
        h.0,
        length-all_entries cap m ls h.1,
      )

  pub latest-Filled :
      (cap : ℕ) (l : Link K) (ls : List (Link K))
      → Filled cap (l ∷ ls)
      → (0 < length (latest l ls).entries) × (length (latest l ls).entries ≤ cap)
  latest-Filled cap l [] h = h
  latest-Filled cap l (m ∷ ls) h = latest-Filled cap m ls h.1

  -- The last segment is full exactly when the number of entries is a multiple of the capacity.
  mod-all_entries :
      (cap : ℕ) (l : Link K) (ls : List (Link K))
      → Filled cap (l ∷ ls)
      → length (all_entries (l ∷ ls)) % cap ≡ length (latest l ls).entries % cap
  mod-all_entries cap l ls h =
      ap (λ n. n % cap) (length-all_entries cap l ls h)
      ∙ mul-add-mod_self_right (length ls) cap (length (latest l ls).entries)

  pub full-latest :
      (cap : ℕ) (l : Link K) (ls : List (Link K))
      → Filled cap (l ∷ ls)
      → length (all_entries (l ∷ ls)) % cap ≡ 0
      → length (latest l ls).entries ≡ cap
  full-latest cap l ls h e =
      let (some_, most) = latest-Filled cap l ls h in
      let zero_ : length (latest l ls).entries % cap ≡ 0 = sym (mod-all_entries cap l ls h) ∙ e in
      elim (dec_lt (length (latest l ls).entries) cap) [
        | yes p ↦ omega (arith, some_, zero_, mod-eq_of_lt p)
        | no p ↦ omega (arith, most, p)
      ]

  pub room-latest :
      (cap : ℕ) (l : Link K) (ls : List (Link K))
      → Filled cap (l ∷ ls)
      → length (all_entries (l ∷ ls)) % cap ≢ 0
      → length (latest l ls).entries < cap
  room-latest cap l ls h ne =
      let (some_, most) = latest-Filled cap l ls h in
      let same = mod-all_entries cap l ls h in
      elim (dec_lt (length (latest l ls).entries) cap) [
        | yes p ↦ p
        | no p ↦
            let full : length (latest l ls).entries ≡ cap = omega (arith, most, p) in
            absurd (ne (same ∙ ap (λ n. n % cap) full ∙ mod_self cap))
      ]

  pub extended-Filled :
      (cap : ℕ) (x : List ℕ) (l : Link K) (ls : List (Link K))
      → Filled cap (l ∷ ls)
      → length (latest l ls).entries < cap
      → Filled cap (extended x l ls)
  extended-Filled cap x l [] h room = (
    omega (arith, length-append l.entries (x ∷ [])),
    omega (arith, length-append l.entries (x ∷ []), room),
  )
  extended-Filled cap x l (m ∷ []) h room = (h.0, extended-Filled cap x m [] h.1 room)
  extended-Filled cap x l (m ∷ n ∷ ls) h room = (h.0, extended-Filled cap x m (n ∷ ls) h.1 room)

  pub append-Filled :
      (cap : ℕ) (l : Link K) (ls : List (Link K)) (n : Link K)
      → Filled cap (l ∷ ls)
      → length (latest l ls).entries ≡ cap
      → Filled cap (n ∷ [])
      → Filled cap ((l ∷ ls) ++ (n ∷ []))
  append-Filled cap l [] n h full one = (full, one)
  append-Filled cap l (m ∷ ls) n h full one = (h.0, append-Filled cap m ls n h.1 full one)

  pub Apart-extended :
      (P : K → Type 0) (x : List ℕ) (l : Link K) (ls : List (Link K))
      → All (λ (m : Link K). P m.key) (l ∷ ls)
      → All (λ (m : Link K). P m.key) (extended x l ls)
  Apart-extended P x l [] h = h
  Apart-extended P x l (m ∷ ls) h = (h.0, Apart-extended P x m ls h.1)

  pub extended-Apart :
      (x : List ℕ) (l : Link K) (ls : List (Link K)) → Apart (l ∷ ls) → Apart (extended x l ls)
  extended-Apart x l [] h = h
  extended-Apart x l (m ∷ ls) h =
      (Apart-extended (λ k. l.key ≢ k) x m ls h.0, extended-Apart x m ls h.1)

  pub append-Apart :
      (ls : List (Link K)) (n : Link K)
      → Apart ls
      → All (λ (m : Link K). m.key ≢ n.key) ls
      → Apart (ls ++ (n ∷ []))
  append-Apart [] n h new = (tt, tt)
  append-Apart (l ∷ ls) n h new =
      (All-append (λ (m : Link K). l.key ≢ m.key) ls n h.0 new.0, append-Apart ls n h.1 new.1)

module _ (N : Network) (H : HeadJson) (cap : ℕ) where
  abbrev pub IsLinked : N.State → Link N.RecordKey → Type 0
  IsLinked s l = (N.parse l.name ≡ done l.key) × Holds N H l.key cap s l.entries

  suc_mul : (n : ℕ) → suc n * cap ≡ cap + n * cap
  suc_mul n = omega arith

  first_entry :
      (xs ys : List (List ℕ)) (off : ℕ)
      → off < length xs
      → get_elem? xs off ≡ get_elem? (xs ++ ys) (0 * cap + off)
  first_entry xs ys off low =
      sym (get_elem?-append xs ys off low) ∙ ap (get_elem? (xs ++ ys)) (omega arith)

  -- The segment and the offset in it of an entry.
  pub find_entry :
      (s : N.State) (ls : List (Link N.RecordKey)) (idx off : ℕ)
      → Filled cap ls
      → All (IsLinked s) ls
      → off < cap
      → idx * cap + off < length (all_entries ls)
      → (l : Link N.RecordKey) × (get_elem? ls idx ≡ some l)
        × (get_elem? (names ls) idx ≡ some l.name)
        × IsLinked s l
        × (get_elem? l.entries off ≡ get_elem? (all_entries ls) (idx * cap + off))
  find_entry s [] idx off h linked small low = ground (arith, low)
  find_entry s (l ∷ []) zero off h linked small low = (
    l,
    refl,
    refl,
    linked.0,
    first_entry l.entries [] off (omega (arith, low, length-append l.entries [])),
  )
  find_entry s (l ∷ []) (suc idx) off h linked small low =
      absurd (omega (arith, low, h.1, length-append l.entries [], suc_mul idx))
  find_entry s (l ∷ m ∷ ls) zero off h linked small low = (
    l,
    refl,
    refl,
    linked.0,
    first_entry l.entries (all_entries (m ∷ ls)) off (omega (arith, small, h.0)),
  )
  find_entry s (l ∷ m ∷ ls) (suc idx) off h linked small low =
      let (k, at, named, is, same) =
        find_entry s (m ∷ ls) idx off h.1 linked.1 small
          (omega (arith, low, h.0, suc_mul idx, length-append l.entries (all_entries (m ∷ ls)))) in
      (
        k,
        at,
        named,
        is,
        same
            ∙ (sym (get_elem?-append_right l.entries (all_entries (m ∷ ls)) (idx * cap + off))
                ∙ ap (get_elem? (all_entries (l ∷ m ∷ ls))) (omega (arith, h.0, suc_mul idx))),
      )
