-- ===== src/Dht/Network/Memory.antt =====
-- A network in memory: the sizes of the records, and what was set, newest first. It shows that the
-- laws can hold, and runs the examples.
use Prim.Native.String.{String}
use rekindle.Base.{
  ℕ, zero, suc, ◌==◌, ltb, if◌then◌else◌, Bool, false, ◌&&◌, List, [], ◌∷◌, ◌++◌, Option, none,
  some, length, length-append, get_elem?, ◌≡◌, ◌≢◌, ◌<◌, true, refl, sym, ap, inl, inr, Bool-cases,
  arith,
}
use rekindle.Base.Text.{codes}
use rekindle.Dht.Network.{Network, IsLawful, Allocates, Result, failed, done}

pub record Memory : Type 0 where
  pub sizes : List ℕ
  pub values : List (ℕ × (ℕ × List ℕ))

unfoldable pub lookup : ℕ → ℕ → List (ℕ × (ℕ × List ℕ)) → Option (List ℕ)
lookup k i [] = none
lookup k i ((l, (j, b)) ∷ values) =
    let rest = lookup k i values in if (l == k) && (j == i) then some b else rest

unfoldable pub room : ℕ → Option ℕ → Bool
room i none = false
room i (some size) = ltb i size

-- The value at a record that was created.
unfoldable pub value_at : ℕ → ℕ → Memory → Result String (Option (List ℕ))
value_at k i m = done (if ltb k (length m.sizes) then lookup k i m.values else none)

unfoldable pub set_value : ℕ → ℕ → List ℕ → Memory → Memory × Result String (Unit {0})
set_value k i b m =
    if room i (get_elem? m.sizes k)
    then (record m { values = (k, (i, b)) ∷ m.values }, done tt)
    else (m, failed "subkey out of range")

-- A key as text: so many letters.
unfoldable pub letters : ℕ → String
letters zero = String.[]
letters (suc n) = String.◌∷◌ "k" (letters n)

abbrev pub memory : Network
memory = record {
  State = Memory;
  RecordKey = ℕ;
  KeyPair = ℕ;
  to_string = letters;
  parse = λ text. done (length (codes text));
  dflt = λ n. done tt;
  create_dht_record = λ n owner m. (
    record m { sizes = m.sizes ++ (n ∷ []) },
    done (record { key = length m.sizes; owner_secret = some 7 }),
  );
  open_dht_record = λ k writer m. (m, done tt);
  close_dht_record = λ k m. (m, done tt);
  get_dht_value = value_at;
  set_dht_value = set_value;
}

set_value-done :
    (k i : ℕ) (b : List ℕ) (m m' : Memory)
    → set_value k i b m ≡ (m', done tt)
    → m' ≡ record m { values = (k, (i, b)) ∷ m.values }
unfolding set_value
set_value-done k i b m m' e = ground arith

set_value-failed :
    (k i : ℕ) (b : List ℕ) (m m' : Memory) (why : String)
    → set_value k i b m ≡ (m', failed why)
    → m' ≡ m
unfolding set_value
set_value-failed k i b m m' why e = ground arith

lt-room : (i k : ℕ) (sizes : List ℕ) → room i (get_elem? sizes k) ≡ true → k < length sizes
unfolding room
lt-room i k [] e = ground arith
lt-room i zero (n ∷ sizes) e = omega arith
lt-room i (suc k) (n ∷ sizes) e = omega (arith, lt-room i k sizes e)

set_value-room :
    (k i : ℕ) (b : List ℕ) (m m' : Memory) → set_value k i b m ≡ (m', done tt) → k < length m.sizes
unfolding set_value
set_value-room k i b m m' e = elim (Bool-cases (room i (get_elem? m.sizes k))) [
  | inl r ↦ lt-room i k m.sizes r
  | inr r ↦ ground (arith, r, e)
]

pub parse-letters : (n : ℕ) → length (codes (letters n)) ≡ n
unfolding letters
parse-letters zero = refl
parse-letters (suc n) = omega (arith, parse-letters n)

pub memory-IsLawful : IsLawful memory
unfolding lookup value_at
memory-IsLawful = record {
  get-set = λ k i b s s' e.
      let r = set_value-room k i b s s' e in rw (set_value-done k i b s s' e) (ground (arith, r));
  get-set_subkey = λ k i j b s s' ne e. rw (set_value-done k i b s s' e) (ground (arith, ne));
  get-set_key = λ k l i j b s s' ne e. rw (set_value-done k i b s s' e) (ground (arith, ne));
  get-set_failed = λ k i b s s' why e l j. rw (set_value-failed _ _ _ s s' why e) refl;
  get-open = λ k writer s l i. refl;
}

created-fresh :
    (s : Memory) (k i : ℕ) (b : List ℕ) → value_at k i s ≡ done (some b) → k < length s.sizes
unfolding value_at
created-fresh s k i b e = ground (arith, e)

value_at-created :
    (n : ℕ) (s : Memory) (k i : ℕ)
    → k ≢ length s.sizes
    → value_at k i (record s { sizes = s.sizes ++ (n ∷ []) }) ≡ value_at k i s
unfolding value_at
value_at-created n s k i ne = ground (arith, length-append s.sizes (n ∷ []), ne)

pub memory-Allocates : Allocates memory
memory-Allocates = record {
  fresh = λ n owner s s' d k i b e at.
      let below = created-fresh s k i b at in
      let key : length s.sizes ≡ d.key = ground (arith, e) in omega (arith, below, key);
  get-create = λ n owner s s' d k i e ne.
      let key : length s.sizes ≡ d.key = ground (arith, e) in
      let same : record s { sizes = s.sizes ++ (n ∷ []) } ≡ s' = ap (λ p. p.0) e in
      rw (sym same) (value_at-created n s k i (rw key ne));
  get-create_failed = λ n owner s s' why e. ground (arith, e);
  parse-to_string = λ k. rw (parse-letters k) refl;
}
