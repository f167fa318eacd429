-- ===== src/Dht/Network/Rules.antt =====
-- How a property of an action's outcome is proved, step by step.
use rekindle.Base.{ℕ, ◌≡◌, ◌≢◌, refl, String, List, some}
use rekindle.Dht.Network.{
  Network, IsLawful, Same, Action, Result, ProtocolError, failed, done, map_err, continue, ◌>>=◌,
  write,
}
use Prim.Native.String.{◌++◌ as append}

module _ (N : Network) (laws : IsLawful N) where
  -- What a write leaves behind.
  pub record Wrote (k : N.RecordKey) (i : ℕ) (b : List ℕ) (s s' : N.State) : Type 0 where
    pub at : N.get_dht_value k i s' ≡ done (some b)
    pub subkeys : (j : ℕ) → i ≢ j → N.get_dht_value k j s' ≡ N.get_dht_value k j s
    pub keys : (l : N.RecordKey) (j : ℕ) → k ≢ l → N.get_dht_value l j s' ≡ N.get_dht_value l j s

  pub write_rule :
      (P : N.State × Result ProtocolError (Unit {0}) → Type 0) (what : String) (k : N.RecordKey)
      (i : ℕ) (b : List ℕ) (s : N.State)
      → ((s' : N.State) (why : ProtocolError) → Same N s s' → P (s', failed why))
      → ((s' : N.State) → Wrote k i b s s' → P (s', done tt))
      → P (write N what k i b s)
  write_rule P what k i b s bad good = go (N.set_dht_value k i b s) refl
    where
      go :
          (o : N.State × Result String (Unit {0}))
          → N.set_dht_value k i b s ≡ o
          → P (o.0, map_err (λ why. ProtocolError.dht_error (append what why)) o.1)
      go (s', failed why) e = bad s' _ (laws.get-set_failed k i b s s' why e)
      go (s', done u) e = good s' (record {
        at = laws.get-set k i b s s' e;
        subkeys = λ j ne. laws.get-set_subkey k i j b s s' ne e;
        keys = λ l j ne. laws.get-set_key k l i j b s s' ne e;
      })

  pub after_write :
      {B : Type 0} (P : N.State × Result ProtocolError B → Type 0) (what : String) (k : N.RecordKey)
      (i : ℕ) (b : List ℕ) (f : Unit {0} → Action N.State B) (s : N.State)
      → ((s' : N.State) (why : ProtocolError) → Same N s s' → P (s', failed why))
      → ((s' : N.State) → Wrote k i b s s' → P (f tt s'))
      → P ((write N what k i b >>= f) s)
  after_write P what k i b f s bad good = write_rule (λ o. P (continue o f)) what k i b s bad good
