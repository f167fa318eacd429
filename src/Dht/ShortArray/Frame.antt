-- ===== src/Dht/ShortArray/Frame.antt =====
-- What the methods of an array leave alone: the values of all other records.
use rekindle.Base.{
  ℕ, ◌+◌, ◌^◌, List, [], ◌∷◌, Option, none, some, String, length, ltb, leb, if◌then◌else◌, ◌≡◌, ◌≢◌,
  refl, sym, ap, ◌∙◌, Bool-cases, inl, inr,
}
use Prim.Native.String.{◌++◌ as append}
use rekindle.Base.Actions.{Ends, after_from, both_Ends}
use rekindle.Dht.Network.{
  Network, IsLawful, Allocates, Same, Descriptor, Result, ProtocolError, failed, done, map_err,
  continue, pure, throw, ◌>>=◌,
}
use rekindle.Dht.Network.Rules.{Wrote, after_write}
use rekindle.Dht.ShortArray.{
  HeadJson, IsFaithful, ShortArrayHead, Self, read_head, read_head_raw, parsed, add, add_at, create,
  begin, schema, open_array, encoded, find_free_slot,
}
use rekindle.Dht.ShortArray.Heads.{read_head_raw-Has, Has-Same, write_head_rule}
use rekindle.Dht.ShortArray.Contents.{Holds, Stored}
use rekindle.Dht.ShortArray.Clear.{Made, create-Made}

module _ (N : Network) where
  -- Every value of the records that it says is still there.
  abbrev pub KeptOf : (N.RecordKey → Type 0) → N.State → N.State → Type 0
  KeptOf P s s' =
      (l : N.RecordKey) (i : ℕ) (b : List ℕ)
      → P l
      → N.get_dht_value l i s ≡ done (some b)
      → N.get_dht_value l i s' ≡ done (some b)

  abbrev pub KeptBut : N.RecordKey → N.State → N.State → Type 0
  KeptBut k = KeptOf (λ l. k ≢ l)

  abbrev pub Kept : N.State → N.State → Type 0
  Kept = KeptOf (λ l. Unit {0})

  -- Nothing was stored at the key.
  abbrev pub IsFresh : N.State → N.RecordKey → Type 0
  IsFresh s k =
      (l : N.RecordKey) (i : ℕ) (b : List ℕ) → N.get_dht_value l i s ≡ done (some b) → l ≢ k

  Kept-Same : (P : N.RecordKey → Type 0) (s s' : N.State) → Same N s s' → KeptOf P s s'
  Kept-Same P s s' same l i b p e = same l i ∙ e

module _ (N : Network) (J : HeadJson) where
  -- An array whose values are still there holds what it held.
  Stored-Kept :
      (at at' : ℕ → Result String (Option (List ℕ))) (slots : List ℕ) (xs : List (List ℕ))
      → ((i : ℕ) (b : List ℕ) → at i ≡ done (some b) → at' i ≡ done (some b))
      → Stored at slots xs
      → Stored at' slots xs
  Stored-Kept at at' [] [] kept h = tt
  Stored-Kept at at' [] (x ∷ xs) kept h = h
  Stored-Kept at at' (slot ∷ slots) [] kept h = h
  Stored-Kept at at' (slot ∷ slots) (x ∷ xs) kept h =
      (kept (slot + 1) x h.0, Stored-Kept at at' slots xs kept h.1)

  pub Holds-Kept :
      (P : N.RecordKey → Type 0) (key : N.RecordKey) (stride : ℕ) (s s' : N.State)
      (xs : List (List ℕ))
      → KeptOf N P s s'
      → P key
      → Holds N J key stride s xs
      → Holds N J key stride s' xs
  Holds-Kept P key stride s s' xs kept p h = record {
    slots = h.slots;
    bytes = h.bytes;
    at_head = kept key 0 h.bytes p h.at_head;
    reads = h.reads;
    single = h.single;
    inside = h.inside;
    within = h.within;
    small = h.small;
    stored = Stored-Kept _ _ h.slots xs (λ i b e. kept key i b p e) h.stored;
  }

module _ (N : Network) (J : HeadJson) (laws : IsLawful N) (json : IsFaithful J) where
  module _ (self : Self N J) (s : N.State) where
    abbrev Spares : N.State → Type 0
    Spares s' = KeptBut N self.record_key s s'

    Spares-Wrote :
        (t t' : N.State) (i : ℕ) (b : List ℕ)
        → Spares t
        → Wrote N laws self.record_key i b t t'
        → Spares t'
    Spares-Wrote t t' i b kept w l j c ne e = w.keys l j ne ∙ kept l j c ne e

    Spares-Same : (t t' : N.State) → Spares t → Same N t t' → Spares t'
    Spares-Same t t' kept same l j c ne e = same l j ∙ kept l j c ne e

    add_at-KeptBut :
        (data_ : List ℕ) (head : ShortArrayHead) (slot : ℕ)
        → Ends Spares (λ s' i. Spares s') (add_at N J self data_ head slot s)
    unfolding add_at
    add_at-KeptBut data_ head slot =
        after_write N laws (Ends Spares (λ s' i. Spares s')) _ self.record_key (slot + 1) data_ _ s
          (λ s' why same. Kept-Same N _ s s' same)
          λ s' w.
            let kept = Spares-Wrote s s' (slot + 1) data_ (λ l i b ne e. e) w in
            elim (Bool-cases (ltb (length head.slots) (2 ^ 32))) [
              | inr large ↦ rw large kept
              | inl small ↦ rw small (
                  write_head_rule N J laws json
                    (λ o.
                      Ends Spares (λ t i. Spares t) (continue o (λ _. pure (length head.slots))))
                    self _ s' (λ t why same. Spares-Same s' t kept same)
                    λ t bytes reads v. Spares-Wrote s' t 0 bytes kept v)
            ]

    -- Adding to an array, successful or not, changes no other record.
    pub add-KeptBut : (data_ : List ℕ) → Ends Spares (λ s' i. Spares s') (add N J self data_ s)
    unfolding add read_head read_head_raw
    add-KeptBut data_ =
        after_from (Ends Spares (λ s' i. Spares s'))
          (parsed N J (
            map_err (λ why. ProtocolError.dht_error (append "read head: " why))
              (N.get_dht_value self.record_key 0 s)))
          (λ head.
            if leb self.stride (length head.slots)
            then throw (ProtocolError.dht_error "short array is full")
            else add_at N J self data_ head (find_free_slot self.stride head))
          s (λ why e l i b ne at. at)
          λ head e. elim (Bool-cases (leb self.stride (length head.slots))) [
            | inl full ↦ rw full (λ l i b ne at. at)
            | inr room ↦ rw room (add_at-KeptBut data_ head (find_free_slot self.stride head))
          ]

  -- Creating an array keeps all values, and its key is a new one.
  module _ (new : Allocates N) (s : N.State) where
    abbrev Created : N.State → Self N J × N.KeyPair → Type 0
    Created s' made = Kept N s s' × IsFresh N s made.0.record_key

    begin-Created :
        (capacity : ℕ) (d : Descriptor N.RecordKey N.KeyPair) (secret : Option N.KeyPair)
        (s' : N.State)
        → Kept N s s'
        → IsFresh N s d.key
        → Ends (Kept N s) Created (begin N J capacity d secret s')
    begin-Created capacity d none s' kept fresh = kept
    begin-Created capacity d (some keypair) s' kept fresh =
        after_from (Ends (Kept N s) Created)
          (encoded N J (record { stride = capacity; slots = [] })) _ s' (λ why e. kept)
          λ bytes e.
            after_write N laws (Ends (Kept N s) Created) _ d.key 0 bytes _ s'
              (λ t why same l i b u at. same l i ∙ kept l i b u at)
              λ t w. (
                (λ l i b u at. w.keys l i (λ same. fresh l i b at (sym same)) ∙ kept l i b u at),
                fresh,
              )

    allocated-Created :
        (capacity n : ℕ) (owner : Option N.KeyPair)
        (o : N.State × Result String (Descriptor N.RecordKey N.KeyPair))
        → N.create_dht_record n owner s ≡ o
        → Ends (Kept N s) Created (
            continue
              (
                o.0,
                map_err
                    (λ why. ProtocolError.dht_error (append "create short array record: " why))
                    o.1,
              )
              (λ d. begin N J capacity d d.owner_secret))
    allocated-Created capacity n owner (s', failed why) e =
        Kept-Same N _ s s' (new.get-create_failed n owner s s' why e)
    allocated-Created capacity n owner (s', done d) e =
        let fresh : IsFresh N s d.key = λ l i b at. new.fresh n owner s s' d l i b e at in
        begin-Created capacity d d.owner_secret s'
          (λ l i b u at. new.get-create n owner s s' d l i e (fresh l i b at) ∙ at) fresh

    create-Created :
        (capacity : ℕ) (owner : Option N.KeyPair)
        → Ends (Kept N s) Created (create N J capacity owner s)
    unfolding create
    create-Created capacity owner = elim (Bool-cases (ltb (capacity + 1) (2 ^ 16))) [
      | inl small ↦ rw small (
          after_from (Ends (Kept N s) Created) (schema N J (capacity + 1)) _ s
            (λ why e l i b u at. at) λ u e. allocated-Created capacity (capacity + 1) owner _ refl)
      | inr large ↦ rw large (λ l i b u at. at)
    ]

    -- Both: it is empty, of the capacity asked for, at a new key, and all values are still there.
    pub create-New :
        (capacity : ℕ) (owner : Option N.KeyPair)
        → Ends
            (λ s'. Unit {0} × Kept N s s')
            (λ s' made.
              Made N J laws json capacity s' made × (Kept N s s' × IsFresh N s made.0.record_key))
            (create N J capacity owner s)
    create-New capacity owner =
        both_Ends (λ s'. Unit {0}) (Kept N s) (Made N J laws json capacity) Created
          (create N J capacity owner s) (create-Made N J laws json capacity owner s)
          (create-Created capacity owner)

  -- An array that is there is opened with its stride, or the network fails; nothing changes.
  pub open_rule :
      {B : Type 0} (P : N.State × Result ProtocolError B → Type 0) (name : String)
      (key : N.RecordKey) (writer : Option N.KeyPair) (stride : ℕ) (s : N.State)
      (xs : List (List ℕ)) (f : Self N J → N.State → N.State × Result ProtocolError B)
      → N.parse name ≡ done key
      → Holds N J key stride s xs
      → ((s' : N.State) (why : ProtocolError) → Same N s s' → P (s', failed why))
      → ((s' : N.State)
          → Same N s s'
          → P (f (record { record_key = key; owner_keypair = writer; stride = stride }) s'))
      → P (continue (open_array N J name writer s) f)
  unfolding open_array
  open_rule P name key writer stride s xs f e h bad good =
      rw e (go (N.open_dht_record key writer s) refl)
    where
      go :
          (o : N.State × Result String (Unit {0}))
          → N.open_dht_record key writer s ≡ o
          → P (
              continue
                (continue
                  (
                    o.0,
                    map_err (λ why. ProtocolError.dht_error (append "open short array: " why)) o.1,
                  )
                  (λ u. read_head_raw N J key >>= λ head.
                    pure
                      (record { record_key = key; owner_keypair = writer; stride = head.stride })))
                f)
      go (s', failed why) q =
          bad s' _
            (λ l i. ap (λ r. N.get_dht_value l i r.0) (sym q) ∙ laws.get-open key writer s l i)
      go (s', done u) q =
          let same : Same N s s' =
            λ l i. ap (λ r. N.get_dht_value l i r.0) (sym q) ∙ laws.get-open key writer s l i in
          let h' = Has-Same N J laws json key stride s s' xs same h in
          rw (read_head_raw-Has N J laws json key stride s' xs h') (good s' same)
