-- ===== src/Dht/ShortArray/Heads.antt =====
-- A head with elements at its slots, under reading and writing.
use rekindle.Base.{
  ℕ, ◌+◌, ◌≤◌, ◌<◌, ◌^◌, false, List, Option, String, length, All, ◌≡◌, refl, ◌∙◌, arith,
}
use rekindle.Dht.Network.{
  Network, IsLawful, Same, Result, failed, done, ProtocolError, continue, write, map_err,
}
use rekindle.Dht.Network.Rules.{Wrote, write_rule}
use rekindle.Dht.ShortArray.{ShortArrayHead, HeadJson, IsFaithful, Self, read_head_raw, write_head}
use rekindle.Dht.ShortArray.Slots.{holds}
use rekindle.Dht.ShortArray.Contents.{Single, Stored, Holds, Stored-agree}

module _ (N : Network) (J : HeadJson) (laws : IsLawful N) (json : IsFaithful J) where
  module _ (key : N.RecordKey) (stride : ℕ) where
    abbrev pub Has : List (List ℕ) → N.State → Type 0
    Has xs s = Holds N J key stride s xs

    abbrev pub values : N.State → ℕ → Result String (Option (List ℕ))
    values s i = N.get_dht_value key i s

    pub read_head_raw-Has :
        (s : N.State) (xs : List (List ℕ)) (h : Has xs s)
        → read_head_raw N J key s ≡ (s, done (record { stride = stride; slots = h.slots }))
    unfolding read_head_raw
    read_head_raw-Has s xs h = rw (h.at_head, h.reads)

    -- The elements at the slots change, and the head does not.
    pub Has-slots :
        (s s' : N.State) (xs ys : List (List ℕ)) (h : Has xs s)
        → values s' 0 ≡ values s 0
        → Stored (values s') h.slots ys
        → Has ys s'
    Has-slots s s' xs ys h same stored = record {
      slots = h.slots;
      bytes = h.bytes;
      at_head = same ∙ h.at_head;
      reads = h.reads;
      single = h.single;
      inside = h.inside;
      within = h.within;
      small = h.small;
      stored = stored;
    }

    pub Has-Same : (s s' : N.State) (xs : List (List ℕ)) → Same N s s' → Has xs s → Has xs s'
    Has-Same s s' xs same h =
        Has-slots s s' xs xs h (same key 0) (
          Stored-agree (values s) (values s') h.slots xs (λ slot used. same key (slot + 1))
            h.stored)

    -- A slot that is in no use is written.
    pub Stored-spare :
        (s s' : N.State) (xs : List (List ℕ)) (slots : List ℕ) (slot : ℕ) (b : List ℕ)
        → holds slots slot ≡ false
        → Wrote N laws key (slot + 1) b s s'
        → Stored (values s) slots xs
        → Stored (values s') slots xs
    Stored-spare s s' xs slots slot b spare w stored =
        Stored-agree (values s) (values s') slots xs
          (λ t used. w.subkeys (t + 1) (ground (arith, used, spare))) stored

    pub Has-spare :
        (s s' : N.State) (xs : List (List ℕ)) (slot : ℕ) (b : List ℕ) (h : Has xs s)
        → holds h.slots slot ≡ false
        → Wrote N laws key (slot + 1) b s s'
        → Has xs s'
    Has-spare s s' xs slot b h spare w =
        Has-slots s s' xs xs h (w.subkeys 0 (omega arith))
          (Stored-spare s s' xs h.slots slot b spare w h.stored)

    -- A head is written, over the elements that stand at its slots.
    pub Has-head :
        (s s' : N.State) (xs : List (List ℕ)) (slots bytes : List ℕ)
        → J.from_slice bytes ≡ done (record { stride = stride; slots = slots })
        → Wrote N laws key 0 bytes s s'
        → Single slots
        → All (λ slot. slot < stride) slots
        → length slots ≤ stride
        → stride < 2 ^ 16
        → Stored (values s) slots xs
        → Has xs s'
    Has-head s s' xs slots bytes reads w single inside within small stored = record {
      slots = slots;
      bytes = bytes;
      at_head = w.at;
      reads = reads;
      single = single;
      inside = inside;
      within = within;
      small = small;
      stored =
          Stored-agree (values s) (values s') slots xs (λ t used. w.subkeys (t + 1) (omega arith))
            stored;
    }

  -- The head is written, or nothing changes.
  pub write_head_rule :
      (P : N.State × Result ProtocolError (Unit {0}) → Type 0) (self : Self N J)
      (head : ShortArrayHead) (s : N.State)
      → ((s' : N.State) (why : ProtocolError) → Same N s s' → P (s', failed why))
      → ((s' : N.State) (bytes : List ℕ)
          → J.from_slice bytes ≡ done head
          → Wrote N laws self.record_key 0 bytes s s'
          → P (s', done tt))
      → P (write_head N J self head s)
  unfolding write_head
  write_head_rule P self head s bad good = go (J.to_vec head) refl
    where
      go :
          (o : Result String (List ℕ))
          → J.to_vec head ≡ o
          → P (
              continue
                (s, map_err ProtocolError.serialization o)
                (λ bytes. write N "write head: " self.record_key 0 bytes))
      go (failed why) e = bad s _ (λ k i. refl)
      go (done bytes) e =
          write_rule N laws P "write head: " self.record_key 0 bytes s bad
            λ s' w. good s' bytes (json.from_slice-to_vec head bytes e) w
