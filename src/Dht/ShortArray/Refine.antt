-- ===== src/Dht/ShortArray/Refine.antt =====
-- What the methods of an array do to its elements, whether or not the network fails on the way.
use rekindle.Base.{
  ℕ, ◌+◌, ◌<◌, ◌^◌, false, List, [], ◌∷◌, ◌++◌, Option, String, length, get_elem?, ◌≡◌, refl, ◌⊎◌,
  arith, Bool-cases, inl, inr, leb, lt→ltb, length-append,
}
use mathlib.Core.Path.{subst}
use rekindle.Base.Actions.{Ends}
use rekindle.Dht.Network.{Network, IsLawful, Result, done, continue, pure}
use rekindle.Dht.Network.Rules.{after_write}
use rekindle.Dht.ShortArray.{
  HeadJson, IsFaithful, remove_at, Self, read_head, add, add_at, get, remove, remove_slot, get_all,
  len, read_slots,
}
use rekindle.Dht.ShortArray.Slots.{holds, find_free_slot-lowest}
use rekindle.Dht.ShortArray.Heads.{
  Has, values, read_head_raw-Has, Has-slots, Has-Same, Stored-spare, Has-spare, Has-head,
  write_head_rule,
}
use rekindle.Dht.ShortArray.Contents.{
  remove_at-set_at, lt-get_elem?, set_at, Stored, length-Stored, Stored-append, Stored-remove_at,
  Stored-set_at, get_elem?-Stored, Single-append, Single-remove_at, length-remove_at, All-remove_at,
  All-append,
}

module _ (N : Network) (J : HeadJson) (laws : IsLawful N) (json : IsFaithful J)
    (self : Self N J) where
  abbrev pub values' : N.State → ℕ → Result String (Option (List ℕ))
  values' = values N J laws json self.record_key self.stride

  -- The array holds these elements.
  abbrev pub Keeps : List (List ℕ) → N.State → Type 0
  Keeps = Has N J laws json self.record_key self.stride

  module _ (s : N.State) (xs : List (List ℕ)) (h : Keeps xs s) where
    abbrev pub Added : List ℕ → N.State → ℕ → Type 0
    Added data_ s' i = (i ≡ length xs) × (length xs < self.stride) × Keeps (xs ++ (data_ ∷ [])) s'

    add_at-Added :
        (data_ : List ℕ) (slot : ℕ)
        → length h.slots < self.stride
        → slot < self.stride
        → holds h.slots slot ≡ false
        → Ends
            (Keeps xs)
            (Added data_)
            (add_at N J self data_ (record { stride = self.stride; slots = h.slots }) slot s)
    unfolding add_at
    add_at-Added data_ slot room inside spare =
        after_write N laws (Ends (Keeps xs) (Added data_)) _ self.record_key (slot + 1) data_ _ s
          (λ s' why same. Has-Same N J laws json self.record_key self.stride s s' xs same h)
          λ s' w. rw (lt→ltb (length h.slots) (2 ^ 32) (omega (arith, room, h.small))) (
            write_head_rule N J laws json
              (λ o. Ends (Keeps xs) (Added data_) (continue o (λ _. pure (length h.slots)))) self
              (record { stride = self.stride; slots = h.slots ++ (slot ∷ []) }) s'
              (λ t why same.
                Has-Same N J laws json self.record_key self.stride s' t xs same (
                  Has-spare N J laws json self.record_key self.stride s s' xs slot data_ h spare w))
              λ t bytes reads v. (
                length-Stored (values' s) h.slots xs h.stored,
                omega (arith, room, length-Stored (values' s) h.slots xs h.stored),
                Has-head N J laws json self.record_key self.stride s' t (xs ++ (data_ ∷ []))
                    (h.slots ++ (slot ∷ [])) bytes reads v
                    (Single-append h.slots slot h.single spare)
                    (All-append (λ t. t < self.stride) h.slots slot h.inside inside)
                    (omega (arith, length-append h.slots (slot ∷ []), room)) h.small
                    (Stored-append (values' s') h.slots xs slot data_
                      (Stored-spare N J laws json self.record_key self.stride s s' xs h.slots slot
                        data_ spare w h.stored)
                      w.at),
              ))

    -- Adding an element to an array that holds xs: it returns the length of xs, and then the array
    -- holds xs with the element at the end and had room for it; or it fails, and the array holds xs
    -- as before, whichever of the writes failed.
    pub add-Added : (data_ : List ℕ) → Ends (Keeps xs) (Added data_) (add N J self data_ s)
    unfolding add read_head
    add-Added data_ =
        rw (read_head_raw-Has N J laws json self.record_key self.stride s xs h)
          (elim (Bool-cases (leb self.stride (length h.slots))) [
            | inl full ↦ rw full h
            | inr room ↦
                let less : length h.slots < self.stride = ground (arith, room) in
                let (inside, spare, _) =
                  find_free_slot-lowest self.stride
                    (record { stride = self.stride; slots = h.slots }) less in
                rw room (add_at-Added data_ _ less inside spare)
          ])

    -- Reading an element: the array's element of that index, or none beyond the last.
    pub get-Holds : (i : ℕ) → get N J self i s ≡ (s, done (get_elem? xs i))
    unfolding get read_head
    get-Holds i =
        rw (read_head_raw-Has N J laws json self.record_key self.stride s xs h)
          (elim (get_elem?-Stored (values' s) i h.slots xs h.stored) [
            | inl (out, end) ↦ rw (out, end) refl
            | inr (slot, x, at, is, value) ↦ rw (at, is, value) refl
          ])

    abbrev pub Removed : ℕ → N.State → Unit {0} → Type 0
    Removed i s' u = (i < length xs) × Keeps (remove_at i xs) s'

    abbrev pub Unremoved : ℕ → N.State → Type 0
    Unremoved i s' = Keeps xs s' ⊎ ((i < length xs) × Keeps (set_at i [] xs) s')

    -- Removing an element: on success the index was within the array, which then holds the others in
    -- their order. Where it fails the array holds what it held, or the same with the element of that
    -- index emptied, which is so when the slot was cleared and the head was not written.
    pub remove-Removed : (i : ℕ) → Ends (Unremoved i) (Removed i) (remove N J self i s)
    unfolding remove read_head remove_slot
    remove-Removed i =
        rw (read_head_raw-Has N J laws json self.record_key self.stride s xs h)
          (elim (get_elem?-Stored (values' s) i h.slots xs h.stored) [
            | inl (out, end) ↦ rw out (inl h)
            | inr (slot, x, at, is, value) ↦ rw at (
                after_write N laws (Ends (Unremoved i) (Removed i)) _ self.record_key (slot + 1) []
                  _ s
                  (λ s' why same.
                    inl (Has-Same N J laws json self.record_key self.stride s s' xs same h))
                  λ s' w.
                    let emptied =
                      Stored-set_at (values' s) (values' s') i slot [] h.slots xs h.single at w.at
                        (λ t ne. w.subkeys (t + 1) (omega (arith, ne))) h.stored in
                    write_head_rule N J laws json (Ends (Unremoved i) (Removed i)) self
                      (record { stride = self.stride; slots = remove_at i h.slots }) s'
                      (λ t why same. inr (
                        lt-get_elem? i xs x is,
                        Has-Same N J laws json self.record_key self.stride s' t (set_at i [] xs)
                            same
                            (Has-slots N J laws json self.record_key self.stride s s' xs
                              (set_at i [] xs) h (w.subkeys 0 (omega arith)) emptied),
                      ))
                      λ t bytes reads v. (
                        lt-get_elem? i xs x is,
                        Has-head N J laws json self.record_key self.stride s' t (remove_at i xs)
                            (remove_at i h.slots) bytes reads v
                            (Single-remove_at i h.slots h.single)
                            (All-remove_at (λ t. t < self.stride) i h.slots h.inside)
                            (omega (arith, length-remove_at i h.slots, h.within)) h.small
                            (subst (Stored (values' s') (remove_at i h.slots))
                              (remove_at-set_at i [] xs)
                              (Stored-remove_at (values' s') i h.slots (set_at i [] xs) emptied)),
                      ))
          ])

    pub len-Holds : len N J self s ≡ (s, done (length xs))
    unfolding len read_head
    len-Holds =
        rw
          (
            read_head_raw-Has N J laws json self.record_key self.stride s xs h,
            lt→ltb (length h.slots) (2 ^ 32) (omega (arith, h.within, h.small)),
            length-Stored (values' s) h.slots xs h.stored,
          )
          refl

    read_slots-Stored :
        (slots : List ℕ) (ys : List (List ℕ))
        → Stored (values' s) slots ys
        → read_slots N J self slots s ≡ (s, done ys)
    unfolding read_slots
    read_slots-Stored [] [] stored = refl
    read_slots-Stored [] (y ∷ ys) stored = elim stored [ ]
    read_slots-Stored (slot ∷ slots) [] stored = elim stored [ ]
    read_slots-Stored (slot ∷ slots) (y ∷ ys) stored =
        rw (stored.0, read_slots-Stored slots ys stored.1) refl

    pub get_all-Holds : get_all N J self s ≡ (s, done xs)
    unfolding get_all read_head
    get_all-Holds =
        rw (read_head_raw-Has N J laws json self.record_key self.stride s xs h)
          (read_slots-Stored h.slots xs h.stored)
