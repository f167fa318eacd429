-- ===== src/Dht/ShortArray/Clear.antt =====
-- Emptying an array, and its life from its creation on.
use rekindle.Base.{
  ℕ, ◌+◌, ◌<◌, ◌^◌, List, [], ◌∷◌, ◌++◌, Option, none, some, ◌≡◌, refl, ap, ◌⊎◌, ◌∙◌, arith,
  Bool-cases, inl, inr, ltb, ltb→lt,
}
use mathlib.Core.Path.{subst}
use rekindle.Base.Actions.{Ends, after, after_Ends, either_end}
use rekindle.Dht.Network.{Network, IsLawful, Same, done, ◌>>=◌, from, Descriptor}
use rekindle.Base.Results.{map_err-done}
use native.Mathlib.Decide.{ℕ_discrete}
use rekindle.Dht.Network.Rules.{Wrote, after_write}
use rekindle.Dht.ShortArray.{
  HeadJson, IsFaithful, Self, read_head, encoded, add, remove, clear, clear_slots, create, begin,
  schema, allocate, remove_at,
}
use rekindle.Dht.ShortArray.Heads.{values, read_head_raw-Has, Has-slots, Has-head, write_head_rule}
use rekindle.Dht.ShortArray.Contents.{set_at, Emptied, Stored-blank, Holds}
use rekindle.Dht.ShortArray.Refine.{add-Added, remove-Removed, Keeps, Added, Removed, Unremoved}

-- What is done to an array.
pub data Change : Type 0 where
  adds : List ℕ → Change
  removes : ℕ → Change
  clears : Change

module _ (N : Network) (J : HeadJson) (self : Self N J) where
  unfoldable pub change : Change → N.State → N.State
  change (adds data_) s = (add N J self data_ s).0
  change (removes i) s = (remove N J self i s).0
  change clears s = (clear N J self s).0

  unfoldable pub run : List Change → N.State → N.State
  run [] s = s
  run (c ∷ cs) s = run cs (change c s)

module _ (N : Network) (J : HeadJson) (laws : IsLawful N) (json : IsFaithful J) where
  module _ (self : Self N J) where
    -- The head is as before, and each slot is, or is empty.
    pub record Blanked (s s' : N.State) : Type 0 where
      pub head : N.get_dht_value self.record_key 0 s' ≡ N.get_dht_value self.record_key 0 s
      pub slots :
          (t : ℕ)
          → (N.get_dht_value self.record_key (t + 1) s' ≡ N.get_dht_value self.record_key (t + 1) s)
            ⊎ (N.get_dht_value self.record_key (t + 1) s' ≡ done (some []))

    Blanked-Same : (s s' t : N.State) → Blanked s s' → Same N s' t → Blanked s t
    Blanked-Same s s' t b same = record {
      head = same self.record_key 0 ∙ b.head;
      slots = λ i. elim (b.slots i) [
        | inl e ↦ inl (same self.record_key (i + 1) ∙ e)
        | inr e ↦ inr (same self.record_key (i + 1) ∙ e)
      ];
    }

    Blanked-Wrote :
        (s s' t : N.State) (slot : ℕ)
        → Blanked s s'
        → Wrote N laws self.record_key (slot + 1) [] s' t
        → Blanked s t
    Blanked-Wrote s s' t slot b w = record {
      head = w.subkeys 0 (omega arith) ∙ b.head;
      slots = λ i. elim (ℕ_discrete slot i) [
        | yes e ↦
            inr (subst (λ j. N.get_dht_value self.record_key (j + 1) t ≡ done (some [])) e w.at)
        | no ne ↦
            let same = w.subkeys (i + 1) (omega (arith, ne)) in
            elim (b.slots i) [ inl e ↦ inl (same ∙ e) | inr e ↦ inr (same ∙ e) ]
      ];
    }

    clear_slots-Blanked :
        (s s' : N.State) (slots : List ℕ)
        → Blanked s s'
        → Ends (Blanked s) (λ t u. Blanked s t) (clear_slots N J self slots s')
    unfolding clear_slots
    clear_slots-Blanked s s' [] b = b
    clear_slots-Blanked s s' (slot ∷ slots) b =
        after_write N laws (Ends (Blanked s) (λ t u. Blanked s t)) _ self.record_key (slot + 1) [] _
          s' (λ t why same. Blanked-Same s s' t b same)
          λ t w. clear_slots-Blanked s t slots (Blanked-Wrote s s' t slot b w)

    module _ (s : N.State) (xs : List (List ℕ)) (h : Keeps N J laws json self xs s) where
      abbrev pub PartlyCleared : N.State → Type 0
      PartlyCleared s' = (ys : List (List ℕ)) × Emptied xs ys × Keeps N J laws json self ys s'

      Blanked-PartlyCleared : (s' : N.State) → Blanked s s' → PartlyCleared s'
      Blanked-PartlyCleared s' b =
          let (ys, stored, empty) =
            Stored-blank (values N J laws json self.record_key self.stride s)
              (values N J laws json self.record_key self.stride s') h.slots xs b.slots h.stored in
          (
            ys,
            empty,
            Has-slots N J laws json self.record_key self.stride s s' xs ys h b.head stored,
          )

      -- Clearing an array: on success it holds nothing. Where it fails, the array holds as many
      -- elements as before, each as it was or emptied.
      pub clear-Cleared :
          Ends PartlyCleared (λ s' u. Keeps N J laws json self [] s') (clear N J self s)
      unfolding clear read_head
      clear-Cleared = rw (read_head_raw-Has N J laws json self.record_key self.stride s xs h) (
          after_Ends (Ends PartlyCleared (λ s' u. Keeps N J laws json self [] s')) (Blanked s)
            (λ t u. Blanked s t) (clear_slots N J self h.slots s) _
            (clear_slots-Blanked s s h.slots (record { head = refl; slots = λ t. inl refl }))
            (λ s' why b. Blanked-PartlyCleared s' b)
            λ s' u b.
              write_head_rule N J laws json
                (Ends PartlyCleared (λ t v. Keeps N J laws json self [] t)) self
                (record { stride = self.stride; slots = [] }) s'
                (λ t why same. Blanked-PartlyCleared t (Blanked-Same s s' t b same))
                λ t bytes reads w.
                  Has-head N J laws json self.record_key self.stride s' t [] [] bytes reads w tt tt
                    (omega arith) h.small tt)

  abbrev pub Made : ℕ → N.State → Self N J × N.KeyPair → Type 0
  Made capacity s' made = (made.0.stride ≡ capacity) × Holds N J made.0.record_key capacity s' []

  begin-Made :
      (capacity : ℕ) (d : Descriptor N.RecordKey N.KeyPair) (secret : Option N.KeyPair)
      (s : N.State)
      → capacity + 1 < 2 ^ 16
      → Ends (λ s'. Unit {0}) (Made capacity) (begin N J capacity d secret s)
  begin-Made capacity d none s small = tt
  begin-Made capacity d (some keypair) s small =
      after (Ends (λ s'. Unit {0}) (Made capacity))
        (from (encoded N J (record { stride = capacity; slots = [] }))) _ s (λ s' why e. tt)
        λ s' bytes e.
          after_write N laws (Ends (λ t. Unit {0}) (Made capacity)) _ d.key 0 bytes _ s'
            (λ t why same. tt)
            λ t w. (
              refl,
              Has-head N J laws json d.key capacity s' t [] [] bytes
                  (json.from_slice-to_vec _ bytes (map_err-done _ _ bytes (ap (λ o. o.1) e))) w tt
                  tt (omega arith) (omega (arith, small)) tt,
            )

  -- An array that was created holds nothing, and has the capacity that was asked for.
  pub create-Made :
      (capacity : ℕ) (owner : Option N.KeyPair) (s : N.State)
      → Ends (λ s'. Unit {0}) (Made capacity) (create N J capacity owner s)
  unfolding create
  create-Made capacity owner s = elim (Bool-cases (ltb (capacity + 1) (2 ^ 16))) [
    | inl small ↦ rw small (
        after (Ends (λ s'. Unit {0}) (Made capacity)) (from (schema N J (capacity + 1)))
          (λ u. allocate N J (capacity + 1) owner >>= λ d. begin N J capacity d d.owner_secret) s
          (λ s' why e. tt)
          λ s' u e.
            after (Ends (λ s'. Unit {0}) (Made capacity)) (allocate N J (capacity + 1) owner)
              (λ d. begin N J capacity d d.owner_secret) s' (λ t why f. tt)
              λ t d f. begin-Made capacity d d.owner_secret t (ltb→lt _ _ small))
    | inr large ↦ rw large tt
  ]

  abbrev pub IsArray : Self N J → N.State → Type 0
  IsArray self s = (xs : List (List ℕ)) × Keeps N J laws json self xs s

  change-IsArray :
      (self : Self N J) (c : Change) (s : N.State)
      → IsArray self s
      → IsArray self (change N J self c s)
  unfolding change
  change-IsArray self (adds data_) s (xs, h) =
      either_end (IsArray self) (Keeps N J laws json self xs)
        (Added N J laws json self s xs h data_) (add N J self data_ s)
        (add-Added N J laws json self s xs h data_) (λ t k. (xs, k))
        (λ t i k. (xs ++ (data_ ∷ []), k.2))
  change-IsArray self (removes i) s (xs, h) =
      either_end (IsArray self) (Unremoved N J laws json self s xs h i)
        (Removed N J laws json self s xs h i) (remove N J self i s)
        (remove-Removed N J laws json self s xs h i)
        (λ t k. elim k [ inl same ↦ (xs, same) | inr other ↦ (set_at i [] xs, other.1) ])
        (λ t u k. (remove_at i xs, k.1))
  change-IsArray self clears s (xs, h) =
      either_end (IsArray self) (PartlyCleared self s xs h) (λ t u. Keeps N J laws json self [] t)
        (clear N J self s) (clear-Cleared self s xs h) (λ t k. (k.0, k.2)) (λ t u k. ([], k))

  -- Whatever is done to an array, in whatever order, and whichever writes fail: the record is an
  -- array, that is its head can be read, no slot is in use twice or beyond the stride, there are no
  -- more elements than the stride, and each can be read.
  pub run-IsArray :
      (self : Self N J) (cs : List Change) (s : N.State)
      → IsArray self s
      → IsArray self (run N J self cs s)
  unfolding run
  run-IsArray self [] s h = h
  run-IsArray self (c ∷ cs) s h = run-IsArray self cs _ (change-IsArray self c s h)
