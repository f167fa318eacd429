-- ===== src/Dht/Log.antt =====
-- `DHTLog`, an append-only log of which the entries stand in short arrays, the segments, and a spine
-- record that lists them: crates/rekindle-protocol/src/dht/log.rs. A division by a capacity of 0, at
-- which the program stops, is a division of the natural numbers here. A usize has 64 bits.
pub mod Tail
pub mod Chain
pub mod Contents
pub mod Extend
pub mod Latest
pub mod Start
pub mod Refine
pub mod Lost
pub mod Whole
pub mod Read
pub mod Tests
use Prim.Native.String.{◌++◌ as append_text}
use rekindle.Base.{
  ℕ, zero, suc, ◌+◌, ◌-◌, ◌/◌, ◌%◌, ◌^◌, ◌==◌, ltb, leb, if◌then◌else◌, Bool, true, false, ◌&&◌,
  ◌||◌, not, String, List, [], ◌∷◌, ◌++◌, Option, none, some, get_elem?, ◌≡◌,
}
use rekindle.Dht.Network.{
  Network, Descriptor, ProtocolError, Result, failed, done, map_err, Action, pure, throw, attempt,
  from, write, ◌>>=◌, ◌>>◌,
}
use rekindle.Dht.ShortArray.{
  HeadJson, Self, create as create_segment, open_array as open_segment, add as add_entry,
  get as get_entry,
}

abbrev pub default_segment_capacity : ℕ
default_segment_capacity = 255

pub record LogSpine : Type 0 where
  pub total_count : ℕ
  pub segment_capacity : ℕ
  pub segments : List String

-- serde_json on the spine
pub record SpineJson : Type 0 where
  pub to_vec : LogSpine → Result String (List ℕ)
  pub from_slice : List ℕ → Result String LogSpine

pub record IsFaithful (J : SpineJson) : Type 0 where
  pub from_slice-to_vec :
      (spine : LogSpine) (b : List ℕ) → J.to_vec spine ≡ done b → J.from_slice b ≡ done spine

pub record DhtLog (RecordKey KeyPair : Type 0) : Type 0 where
  pub spine_key : RecordKey
  pub owner_keypair : Option KeyPair

-- `Vec::last`
abbrev pub last {ℓ} : {A : Type ℓ} → List A → Option A
last [] = none
last (x ∷ []) = some x
last (x ∷ y ∷ xs) = last (y ∷ xs)

-- `u32::try_from(n).unwrap_or(u32::MAX)`
abbrev pub saturated : ℕ → ℕ
saturated n = if ltb n (2 ^ 32) then n else 2 ^ 32 - 1

abbrev pub is_empty_list {ℓ} : {A : Type ℓ} → List A → Bool
is_empty_list [] = true
is_empty_list (x ∷ xs) = false

-- Whether the latest segment is full, or there is none.
abbrev pub needs_new_segment : LogSpine → Bool
needs_new_segment spine =
    is_empty_list spine.segments
    || ltb 0 spine.total_count && (spine.total_count % spine.segment_capacity == 0)

-- The spine with a segment more, and with an entry more; the count wraps at 64 bits.
abbrev pub with_segment : LogSpine → String → LogSpine
with_segment spine key = record spine { segments = spine.segments ++ (key ∷ []) }

abbrev pub counted : LogSpine → LogSpine
counted spine = record spine { total_count = (spine.total_count + 1) % 2 ^ 64 }

module _ (N : Network) (H : HeadJson) (J : SpineJson) where
  abbrev pub Log : Type 0
  Log = DhtLog N.RecordKey N.KeyPair

  abbrev pub Segment : Type 0
  Segment = Self N H

  abbrev pub parsed : Result ProtocolError (Option (List ℕ)) → Result ProtocolError LogSpine
  parsed (failed why) = failed why
  parsed (done none) = failed (ProtocolError.dht_error "spine subkey not set")
  parsed (done (some b)) =
      map_err (λ why. ProtocolError.deserialization (append_text "spine parse: " why))
        (J.from_slice b)

  unfoldable pub read_spine : Log → Action N.State LogSpine
  read_spine self s = (
    s,
    parsed (
        map_err (λ why. ProtocolError.dht_error (append_text "read spine: " why))
          (N.get_dht_value self.spine_key 0 s)),
  )

  abbrev pub encoded : LogSpine → Result ProtocolError (List ℕ)
  encoded spine = map_err ProtocolError.serialization (J.to_vec spine)

  unfoldable pub write_spine : Log → LogSpine → Action N.State (Unit {0})
  write_spine self spine = do
    bytes ← from (encoded spine)
    write N "write spine: " self.spine_key 0 bytes

  abbrev pub begin :
      Descriptor N.RecordKey N.KeyPair → Option N.KeyPair → Action N.State (Log × N.KeyPair)
  begin d none = throw (ProtocolError.dht_error "no owner secret after create")
  begin d (some keypair) = do
    bytes ← from (
        encoded
          (record { total_count = 0; segment_capacity = default_segment_capacity; segments = [] }))
    write N "write spine: " d.key 0 bytes
    pure (record { spine_key = d.key; owner_keypair = some keypair }, keypair)

  -- The owner's keys are made by the network.
  unfoldable pub create : Action N.State (Log × N.KeyPair)
  create = do
    from (map_err (λ why. ProtocolError.dht_error (append_text "invalid schema: " why)) (N.dflt 1))
    d ← attempt "create log spine: " (N.create_dht_record 1 none)
    begin d d.owner_secret

  abbrev pub opened : String → Option N.KeyPair → Action N.State Log
  opened key writer = do
    spine_key ←
        from
          (map_err (λ why. ProtocolError.dht_error (append_text "invalid key: " why)) (N.parse key))
    attempt "open log spine: " (N.open_dht_record spine_key writer)
    pure (record { spine_key = spine_key; owner_keypair = writer })

  unfoldable pub open_write : String → N.KeyPair → Action N.State Log
  open_write key writer = opened key (some writer)

  unfoldable pub open_read : String → Action N.State Log
  open_read key = opened key none

  abbrev pub append_new : Log → N.KeyPair → List ℕ → LogSpine → Action N.State ℕ
  append_new self writer data_ spine = do
    made ← create_segment N H spine.segment_capacity (some writer)
    i ← add_entry N H made.0 data_
    write_spine self (counted (with_segment spine (N.to_string made.0.record_key)))
    pure spine.total_count

  abbrev pub append_latest : Log → N.KeyPair → List ℕ → LogSpine → Option String → Action N.State ℕ
  append_latest self writer data_ spine none =
      throw (ProtocolError.dht_error "no segments in spine")
  append_latest self writer data_ spine (some latest_key) = do
    segment ← open_segment N H latest_key (some writer)
    i ← add_entry N H segment data_
    write_spine self (counted spine)
    pure spine.total_count

  abbrev pub append_by : Log → List ℕ → Option N.KeyPair → Action N.State ℕ
  append_by self data_ none = throw (ProtocolError.dht_error "cannot append to read-only log")
  append_by self data_ (some writer) = do
    spine ← read_spine self
    if needs_new_segment spine
        then append_new self writer data_ spine
        else append_latest self writer data_ spine (last spine.segments)

  unfoldable pub append : Log → List ℕ → Action N.State ℕ
  append self data_ = append_by self data_ self.owner_keypair

  -- The entry of a segment, `none` where the spine has no segment of that index.
  abbrev pub get_in : Log → ℕ → Option String → Action N.State (Option (List ℕ))
  get_in self offset none = pure none
  get_in self offset (some key) = do
    segment ← open_segment N H key self.owner_keypair
    get_entry N H segment offset

  unfoldable pub get : Log → ℕ → Action N.State (Option (List ℕ))
  get self pos = do
    spine ← read_spine self
    if leb spine.total_count pos
        then pure none
        else get_in self (saturated (pos % spine.segment_capacity))
            (get_elem? spine.segments (pos / spine.segment_capacity))

  unfoldable pub len : Log → Action N.State ℕ
  len self = do spine ← read_spine self; pure spine.total_count

  unfoldable pub is_empty : Log → Action N.State Bool
  is_empty self = do n ← len self; pure (n == 0)

  -- The segments are closed as far as it goes.
  unfoldable pub close_segments : List String → N.State → N.State
  close_segments [] s = s
  close_segments (key ∷ keys) s =
      close_segments keys
        (elim (N.parse key) [ failed why ↦ s | done k ↦ (N.close_dht_record k s).0 ])

  abbrev pub close_listed : Result ProtocolError LogSpine → N.State → N.State
  close_listed (failed why) s = s
  close_listed (done spine) s = close_segments spine.segments s

  unfoldable pub close : Log → Action N.State (Unit {0})
  close self s =
      attempt "close spine: " (N.close_dht_record self.spine_key)
        (close_listed (read_spine self s).1 s)

  abbrev pub spine_key : Log → String
  spine_key self = N.to_string self.spine_key
