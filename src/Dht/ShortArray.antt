-- ===== src/Dht/ShortArray.antt =====
-- `DHTShortArray`, an ordered collection in one record: crates/rekindle-protocol/src/dht/short_array.rs.
-- An array is a number of methods over the network and over JSON, which writes and reads the head.
pub mod Slots
pub mod Contents
pub mod Heads
pub mod Refine
pub mod Clear
pub mod Fill
pub mod Frame
use Prim.Native.String.{◌++◌ as append}
use rekindle.Base.{
  ℕ, zero, suc, ◌+◌, ◌^◌, ◌==◌, ltb, leb, if◌then◌else◌, Bool, String, List, [], ◌∷◌, ◌++◌, Option,
  none, some, length, get_elem?, any, ◌≡◌,
}
use rekindle.Dht.Network.{
  Network, Descriptor, ProtocolError, Result, failed, done, map_err, Action, pure, throw, attempt,
  from, read, write, continue, ◌>>=◌, ◌>>◌,
}

pub record ShortArrayHead : Type 0 where
  pub stride : ℕ
  pub slots : List ℕ

-- serde_json on the head
pub record HeadJson : Type 0 where
  pub to_vec : ShortArrayHead → Result String (List ℕ)
  pub from_slice : List ℕ → Result String ShortArrayHead

-- serde_json reads what it wrote.
pub record IsFaithful (J : HeadJson) : Type 0 where
  pub from_slice-to_vec :
      (head : ShortArrayHead) (b : List ℕ) → J.to_vec head ≡ done b → J.from_slice b ≡ done head

pub record DhtShortArray (RecordKey KeyPair : Type 0) : Type 0 where
  pub record_key : RecordKey
  pub owner_keypair : Option KeyPair
  pub stride : ℕ

-- `Vec::remove`, and `v[i] = x`, for an index within the list.
abbrev pub remove_at {ℓ} : {A : Type ℓ} → ℕ → List A → List A
remove_at i [] = []
remove_at zero (x ∷ xs) = xs
remove_at (suc i) (x ∷ xs) = x ∷ remove_at i xs

-- The loop of `find_free_slot` over the n slots from `slot` on.
unfoldable pub free_from : ℕ → ℕ → List ℕ → ℕ
free_from zero slot slots = slot
free_from (suc n) slot slots =
    let rest = free_from n (slot + 1) slots in if any (λ t. t == slot) slots then rest else slot

abbrev pub find_free_slot : ℕ → ShortArrayHead → ℕ
find_free_slot stride head = free_from stride 0 head.slots

-- `u32::try_from`
abbrev pub u32_from : String → ℕ → Result ProtocolError ℕ
u32_from what n =
    if ltb n (2 ^ 32)
    then done n
    else failed
        (ProtocolError.dht_error (append what "out of range integral type conversion attempted"))

-- `unwrap_or_default`
abbrev pub or_default : Option (List ℕ) → List ℕ
or_default none = []
or_default (some b) = b

module _ (N : Network) (J : HeadJson) where
  abbrev pub Self : Type 0
  Self = DhtShortArray N.RecordKey N.KeyPair

  abbrev pub parsed : Result ProtocolError (Option (List ℕ)) → Result ProtocolError ShortArrayHead
  parsed (failed why) = failed why
  parsed (done none) = failed (ProtocolError.dht_error "head subkey not set")
  parsed (done (some b)) =
      map_err (λ why. ProtocolError.deserialization (append "head parse: " why)) (J.from_slice b)

  unfoldable pub read_head_raw : N.RecordKey → Action N.State ShortArrayHead
  read_head_raw key s = (
    s,
    parsed (
        map_err (λ why. ProtocolError.dht_error (append "read head: " why))
          (N.get_dht_value key 0 s)),
  )

  abbrev pub encoded : ShortArrayHead → Result ProtocolError (List ℕ)
  encoded head = map_err ProtocolError.serialization (J.to_vec head)

  unfoldable pub write_head : Self → ShortArrayHead → Action N.State (Unit {0})
  write_head self head = do
    bytes ← from (encoded head)
    write N "write head: " self.record_key 0 bytes

  -- The new array, and the owner's keys; `none` where the network gives no secret.
  abbrev pub begin :
      ℕ → Descriptor N.RecordKey N.KeyPair → Option N.KeyPair → Action N.State (Self × N.KeyPair)
  begin capacity d none = throw (ProtocolError.dht_error "no owner secret after create")
  begin capacity d (some keypair) = do
    bytes ← from (encoded (record { stride = capacity; slots = [] }))
    write N "write head: " d.key 0 bytes
    pure (record { record_key = d.key; owner_keypair = some keypair; stride = capacity }, keypair)

  abbrev pub schema : ℕ → Result ProtocolError (Unit {0})
  schema n = map_err (λ why. ProtocolError.dht_error (append "invalid schema: " why)) (N.dflt n)

  abbrev pub allocate : ℕ → Option N.KeyPair → Action N.State (Descriptor N.RecordKey N.KeyPair)
  allocate n owner = attempt "create short array record: " (N.create_dht_record n owner)

  unfoldable pub create : ℕ → Option N.KeyPair → Action N.State (Self × N.KeyPair)
  create capacity owner =
      if ltb (capacity + 1) (2 ^ 16)
      then (do
        from (schema (capacity + 1))
        d ← allocate (capacity + 1) owner
        begin capacity d d.owner_secret)
      else throw (ProtocolError.dht_error "capacity overflow (max 65534)")

  unfoldable pub open_array : String → Option N.KeyPair → Action N.State Self
  open_array key writer = do
    record_key ←
        from (map_err (λ why. ProtocolError.dht_error (append "invalid key: " why)) (N.parse key))
    attempt "open short array: " (N.open_dht_record record_key writer)
    head ← read_head_raw record_key
    pure (record { record_key = record_key; owner_keypair = writer; stride = head.stride })

  unfoldable pub read_head : Self → Action N.State ShortArrayHead
  read_head self = read_head_raw self.record_key

  -- `add` below the guard
  unfoldable pub add_at : Self → List ℕ → ShortArrayHead → ℕ → Action N.State ℕ
  add_at self data_ head slot = do
    write N "write slot: " self.record_key (slot + 1) data_
    index ← from (u32_from "index overflow: " (length head.slots))
    write_head self (record head { slots = head.slots ++ (slot ∷ []) })
    pure index

  unfoldable pub add : Self → List ℕ → Action N.State ℕ
  add self data_ = do
    head ← read_head self
    if leb self.stride (length head.slots)
        then throw (ProtocolError.dht_error "short array is full")
        else add_at self data_ head (find_free_slot self.stride head)

  -- `none` beyond the last index
  abbrev pub get_slot : Self → Option ℕ → Action N.State (Option (List ℕ))
  get_slot self none = pure none
  get_slot self (some slot) = read N "read slot: " self.record_key (slot + 1)

  unfoldable pub get : Self → ℕ → Action N.State (Option (List ℕ))
  get self index = do head ← read_head self; get_slot self (get_elem? head.slots index)

  unfoldable pub remove_slot : Self → ℕ → ShortArrayHead → Option ℕ → Action N.State (Unit {0})
  remove_slot self index head none = throw (ProtocolError.dht_error "index out of bounds")
  remove_slot self index head (some slot) = do
    write N "clear slot: " self.record_key (slot + 1) []
    write_head self (record head { slots = remove_at index head.slots })

  unfoldable pub remove : Self → ℕ → Action N.State (Unit {0})
  remove self index = do
    head ← read_head self
    remove_slot self index head (get_elem? head.slots index)

  unfoldable pub len : Self → Action N.State ℕ
  len self = do head ← read_head self; from (u32_from "len overflow: " (length head.slots))

  unfoldable pub is_empty : Self → Action N.State Bool
  is_empty self = do n ← len self; pure (n == 0)

  -- The loop of `clear`
  unfoldable pub clear_slots : Self → List ℕ → Action N.State (Unit {0})
  clear_slots self [] = pure tt
  clear_slots self (slot ∷ slots) = do
    write N "clear slot: " self.record_key (slot + 1) []
    clear_slots self slots

  unfoldable pub clear : Self → Action N.State (Unit {0})
  clear self = do
    head ← read_head self
    clear_slots self head.slots
    write_head self (record { stride = self.stride; slots = [] })

  -- The loop of `get_all`
  unfoldable pub read_slots : Self → List ℕ → Action N.State (List (List ℕ))
  read_slots self [] = pure []
  read_slots self (slot ∷ slots) = do
    value ← read N "read slot: " self.record_key (slot + 1)
    rest ← read_slots self slots
    pure (or_default value ∷ rest)

  unfoldable pub get_all : Self → Action N.State (List (List ℕ))
  get_all self = do head ← read_head self; read_slots self head.slots

  unfoldable pub close : Self → Action N.State (Unit {0})
  close self = attempt "close: " (N.close_dht_record self.record_key)
