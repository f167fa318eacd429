-- ===== src/Dht/Tests.antt =====
-- Examples on a network in memory.
use rekindle.Base.{ℕ, ◌<◌, List, [], ◌∷◌, ◌++◌, some, String, get_elem?, ◌≡◌, refl, arith, lt→ltb}
use rekindle.Dht.Network.{Result, failed, done}
use rekindle.Dht.Network.Memory.{Memory, memory, memory-IsLawful, set_value, value_at, lookup, room}
use rekindle.Dht.ShortArray.{
  HeadJson, IsFaithful, ShortArrayHead, Self, add, remove, get_all, read_head, read_head_raw,
  write_head, add_at, free_from, read_slots, remove_slot,
}
use rekindle.Base.Actions.{Ends}
use rekindle.Dht.ShortArray.Refine.{Keeps, Added, Removed, Unremoved, add-Added, remove-Removed}
use rekindle.Dht.ShortArray.Clear.{adds, removes, clears, run, IsArray, run-IsArray}
use rekindle.Dht.ShortArray.Fill.{Writer, CanWrite, add_all, get_all-add_all}

abbrev pub toy_read : List ℕ → Result String ShortArrayHead
toy_read [] = failed "empty"
toy_read (n ∷ slots) = done (record { stride = n; slots = slots })

abbrev pub toy_json : HeadJson
toy_json = record { to_vec = λ head. done (head.stride ∷ head.slots); from_slice = toy_read }

pub toy_json-IsFaithful : IsFaithful toy_json
toy_json-IsFaithful = record { from_slice-to_vec = λ head b e. ground arith }

toy_json-CanWrite : CanWrite toy_json
toy_json-CanWrite = record { written = λ head. (head.stride ∷ head.slots, refl) }

abbrev array : Self memory toy_json
array = record { record_key = 0; owner_keypair = some 7; stride = 3 }

-- One record with four subkeys, in which an array of stride 3 has two elements.
abbrev two : Memory
two = record {
  sizes = 4 ∷ [];
  values = (0, (0, 3 ∷ 2 ∷ 0 ∷ [])) ∷ (0, (3, 65 ∷ [])) ∷ (0, (1, 66 ∷ [])) ∷ [];
}

abbrev two_elements : List (List ℕ)
two_elements = (65 ∷ []) ∷ (66 ∷ []) ∷ []

two-Keeps : Keeps memory toy_json memory-IsLawful toy_json-IsFaithful array two_elements two
unfolding lookup value_at
two-Keeps = record {
  slots = 2 ∷ 0 ∷ [];
  bytes = 3 ∷ 2 ∷ 0 ∷ [];
  at_head = refl;
  reads = refl;
  single = (refl, (refl, tt));
  inside = (omega arith, (omega arith, tt));
  within = omega arith;
  small = omega arith;
  stored = (refl, (refl, tt));
}

-- The third element goes to the free slot 1, and is the last.
add_third :
    (get_all memory toy_json array (add memory toy_json array (67 ∷ []) two).0).1
    ≡ done ((65 ∷ []) ∷ (66 ∷ []) ∷ (67 ∷ []) ∷ [])
unfolding get_all add read_head read_head_raw value_at lookup set_value room add_at write_head
    free_from read_slots
add_third = refl

remove_first :
    (get_all memory toy_json array (remove memory toy_json array 0 two).0).1 ≡ done ((66 ∷ []) ∷ [])
unfolding get_all remove read_head read_head_raw value_at lookup set_value room write_head
    read_slots remove_slot
remove_first = refl

writer_size : get_elem? two.sizes 0 ≡ some 4
writer_size = refl

set_value-accepts :
    (i : ℕ) (b : List ℕ) (s : Memory)
    → get_elem? s.sizes 0 ≡ some 4
    → i < 4
    → (s' : Memory) × (set_value 0 i b s ≡ (s', done tt)) × (get_elem? s'.sizes 0 ≡ some 4)
unfolding set_value room
set_value-accepts i b s e h =
    (record s { values = (0, (i, b)) ∷ s.values }, rw (e, lt→ltb i 4 h) refl, e)

writer : Writer memory 0 4
writer = record { IsOpen = λ s. get_elem? s.sizes 0 ≡ some 4; accepts = set_value-accepts }

add-Added_example :
    Ends
      (Keeps memory toy_json memory-IsLawful toy_json-IsFaithful array two_elements)
      (Added memory toy_json memory-IsLawful toy_json-IsFaithful array two two_elements two-Keeps
        (67 ∷ []))
      (add memory toy_json array (67 ∷ []) two)
add-Added_example =
    add-Added memory toy_json memory-IsLawful toy_json-IsFaithful array two two_elements two-Keeps
      (67 ∷ [])

remove-Removed_example :
    Ends
      (Unremoved memory toy_json memory-IsLawful toy_json-IsFaithful array two two_elements
        two-Keeps 1)
      (Removed memory toy_json memory-IsLawful toy_json-IsFaithful array two two_elements two-Keeps
        1)
      (remove memory toy_json array 1 two)
remove-Removed_example =
    remove-Removed memory toy_json memory-IsLawful toy_json-IsFaithful array two two_elements
      two-Keeps 1

run-IsArray_example :
    IsArray memory toy_json memory-IsLawful toy_json-IsFaithful array
      (run memory toy_json array (adds (67 ∷ []) ∷ removes 0 ∷ adds (68 ∷ []) ∷ clears ∷ []) two)
run-IsArray_example =
    run-IsArray memory toy_json memory-IsLawful toy_json-IsFaithful array
      (adds (67 ∷ []) ∷ removes 0 ∷ adds (68 ∷ []) ∷ clears ∷ []) two (two_elements, two-Keeps)

get_all-add_all_example :
    (s' : Memory) × (add_all memory toy_json array ((67 ∷ []) ∷ []) two ≡ (s', done tt))
    × (get_all memory toy_json array s' ≡ (s', done (two_elements ++ ((67 ∷ []) ∷ []))))
unfolding writer
get_all-add_all_example =
    get_all-add_all memory toy_json memory-IsLawful toy_json-IsFaithful toy_json-CanWrite array
      writer two two_elements ((67 ∷ []) ∷ []) two-Keeps writer_size (omega arith)
