-- ===== src/Dht/Log/Tests.antt =====
-- Examples: a log on a network in memory, with one segment that has room for an entry more.
use rekindle.Base.{
  ℕ, String, Bool, true, if◌then◌else◌, List, [], ◌∷◌, some, map, all, length, ◌≡◌, refl, arith,
  str_eq, eq_iff, Bool-cases, inl, inr,
}
use rekindle.Base.Text.{codes}
use rekindle.Base.Actions.{Ends}
use rekindle.Dht.Network.{Same, Result, failed, done}
use rekindle.Dht.Network.Memory.{
  Memory, memory, memory-IsLawful, memory-Allocates, letters, lookup, value_at, set_value, room,
}
use rekindle.Dht.ShortArray.{
  create, add, get, read_head, read_head_raw, write_head, add_at, free_from, open_array,
}
use rekindle.Dht.Tests.{toy_json, toy_json-IsFaithful}
use rekindle.Dht.Log.{
  LogSpine, SpineJson, IsFaithful, Log, create as create_log, append, get as get_entry, read_spine,
  write_spine,
}
use rekindle.Dht.Log.Tail.{tail, tail_from}
use rekindle.Dht.Log.Contents.{Logs}
use rekindle.Dht.Log.Start.{Shows, Appended}
use rekindle.Dht.Log.Refine.{append-Appended}
use rekindle.Dht.Log.Lost.{StillShows, Shifted, append-Shifted}
use rekindle.Dht.Log.Whole.{append_all, written}
use rekindle.Dht.Log.Read.{get-Logs}

-- A spine as numbers; only the names of keys in memory are written.
abbrev name_of : String → ℕ
name_of name = length (codes name)

abbrev is_name : String → Bool
is_name name = str_eq (letters (name_of name)) name

unfoldable toy_to_vec : LogSpine → Result String (List ℕ)
toy_to_vec spine =
    if all is_name spine.segments
    then done (spine.total_count ∷ spine.segment_capacity ∷ map name_of spine.segments)
    else failed "no such key"

unfoldable toy_from_slice : List ℕ → Result String LogSpine
toy_from_slice [] = failed "empty"
toy_from_slice (n ∷ []) = failed "empty"
toy_from_slice (n ∷ cap ∷ keys) =
    done (record { total_count = n; segment_capacity = cap; segments = map letters keys })

abbrev toy_spine : SpineJson
toy_spine = record { to_vec = toy_to_vec; from_slice = toy_from_slice }

letters-name_of :
    (segments : List String)
    → all is_name segments ≡ true
    → map letters (map name_of segments) ≡ segments
letters-name_of [] h = refl
letters-name_of (name ∷ segments) h =
    ground (arith, letters-name_of segments, eq_iff (letters (name_of name)) name, h)

toy_spine-IsFaithful : IsFaithful toy_spine
unfolding toy_to_vec toy_from_slice
toy_spine-IsFaithful = record {
  from_slice-to_vec = λ spine b e. elim (Bool-cases (all is_name spine.segments)) [
    | inl named ↦ ground (arith, named, e, letters-name_of spine.segments named)
    | inr other ↦ ground (arith, other, e)
  ];
}

abbrev log : Log memory toy_json toy_spine
log = record { spine_key = 0; owner_keypair = some 7 }

abbrev one : Memory
one = record {
  sizes = 1 ∷ 3 ∷ [];
  values = (0, (0, 1 ∷ 2 ∷ 1 ∷ [])) ∷ (1, (0, 2 ∷ 0 ∷ [])) ∷ (1, (1, 65 ∷ [])) ∷ [];
}

abbrev entries : List (List ℕ)
entries = (65 ∷ []) ∷ []

one-Logs : Logs memory toy_json toy_spine memory-IsLawful toy_spine-IsFaithful log 2 entries [] one
unfolding lookup value_at toy_from_slice letters
one-Logs = record {
  bytes = 1 ∷ 2 ∷ 1 ∷ [];
  links = record { name = "k"; key = 1; entries = entries } ∷ [];
  at_spine = refl;
  reads = refl;
  linked = (
    (
      refl,
      record {
        slots = 0 ∷ [];
        bytes = 2 ∷ 0 ∷ [];
        at_head = refl;
        reads = refl;
        single = (refl, tt);
        inside = (omega arith, tt);
        within = omega arith;
        small = omega arith;
        stored = (refl, tt);
      },
    ),
    tt,
  );
  outside = (omega arith, tt);
  apart = (tt, tt);
  filled = (omega arith, omega arith);
  positive = omega arith;
  entries = refl;
}

log_grows :
    (tail memory toy_json toy_spine log 5 (append memory toy_json toy_spine log (66 ∷ []) one).0).1
    ≡ done ((65 ∷ []) ∷ (66 ∷ []) ∷ [])
unfolding tail tail_from append read_spine write_spine add get read_head read_head_raw write_head
    add_at free_from open_array lookup value_at set_value room toy_to_vec toy_from_slice letters
log_grows = refl

first_entry_is_read :
    Ends
      (Same memory one)
      (λ s' e. (e ≡ some (65 ∷ [])) × Same memory one s')
      (get_entry memory toy_json toy_spine log 0 one)
first_entry_is_read =
    get-Logs memory toy_json toy_spine memory-IsLawful toy_json-IsFaithful toy_spine-IsFaithful log
      2 one entries [] one-Logs 0

append-Appended_example :
    Ends
      (Shows memory toy_json toy_spine memory-IsLawful memory-Allocates toy_json-IsFaithful
        toy_spine-IsFaithful log 2 entries)
      (Appended memory toy_json toy_spine memory-IsLawful memory-Allocates toy_json-IsFaithful
        toy_spine-IsFaithful log 2 one entries one-Logs
        (66 ∷ [])
        (omega arith))
      (append memory toy_json toy_spine log (66 ∷ []) one)
append-Appended_example =
    append-Appended memory toy_json toy_spine memory-IsLawful memory-Allocates toy_json-IsFaithful
      toy_spine-IsFaithful log 2 one entries one-Logs (66 ∷ []) (omega arith)

-- Two entries in a segment with room for three, of which the spine counts one.
abbrev behind : Memory
behind = record {
  sizes = 1 ∷ 4 ∷ [];
  values =
      (0, (0, 1 ∷ 3 ∷ 1 ∷ []))
      ∷ (1, (0, 3 ∷ 0 ∷ 1 ∷ []))
      ∷ (1, (1, 65 ∷ []))
      ∷ (1, (2, 66 ∷ []))
      ∷ [];
}

behind-Logs :
    Logs memory toy_json toy_spine memory-IsLawful toy_spine-IsFaithful log 3 entries
      ((66 ∷ []) ∷ [])
      behind
unfolding lookup value_at toy_from_slice letters
behind-Logs = record {
  bytes = 1 ∷ 3 ∷ 1 ∷ [];
  links = record { name = "k"; key = 1; entries = (65 ∷ []) ∷ (66 ∷ []) ∷ [] } ∷ [];
  at_spine = refl;
  reads = refl;
  linked = (
    (
      refl,
      record {
        slots = 0 ∷ 1 ∷ [];
        bytes = 3 ∷ 0 ∷ 1 ∷ [];
        at_head = refl;
        reads = refl;
        single = (refl, (refl, tt));
        inside = (omega arith, (omega arith, tt));
        within = omega arith;
        small = omega arith;
        stored = (refl, (refl, tt));
      },
    ),
    tt,
  );
  outside = (omega arith, tt);
  apart = (tt, tt);
  filled = (omega arith, omega arith);
  positive = omega arith;
  entries = refl;
}

-- 67 is appended, and 66 is read.
wrong_entry :
    (tail memory toy_json toy_spine log 1
      (append memory toy_json toy_spine log (67 ∷ []) behind).0).1
    ≡ done ((66 ∷ []) ∷ [])
unfolding tail tail_from append read_spine write_spine add get read_head read_head_raw write_head
    add_at free_from open_array lookup value_at set_value room toy_to_vec toy_from_slice letters
wrong_entry = refl

append-Shifted_example :
    Ends
      (StillShows memory toy_json toy_spine memory-IsLawful toy_json-IsFaithful toy_spine-IsFaithful
        log 3 behind entries
        (66 ∷ [])
        []
        behind-Logs
        (67 ∷ [])
        (omega arith))
      (Shifted memory toy_json toy_spine memory-IsLawful toy_json-IsFaithful toy_spine-IsFaithful
        log 3 behind entries
        (66 ∷ [])
        []
        behind-Logs
        (67 ∷ [])
        (omega arith))
      (append memory toy_json toy_spine log (67 ∷ []) behind)
append-Shifted_example =
    append-Shifted memory toy_json toy_spine memory-IsLawful toy_json-IsFaithful
      toy_spine-IsFaithful log 3 behind entries (66 ∷ []) [] behind-Logs (67 ∷ []) (omega arith)
      (omega arith)

abbrev nothing : Memory
nothing = record { sizes = []; values = [] }

new_log_is_read :
    (written memory toy_json toy_spine ((65 ∷ []) ∷ (66 ∷ []) ∷ []) 1 nothing).1
    ≡ done ((66 ∷ []) ∷ [])
unfolding append_all create_log create tail tail_from append read_spine write_spine add get
    read_head read_head_raw write_head add_at free_from open_array lookup value_at set_value room
    toy_to_vec toy_from_slice letters
new_log_is_read = refl
