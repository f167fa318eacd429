-- ===== src/Voice/Jitter.antt =====
-- The jitter buffer: crates/rekindle-voice/src/jitter.rs, and VoicePacket of transport.rs. The clock is
-- an argument, in milliseconds.
mod WellFormed
mod Playback
mod Stall
mod Always
mod Stream
mod Tests
use rekindle.Base.{
  ℕ, ◌+◌, ◌-◌, ◌/◌, ◌%◌, ◌^◌, max, ltb, leb, if◌then◌else◌, Bool, true, false, not, ◌&&◌, ◌||◌,
  List, [], ◌∷◌, Option, none, some, length,
}
use rekindle.Base.Ordered.{insert, lookup, delete}

pub record VoicePacket : Type 0 where
  pub sender_key : List ℕ
  pub sequence : ℕ
  pub timestamp : ℕ
  pub audio_data : List ℕ

pub record JitterBuffer : Type 0 where
  pub buffer : List (ℕ × VoicePacket)
  pub target_delay_ms : ℕ
  pub next_playback_seq : ℕ
  pub max_packets : ℕ
  pub initial_fill_done : Bool
  pub first_packet_time : Option ℕ

unfoldable pub new : ℕ → JitterBuffer
new target_delay_ms = record {
  buffer = [];
  target_delay_ms = target_delay_ms;
  next_playback_seq = 0;
  max_packets = 50;
  initial_fill_done = false;
  first_packet_time = none;
}

-- `next_playback_seq += 1` on a `u32`; it wraps.
abbrev pub next : ℕ → ℕ
next seq = (seq + 1) % 2 ^ 32

-- The loop that drops the oldest packets; the second result is the next sequence number.
pub trim : Bool → ℕ → List (ℕ × VoicePacket) → ℕ → List (ℕ × VoicePacket) × ℕ
trim done limit [] seq = ([], seq)
trim done limit (e ∷ buffer) seq =
    let rest = trim done limit buffer (if done then next seq else seq) in
    if ltb limit (length (e ∷ buffer)) then rest else (e ∷ buffer, seq)

abbrev pub or_now : Option ℕ → ℕ → Option ℕ
or_now none now = some now
or_now (some at) now = some at

-- The packet goes in, and the oldest packets go out.
pub accept : VoicePacket → JitterBuffer → JitterBuffer
accept packet jb =
    let trimmed =
      trim jb.initial_fill_done jb.max_packets (insert packet.sequence packet jb.buffer)
        jb.next_playback_seq in
    record jb { buffer = trimmed.0; next_playback_seq = trimmed.1 }

-- Already played.
abbrev pub is_late : VoicePacket → JitterBuffer → Bool
is_late packet jb = jb.initial_fill_done && ltb packet.sequence jb.next_playback_seq

unfoldable pub push : ℕ → VoicePacket → JitterBuffer → JitterBuffer
unfolding accept
push now packet jb =
    let jb' = record jb { first_packet_time = or_now jb.first_packet_time now } in
    if is_late packet jb then jb' else accept packet jb'

abbrev pub is_elapsed : Option ℕ → ℕ → ℕ → Bool
is_elapsed none now delay = false
is_elapsed (some at) now delay = leb delay (now - at)

-- Whether `check_initial_fill` finds the phase complete; it then sets `initial_fill_done`.
pub is_filled : ℕ → JitterBuffer → Bool
is_filled now jb =
    leb (max (jb.target_delay_ms / 20) 1) (length jb.buffer)
    || is_elapsed jb.first_packet_time now jb.target_delay_ms

-- The first key, or the number as it is.
abbrev pub first_or : ℕ → List (ℕ × VoicePacket) → ℕ
first_or seq [] = seq
first_or seq ((k, p) ∷ buffer) = k

-- The buffer once the phase is complete.
pub started : JitterBuffer → JitterBuffer
started jb = record jb {
  initial_fill_done = true;
  next_playback_seq = first_or jb.next_playback_seq jb.buffer;
}

-- `remove` of the next packet.
pub take_next : JitterBuffer → JitterBuffer × Option VoicePacket
take_next jb = elim (lookup jb.next_playback_seq jb.buffer) [
  | none ↦ (jb, none)
  | some p ↦ (
    record jb {
      buffer = delete jb.next_playback_seq jb.buffer;
      next_playback_seq = next jb.next_playback_seq;
    },
    some p,
  )
]

unfoldable pub pop : ℕ → JitterBuffer → JitterBuffer × Option VoicePacket
unfolding take_next started is_filled
pop now jb =
    if jb.initial_fill_done
    then take_next jb
    else if is_filled now jb
    then take_next (started jb)
    else (jb, none)

abbrev pub audio_of : Option VoicePacket → Option (List ℕ)
audio_of none = none
audio_of (some p) = some p.audio_data

unfoldable pub peek_next_audio_data : JitterBuffer → Option (List ℕ)
peek_next_audio_data jb =
    if jb.initial_fill_done then audio_of (lookup (next jb.next_playback_seq) jb.buffer) else none

unfoldable pub depth : JitterBuffer → ℕ
depth jb = length jb.buffer

unfoldable pub set_target_delay_ms : ℕ → JitterBuffer → JitterBuffer
set_target_delay_ms ms jb = record jb { target_delay_ms = ms }

unfoldable pub reset : JitterBuffer → JitterBuffer
reset jb = record jb {
  buffer = [];
  next_playback_seq = 0;
  initial_fill_done = false;
  first_packet_time = none;
}
