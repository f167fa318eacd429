-- ===== src/Voice/Jitter/Always.antt =====
-- The jitter buffer after any arrivals and any requests, from a new one on
-- (crates/rekindle-voice/src/jitter.rs).
use rekindle.Base.{ℕ, List, [], ◌∷◌, All, arith}
use rekindle.Voice.Jitter.{JitterBuffer, new, push, pop}
use rekindle.Voice.Jitter.WellFormed.{IsWellFormed, push-IsWellFormed, pop-IsWellFormed}
use rekindle.Voice.Jitter.Playback.{Event, arrives, plays, IsShort}

-- What is left in the buffer.
abbrev pub left_by : List Event → JitterBuffer → JitterBuffer
left_by [] jb = jb
left_by (arrives now packet ∷ es) jb = left_by es (push now packet jb)
left_by (plays now ∷ es) jb = left_by es (pop now jb).0

pub new-IsWellFormed : (delay : ℕ) → IsWellFormed (new delay)
unfolding new
new-IsWellFormed delay = record { ascending = tt; keyed = tt; bounded = omega arith; ahead = tt }

left_by-IsWellFormed :
    (es : List Event) (jb : JitterBuffer)
    → All IsShort es
    → IsWellFormed jb
    → IsWellFormed (left_by es jb)
left_by-IsWellFormed [] jb short w = w
left_by-IsWellFormed (arrives now packet ∷ es) jb short w =
    left_by-IsWellFormed es (push now packet jb) short.1 (push-IsWellFormed now packet jb short.0 w)
left_by-IsWellFormed (plays now ∷ es) jb short w =
    left_by-IsWellFormed es (pop now jb).0 short.1 (pop-IsWellFormed now jb w)

-- After any arrivals and any requests, in whatever order and at whatever times, a buffer that was
-- new holds its packets in rising order of sequence numbers, each under its own number, at most as
-- many as its limit, and, once playback has begun, none below the next one expected. No packet has
-- the last sequence number of 32 bits.
pub left_by-new :
    (es : List Event) (delay : ℕ) → All IsShort es → IsWellFormed (left_by es (new delay))
left_by-new es delay short = left_by-IsWellFormed es (new delay) short (new-IsWellFormed delay)
