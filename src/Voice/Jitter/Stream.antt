-- ===== src/Voice/Jitter/Stream.antt =====
-- Playback without loss (crates/rekindle-voice/src/jitter.rs).
use rekindle.Base.{
  ℕ, ◌+◌, ◌≤◌, ◌<◌, ◌^◌, ltb, true, false, List, [], ◌∷◌, Option, some, ◌≡◌, refl, ap, ◌∙◌, arith,
  ==_iff,
}
use rekindle.Voice.Jitter.{VoicePacket, JitterBuffer, push, pop, accept, trim, next, or_now}
use rekindle.Voice.Jitter.WellFormed.{pop-playing, take_next-some}
use rekindle.Voice.Jitter.Playback.{Event, arrives, plays, run}

-- An empty buffer that waits for packet n.
abbrev pub ready : ℕ → ℕ → ℕ → Option ℕ → JitterBuffer
ready delay n limit first = record {
  buffer = [];
  target_delay_ms = delay;
  next_playback_seq = n;
  max_packets = limit;
  initial_fill_done = true;
  first_packet_time = first;
}

-- Each packet is asked for once it has come.
abbrev pub stream : ℕ → List VoicePacket → List Event
stream now [] = []
stream now (p ∷ ps) = arrives now p ∷ plays now ∷ stream now ps

-- The packets have the numbers n, n + 1 and so on, without the last one of 32 bits.
abbrev pub IsConsecutive : ℕ → List VoicePacket → Type 0
IsConsecutive n [] = Unit
IsConsecutive n (p ∷ ps) = (p.sequence ≡ n) × (n + 1 < 2 ^ 32) × IsConsecutive (n + 1) ps

not_before : (n : ℕ) → ltb n n ≡ false
not_before n = ground arith

within : (limit : ℕ) → 1 ≤ limit → ltb limit 1 ≡ false
within limit h = ground arith

counted : (n : ℕ) → n + 1 < 2 ^ 32 → next n ≡ n + 1
counted n h = omega arith

-- The buffer that holds the expected packet.
abbrev holding : ℕ → ℕ → ℕ → Option ℕ → VoicePacket → JitterBuffer
holding delay n limit first p = record (ready delay n limit first) { buffer = (n, p) ∷ [] }

pushed :
    (delay n limit now : ℕ) (first : Option ℕ) (p : VoicePacket)
    → 1 ≤ limit
    → p.sequence ≡ n
    → push now p (ready delay n limit first) ≡ holding delay n limit (or_now first now) p
unfolding push accept trim
pushed delay n limit now first p room e = rw (e, not_before n, within limit room)

popped :
    (delay n limit now : ℕ) (first : Option ℕ) (p : VoicePacket)
    → n + 1 < 2 ^ 32
    → pop now (holding delay n limit first p) ≡ (ready delay (n + 1) limit first, some p)
popped delay n limit now first p small =
    pop-playing now (holding delay n limit first p) refl
    ∙ take_next-some (holding delay n limit first p) p (rw ((==_iff n n).1 refl) refl)
    ∙ rw ((==_iff n n).1 refl, counted n small) refl

-- While packets come one after the other, each is handed out as it is asked for: a buffer that has
-- begun to play, is empty, and waits for the first of them gives back exactly these packets.
pub stream_plays :
    (ps : List VoicePacket) (delay n limit now : ℕ) (first : Option ℕ)
    → 1 ≤ limit
    → IsConsecutive n ps
    → run (stream now ps) (ready delay n limit first) ≡ ps
stream_plays [] delay n limit now first room c = refl
stream_plays (p ∷ ps) delay n limit now first room c =
    rw
      (pushed delay n limit now first p room c.0, popped delay n limit now (or_now first now) p c.1)
      (ap (λ qs. p ∷ qs) (stream_plays ps delay (n + 1) limit now (or_now first now) room c.2))
