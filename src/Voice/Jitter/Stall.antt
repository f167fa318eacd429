-- ===== src/Voice/Jitter/Stall.antt =====
-- What a lost packet does to playback (crates/rekindle-voice/src/jitter.rs).
use rekindle.Base.{
  ℕ, ◌+◌, ◌≤◌, ◌<◌, ◌^◌, ltb, Bool, true, false, List, [], ◌∷◌, Option, none, ◌≡◌, refl, ◌∙◌, arith,
  length, All, Bool-cases, inl, inr,
}
use rekindle.Base.Ordered.{
  insert, From, IsAscending, From-weaken, All-insert, IsAscending-insert, lookup-above,
}
use rekindle.Voice.Jitter.{
  VoicePacket, JitterBuffer, trim, accept, push, pop, next, is_late, or_now,
}
use rekindle.Voice.Jitter.WellFormed.{
  Keyed, IsWellFormed, take_next-none, pop-playing, accept-IsWellFormed,
}
use rekindle.Voice.Jitter.Playback.{Event, arrives, plays, run, IsShort}

abbrev pub Below : ℕ → List (ℕ × VoicePacket) → Type 0
Below n = All λ (e : ℕ × VoicePacket). e.0 + 1 ≤ n

-- The packets to come have rising sequence numbers, from n.
abbrev pub IsUpcoming : ℕ → List Event → Type 0
IsUpcoming n [] = Unit
IsUpcoming n (arrives now packet ∷ es) = (n ≤ packet.sequence) × IsUpcoming (packet.sequence + 1) es
IsUpcoming n (plays now ∷ es) = IsUpcoming n es

-- The expected packet is missing: those in the buffer are later ones, and all are before n.
pub record IsStalled (n : ℕ) (jb : JitterBuffer) : Type 0 where
  pub playing : jb.initial_fill_done ≡ true
  pub sound : IsWellFormed jb
  pub missing : From (jb.next_playback_seq + 1) jb.buffer
  pub below : Below n jb.buffer
  pub expected : jb.next_playback_seq + 1 ≤ n

Below-weaken : (a b : ℕ) (m : List (ℕ × VoicePacket)) → a ≤ b → Below a m → Below b m
Below-weaken a b [] h f = tt
Below-weaken a b (e ∷ m) h f = (omega (arith, f.0), Below-weaken a b m h f.1)

trim_stall :
    (n limit : ℕ) (buffer : List (ℕ × VoicePacket)) (seq : ℕ)
    → IsAscending buffer
    → All Keyed buffer
    → From (seq + 1) buffer
    → Below n buffer
    → seq + 1 ≤ n
    → From ((trim true limit buffer seq).1 + 1) (trim true limit buffer seq).0
      × Below n (trim true limit buffer seq).0
      × ((trim true limit buffer seq).1 + 1 ≤ n)
unfolding trim
trim_stall n limit [] seq a k f b e = (tt, tt, e)
trim_stall n limit ((j, p) ∷ buffer) seq a k f b e =
    elim (Bool-cases (ltb limit (length ((j, p) ∷ buffer)))) [
      | inl h ↦ rw h (
          trim_stall n limit buffer (next seq) a.1 k.1
            (From-weaken (next seq + 1) (j + 1) buffer (omega (arith, f.0, k.0.1)) a.0) b.1
            (omega (arith, f.0, b.0, k.0.1)))
      | inr h ↦ rw h (f, b, e)
    ]

trim_done :
    (done : Bool) (n limit : ℕ) (buffer : List (ℕ × VoicePacket)) (seq : ℕ)
    → done ≡ true
    → IsAscending buffer
    → All Keyed buffer
    → From (seq + 1) buffer
    → Below n buffer
    → seq + 1 ≤ n
    → From ((trim done limit buffer seq).1 + 1) (trim done limit buffer seq).0
      × Below n (trim done limit buffer seq).0
      × ((trim done limit buffer seq).1 + 1 ≤ n)
trim_done true n limit buffer seq d a k f b e = trim_stall n limit buffer seq a k f b e
trim_done false n limit buffer seq d a k f b e = ground arith

accept-stall :
    (n : ℕ) (packet : VoicePacket) (jb : JitterBuffer)
    → packet.sequence + 1 < 2 ^ 32
    → n ≤ packet.sequence
    → IsStalled n jb
    → IsWellFormed (accept packet jb)
    → IsStalled (packet.sequence + 1) (accept packet jb)
unfolding accept
accept-stall n packet jb small later w sound =
    let kept =
      trim_done jb.initial_fill_done (packet.sequence + 1) jb.max_packets
        (insert packet.sequence packet jb.buffer) jb.next_playback_seq w.playing
        (IsAscending-insert packet.sequence packet jb.buffer w.sound.ascending)
        (All-insert Keyed packet.sequence packet jb.buffer (refl, small) w.sound.keyed)
        (All-insert (λ e. jb.next_playback_seq + 1 ≤ e.0) packet.sequence packet jb.buffer
          (omega (arith, w.expected)) w.missing)
        (All-insert (λ e. e.0 + 1 ≤ packet.sequence + 1) packet.sequence packet jb.buffer
          (omega arith) (Below-weaken n (packet.sequence + 1) jb.buffer (omega arith) w.below))
        (omega (arith, w.expected)) in
    record {
      playing = w.playing;
      sound = sound;
      missing = kept.0;
      below = kept.1;
      expected = kept.2;
    }

timely :
    (n : ℕ) (packet : VoicePacket) (jb : JitterBuffer)
    → n ≤ packet.sequence
    → IsStalled n jb
    → is_late packet jb ≡ false
timely n packet jb later w = ground (arith, w.expected)

push-timely :
    (now : ℕ) (packet : VoicePacket) (jb : JitterBuffer)
    → is_late packet jb ≡ false
    → push now packet jb
      ≡ accept packet (record jb { first_packet_time = or_now jb.first_packet_time now })
unfolding push
push-timely now packet jb h = rw h

timed-IsWellFormed :
    (jb : JitterBuffer) (at : Option ℕ)
    → IsWellFormed jb
    → IsWellFormed (record jb { first_packet_time = at })
timed-IsWellFormed jb at w = record {
  ascending = w.ascending;
  keyed = w.keyed;
  bounded = w.bounded;
  ahead = w.ahead;
}

push-stall :
    (n now : ℕ) (packet : VoicePacket) (jb : JitterBuffer)
    → packet.sequence + 1 < 2 ^ 32
    → n ≤ packet.sequence
    → IsStalled n jb
    → IsStalled (packet.sequence + 1) (push now packet jb)
push-stall n now packet jb small later w =
    let jb' : JitterBuffer = record jb { first_packet_time = or_now jb.first_packet_time now } in
    rw (push-timely now packet jb (timely n packet jb later w)) (
      accept-stall n packet jb' small later
        (record {
          playing = w.playing;
          sound = timed-IsWellFormed jb _ w.sound;
          missing = w.missing;
          below = w.below;
          expected = w.expected;
        })
        (accept-IsWellFormed packet jb' small (timely n packet jb later w)
          (timed-IsWellFormed jb _ w.sound)))

pop-stall : (n now : ℕ) (jb : JitterBuffer) → IsStalled n jb → pop now jb ≡ (jb, none)
pop-stall n now jb w =
    pop-playing now jb w.playing
    ∙ take_next-none jb (lookup-above jb.next_playback_seq jb.buffer w.missing)

-- Once the expected packet is lost, nothing is ever handed out again: if the packets in the buffer
-- are later ones, and the packets to come are later still and come in order, then no request for a
-- packet is answered, however many packets come. (No packet has the last number of 32 bits.)
pub loss_stalls :
    (es : List Event) (n : ℕ) (jb : JitterBuffer)
    → All IsShort es
    → IsUpcoming n es
    → IsStalled n jb
    → run es jb ≡ []
loss_stalls [] n jb short up w = refl
loss_stalls (arrives now packet ∷ es) n jb short up w =
    loss_stalls es (packet.sequence + 1) (push now packet jb) short.1 up.1
      (push-stall n now packet jb short.0 up.0 w)
loss_stalls (plays now ∷ es) n jb short up w =
    rw (pop-stall n now jb w) (loss_stalls es n jb short.1 up w)
