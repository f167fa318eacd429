-- ===== src/Voice/Jitter/Tests.antt =====
-- The jitter buffer on concrete packets: packets out of order and a late one, and the theorems there.
use rekindle.Base.{ℕ, true, List, [], ◌∷◌, none, some, ◌≡◌, refl, arith, map}
use rekindle.Voice.Jitter.{
  VoicePacket, JitterBuffer, new, push, pop, trim, accept, take_next, started, is_filled,
}
use rekindle.Voice.Jitter.WellFormed.{IsWellFormed}
use rekindle.Voice.Jitter.Playback.{Event, arrives, plays, run, IsRising, floor, run-IsRising}
use rekindle.Voice.Jitter.Always.{left_by, new-IsWellFormed, left_by-new}
use rekindle.Voice.Jitter.Stream.{ready, stream, stream_plays}
use rekindle.Voice.Jitter.Stall.{IsStalled, loss_stalls}

abbrev make_packet : ℕ → VoicePacket
make_packet seq = record {
  sender_key = 0 ∷ [];
  sequence = seq;
  timestamp = seq;
  audio_data = 0 ∷ 0 ∷ [];
}

abbrev shuffled : List Event
shuffled =
    arrives 0 (make_packet 2)
    ∷ arrives 0 (make_packet 0)
    ∷ arrives 0 (make_packet 1)
    ∷ plays 0
    ∷ plays 0
    ∷ arrives 0 (make_packet 0)
    ∷ plays 0
    ∷ plays 0
    ∷ []

test_out_of_order : map (λ p. p.sequence) (run shuffled (new 0)) ≡ 0 ∷ 1 ∷ 2 ∷ []
unfolding push pop new trim accept take_next started is_filled
test_out_of_order = refl

run-IsRising_example : IsRising (floor (new 0)) (run shuffled (new 0))
run-IsRising_example =
    run-IsRising shuffled (new 0)
      (omega arith, (omega arith, (omega arith, (tt, (tt, (omega arith, (tt, (tt, tt))))))))
      (new-IsWellFormed 0)

left_by-new_example : IsWellFormed (left_by shuffled (new 40))
left_by-new_example =
    left_by-new shuffled 40
      (omega arith, (omega arith, (omega arith, (tt, (tt, (omega arith, (tt, (tt, tt))))))))

-- Number 5 is lost.
abbrev gap : JitterBuffer
gap = record {
  buffer = (6, make_packet 6) ∷ [];
  target_delay_ms = 0;
  next_playback_seq = 5;
  max_packets = 50;
  initial_fill_done = true;
  first_packet_time = some 0;
}

gap-IsStalled : IsStalled 7 gap
gap-IsStalled = record {
  playing = refl;
  sound = record {
    ascending = (tt, tt);
    keyed = ((refl, omega arith), tt);
    bounded = omega arith;
    ahead = (omega arith, tt);
  };
  missing = (omega arith, tt);
  below = (omega arith, tt);
  expected = omega arith;
}

loss_stalls_example :
    run
      (plays 20
        ∷ arrives 20 (make_packet 7)
        ∷ plays 40
        ∷ arrives 40 (make_packet 8)
        ∷ plays 60
        ∷ [])
      gap
    ≡ []
loss_stalls_example =
    loss_stalls
      (plays 20
        ∷ arrives 20 (make_packet 7)
        ∷ plays 40
        ∷ arrives 40 (make_packet 8)
        ∷ plays 60
        ∷ [])
      7 gap (tt, (omega arith, (tt, (omega arith, (tt, tt))))) (omega arith, (omega arith, tt))
      gap-IsStalled

stream_plays_example :
    run (stream 20 (make_packet 5 ∷ make_packet 6 ∷ make_packet 7 ∷ [])) (ready 40 5 50 none)
    ≡ make_packet 5 ∷ make_packet 6 ∷ make_packet 7 ∷ []
stream_plays_example =
    stream_plays (make_packet 5 ∷ make_packet 6 ∷ make_packet 7 ∷ []) 40 5 50 20 none (omega arith)
      (refl, omega arith, (refl, omega arith, (refl, omega arith, tt)))
