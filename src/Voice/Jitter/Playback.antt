-- ===== src/Voice/Jitter/Playback.antt =====
-- The packets that are played, over any arrivals (crates/rekindle-voice/src/jitter.rs).
use rekindle.Base.{
  ℕ, ◌+◌, ◌≤◌, ◌<◌, ◌^◌, ◌==◌, ltb, Bool, true, false, List, [], ◌∷◌, Option, none, some, ◌≡◌, refl,
  sym, ◌∙◌, arith, length, All, Bool-cases, inl, inr, Option-cases, ==_iff,
}
use rekindle.Base.Ordered.{insert, lookup, IsAscending, From-weaken, All-insert, IsAscending-insert}
use mathlib.Core.Path.{subst}
use mathlib.Core.Option.{some-injective}
use rekindle.Voice.Jitter.{
  VoicePacket, JitterBuffer, trim, accept, push, take_next, started, is_filled, pop, next, is_late,
  or_now,
}
use rekindle.Voice.Jitter.WellFormed.{
  Keyed, Ahead, IsWellFormed, IsPlaying, advanced, advanced-IsPlaying, take_next-none,
  take_next-some, pop-playing, pop-starting, pop-waiting, IsWellFormed-IsPlaying,
  IsPlaying-IsWellFormed, started-IsPlaying, push-IsWellFormed, Ahead-insert,
}

-- What happens to a buffer, with the time: a packet comes, or one is asked for.
pub data Event : Type 0 where
  arrives : ℕ → VoicePacket → Event
  plays : ℕ → Event

abbrev pub played : Option VoicePacket → List VoicePacket → List VoicePacket
played none ps = ps
played (some p) ps = p ∷ ps

-- The packets that are handed out.
abbrev pub run : List Event → JitterBuffer → List VoicePacket
run [] jb = []
run (arrives now packet ∷ es) jb = run es (push now packet jb)
run (plays now ∷ es) jb = played (pop now jb).1 (run es (pop now jb).0)

-- The sequence numbers rise, the first being at least n.
abbrev pub IsRising : ℕ → List VoicePacket → Type 0
IsRising n [] = Unit
IsRising n (p ∷ ps) = (n ≤ p.sequence) × IsRising (p.sequence + 1) ps

-- No packet has the last sequence number of 32 bits.
abbrev pub IsShort : Event → Type 0
IsShort (arrives now packet) = packet.sequence + 1 < 2 ^ 32
IsShort (plays now) = Unit

-- The least sequence number that can still be played.
abbrev pub floor_of : Bool → ℕ → ℕ
floor_of true seq = seq
floor_of false seq = 0

abbrev pub floor : JitterBuffer → ℕ
floor jb = floor_of jb.initial_fill_done jb.next_playback_seq

IsRising-weaken : (a b : ℕ) (ps : List VoicePacket) → a ≤ b → IsRising b ps → IsRising a ps
IsRising-weaken a b [] h r = tt
IsRising-weaken a b (p ∷ ps) h r = (omega (arith, r.0), r.1)

trim-floor :
    (done : Bool) (limit : ℕ) (buffer : List (ℕ × VoicePacket)) (seq : ℕ)
    → IsAscending buffer
    → All Keyed buffer
    → Ahead done seq buffer
    → floor_of done seq ≤ floor_of done (trim done limit buffer seq).1
unfolding trim
trim-floor done limit [] seq a k f = omega arith
trim-floor false limit ((j, p) ∷ buffer) seq a k f = omega arith
trim-floor true limit ((j, p) ∷ buffer) seq a k f =
    elim (Bool-cases (ltb limit (length ((j, p) ∷ buffer)))) [
      | inl h ↦ rw h (
          omega (
            arith,
            f.0,
            k.0.1,
            trim-floor true limit buffer (next seq) a.1 k.1
                (From-weaken (next seq) (j + 1) buffer (omega (arith, f.0, k.0.1)) a.0),
          ))
      | inr h ↦ rw h (omega arith)
    ]

accept-floor :
    (packet : VoicePacket) (jb : JitterBuffer)
    → packet.sequence + 1 < 2 ^ 32
    → is_late packet jb ≡ false
    → IsWellFormed jb
    → floor jb ≤ floor (accept packet jb)
unfolding accept
accept-floor packet jb small timely w =
    trim-floor jb.initial_fill_done jb.max_packets (insert packet.sequence packet jb.buffer)
      jb.next_playback_seq (IsAscending-insert packet.sequence packet jb.buffer w.ascending)
      (All-insert Keyed packet.sequence packet jb.buffer (refl, small) w.keyed)
      (Ahead-insert jb.initial_fill_done jb.next_playback_seq packet jb.buffer timely w.ahead)

push-floor :
    (now : ℕ) (packet : VoicePacket) (jb : JitterBuffer)
    → packet.sequence + 1 < 2 ^ 32
    → IsWellFormed jb
    → floor jb ≤ floor (push now packet jb)
unfolding push
push-floor now packet jb small w = elim (Bool-cases (is_late packet jb)) [
  | inl late ↦ rw late (omega arith)
  | inr timely ↦ rw timely (
      accept-floor packet (record jb { first_packet_time = or_now jb.first_packet_time now }) small
        timely
        (record { ascending = w.ascending; keyed = w.keyed; bounded = w.bounded; ahead = w.ahead }))
]

lookup-Keyed :
    (seq : ℕ) (buffer : List (ℕ × VoicePacket)) (p : VoicePacket)
    → All Keyed buffer
    → lookup seq buffer ≡ some p
    → Keyed (seq, p)
lookup-Keyed seq [] p k e = ground arith
lookup-Keyed seq ((j, q) ∷ buffer) p k e = elim (Bool-cases (j == seq)) [
  | inl h ↦
      let same : q ≡ p = some-injective q p (rw h at e) in
      subst (λ x. Keyed (seq, x)) same (subst (λ n. Keyed (n, q)) ((==_iff j seq).0 h) k.0)
  | inr h ↦ lookup-Keyed seq buffer p k.1 (rw h at e)
]

after : (p : VoicePacket) (seq : ℕ) → Keyed (seq, p) → next seq ≡ p.sequence + 1
after p seq k = omega (arith, k.0, k.1)

floor-done : (jb : JitterBuffer) → jb.initial_fill_done ≡ true → floor jb ≡ jb.next_playback_seq
floor-done jb h = rw h

floor-waiting : (jb : JitterBuffer) → jb.initial_fill_done ≡ false → floor jb ≡ 0
floor-waiting jb h = rw h

module _ (rest : JitterBuffer → List VoicePacket)
    (rises : (jb : JitterBuffer) → IsWellFormed jb → IsRising (floor jb) (rest jb)) where
  take_next-IsRising :
      (jb : JitterBuffer)
      → IsPlaying jb
      → IsRising jb.next_playback_seq (played (take_next jb).1 (rest (take_next jb).0))
  take_next-IsRising jb w = elim (Option-cases (lookup jb.next_playback_seq jb.buffer)) [
    | inl e ↦ rw (take_next-none jb e) (
        subst (λ n. IsRising n (rest jb)) (floor-done jb w.done)
          (rises jb (IsPlaying-IsWellFormed jb w)))
    | inr (p, e) ↦ rw (take_next-some jb p e) (
      omega (arith, (lookup-Keyed jb.next_playback_seq jb.buffer p w.keyed e).0),
      subst (λ n. IsRising n (rest (advanced jb)))
          (floor-done (advanced jb) w.done
            ∙ after p jb.next_playback_seq
                (lookup-Keyed jb.next_playback_seq jb.buffer p w.keyed e))
          (rises (advanced jb) (IsPlaying-IsWellFormed _ (advanced-IsPlaying jb w))),
    )
  ]

  pop-IsRising :
      (now : ℕ) (jb : JitterBuffer)
      → IsWellFormed jb
      → IsRising (floor jb) (played (pop now jb).1 (rest (pop now jb).0))
  pop-IsRising now jb w = elim (Bool-cases jb.initial_fill_done) [
    | inl done ↦ rw (pop-playing now jb done) (
        subst (λ n. IsRising n (played (take_next jb).1 (rest (take_next jb).0)))
          (sym (floor-done jb done)) (take_next-IsRising jb (IsWellFormed-IsPlaying jb done w)))
    | inr waiting ↦ elim (Bool-cases (is_filled now jb)) [
      | inl full ↦ rw (pop-starting now jb waiting full) (
          subst
            (λ n. IsRising n (played (take_next (started jb)).1 (rest (take_next (started jb)).0)))
            (sym (floor-waiting jb waiting))
            (IsRising-weaken 0 _ _ (omega arith)
              (take_next-IsRising (started jb) (started-IsPlaying jb w))))
      | inr empty ↦ rw (pop-waiting now jb waiting empty) (rises jb w)
    ]
  ]

-- Whatever packets come, in whatever order and however often, and whenever packets are asked for:
-- the packets handed out have strictly rising sequence numbers, so that none is played twice or after
-- a later one, and none is below the next one expected once playback has begun. The buffer is well
-- formed to start with, and no packet has the last sequence number of 32 bits.
pub run-IsRising :
    (es : List Event) (jb : JitterBuffer)
    → All IsShort es
    → IsWellFormed jb
    → IsRising (floor jb) (run es jb)
run-IsRising [] jb short w = tt
run-IsRising (arrives now packet ∷ es) jb short w =
    IsRising-weaken _ _ _ (push-floor now packet jb short.0 w)
      (run-IsRising es (push now packet jb) short.1 (push-IsWellFormed now packet jb short.0 w))
run-IsRising (plays now ∷ es) jb short w =
    pop-IsRising (run es) (λ j v. run-IsRising es j short.1 v) now jb w
