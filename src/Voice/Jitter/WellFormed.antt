-- ===== src/Voice/Jitter/WellFormed.antt =====
-- What holds of the jitter buffer at every moment.
use rekindle.Base.{
  ℕ, ◌+◌, ◌≤◌, ◌<◌, ◌^◌, ltb, Bool, true, false, ◌&&◌, List, [], ◌∷◌, none, some, ◌≡◌, refl, arith,
  length, All, Bool-cases, inl, inr, Option-cases,
}
use rekindle.Base.Ordered.{
  insert, lookup, delete, From, IsAscending, All-insert, All-delete, From-weaken,
  IsAscending-insert, IsAscending-delete, From-delete, length-delete,
}
use rekindle.Voice.Jitter.{
  VoicePacket, JitterBuffer, trim, accept, push, take_next, started, is_filled, pop, next, first_or,
  is_late, or_now,
}

-- A packet stands under its own sequence number, which is not the last one of 32 bits.
abbrev pub Keyed : (ℕ × VoicePacket) → Type 0
Keyed e = (e.0 ≡ e.1.sequence) × (e.0 + 1 < 2 ^ 32)

-- Nothing in the buffer was to be played earlier, once playback has begun.
abbrev pub Ahead : Bool → ℕ → List (ℕ × VoicePacket) → Type 0
Ahead true seq buffer = From seq buffer
Ahead false seq buffer = Unit

pub record IsWellFormed (jb : JitterBuffer) : Type 0 where
  pub ascending : IsAscending jb.buffer
  pub keyed : All Keyed jb.buffer
  pub bounded : length jb.buffer ≤ jb.max_packets
  pub ahead : Ahead jb.initial_fill_done jb.next_playback_seq jb.buffer

-- What the loop leaves of a buffer.
pub trim_lem :
    (done : Bool) (limit : ℕ) (buffer : List (ℕ × VoicePacket)) (seq : ℕ)
    → IsAscending buffer
    → All Keyed buffer
    → Ahead done seq buffer
    → IsAscending (trim done limit buffer seq).0
      × All Keyed (trim done limit buffer seq).0
      × (length (trim done limit buffer seq).0 ≤ limit)
      × Ahead done (trim done limit buffer seq).1 (trim done limit buffer seq).0
unfolding trim
trim_lem true limit [] seq a k f = (tt, tt, omega arith, tt)
trim_lem false limit [] seq a k f = (tt, tt, omega arith, tt)
trim_lem true limit ((j, p) ∷ buffer) seq a k f =
    elim (Bool-cases (ltb limit (length ((j, p) ∷ buffer)))) [
      | inl h ↦ rw h (
          trim_lem true limit buffer (next seq) a.1 k.1
            (From-weaken _ _ buffer (omega (arith, f.0, k.0.1)) a.0))
      | inr h ↦ rw h (a, k, ground arith, f)
    ]
trim_lem false limit ((j, p) ∷ buffer) seq a k f =
    elim (Bool-cases (ltb limit (length ((j, p) ∷ buffer)))) [
      | inl h ↦ rw h (trim_lem false limit buffer seq a.1 k.1 tt)
      | inr h ↦ rw h (a, k, ground arith, f)
    ]

pub Ahead-insert :
    (done : Bool) (seq : ℕ) (packet : VoicePacket) (buffer : List (ℕ × VoicePacket))
    → (done && ltb packet.sequence seq) ≡ false
    → Ahead done seq buffer
    → Ahead done seq (insert packet.sequence packet buffer)
Ahead-insert true seq packet buffer timely f =
    All-insert (λ e. seq ≤ e.0) packet.sequence packet buffer (ground arith) f
Ahead-insert false seq packet buffer timely f = tt

pub accept-IsWellFormed :
    (packet : VoicePacket) (jb : JitterBuffer)
    → packet.sequence + 1 < 2 ^ 32
    → is_late packet jb ≡ false
    → IsWellFormed jb
    → IsWellFormed (accept packet jb)
unfolding accept
accept-IsWellFormed packet jb small timely w =
    let kept =
      trim_lem jb.initial_fill_done jb.max_packets (insert packet.sequence packet jb.buffer)
        jb.next_playback_seq (IsAscending-insert packet.sequence packet jb.buffer w.ascending)
        (All-insert Keyed packet.sequence packet jb.buffer (refl, small) w.keyed)
        (Ahead-insert jb.initial_fill_done jb.next_playback_seq packet jb.buffer timely w.ahead) in
    record { ascending = kept.0; keyed = kept.1; bounded = kept.2; ahead = kept.3 }

-- A packet that arrives keeps the buffer in order, within its limit, and ahead of playback.
pub push-IsWellFormed :
    (now : ℕ) (packet : VoicePacket) (jb : JitterBuffer)
    → packet.sequence + 1 < 2 ^ 32
    → IsWellFormed jb
    → IsWellFormed (push now packet jb)
unfolding push
push-IsWellFormed now packet jb small w = elim (Bool-cases (is_late packet jb)) [
  | inl late ↦
      rw late
        record { ascending = w.ascending; keyed = w.keyed; bounded = w.bounded; ahead = w.ahead }
  | inr timely ↦ rw timely (
      accept-IsWellFormed packet (record jb { first_packet_time = or_now jb.first_packet_time now })
        small timely
        (record { ascending = w.ascending; keyed = w.keyed; bounded = w.bounded; ahead = w.ahead }))
]

-- A buffer whose playback has begun.
pub record IsPlaying (jb : JitterBuffer) : Type 0 where
  pub done : jb.initial_fill_done ≡ true
  pub ascending : IsAscending jb.buffer
  pub keyed : All Keyed jb.buffer
  pub bounded : length jb.buffer ≤ jb.max_packets
  pub from_next : From jb.next_playback_seq jb.buffer

first-From :
    (seq : ℕ) (buffer : List (ℕ × VoicePacket))
    → IsAscending buffer
    → From (first_or seq buffer) buffer
first-From seq [] a = tt
first-From seq ((k, p) ∷ buffer) a = (omega arith, From-weaken k (k + 1) buffer (omega arith) a.0)

pub started-IsPlaying : (jb : JitterBuffer) → IsWellFormed jb → IsPlaying (started jb)
unfolding started
started-IsPlaying jb w = record {
  done = refl;
  ascending = w.ascending;
  keyed = w.keyed;
  bounded = w.bounded;
  from_next = first-From jb.next_playback_seq jb.buffer w.ascending;
}

-- The buffer after its next packet has been taken.
abbrev pub advanced : JitterBuffer → JitterBuffer
advanced jb = record jb {
  buffer = delete jb.next_playback_seq jb.buffer;
  next_playback_seq = next jb.next_playback_seq;
}

pub take_next-none :
    (jb : JitterBuffer) → lookup jb.next_playback_seq jb.buffer ≡ none → take_next jb ≡ (jb, none)
unfolding take_next
take_next-none jb e = rw (e, take_next)

pub take_next-some :
    (jb : JitterBuffer) (p : VoicePacket)
    → lookup jb.next_playback_seq jb.buffer ≡ some p
    → take_next jb ≡ (advanced jb, some p)
unfolding take_next
take_next-some jb p e = rw (e, take_next)

pub advanced-IsPlaying : (jb : JitterBuffer) → IsPlaying jb → IsPlaying (advanced jb)
advanced-IsPlaying jb w = record {
  done = w.done;
  ascending = IsAscending-delete jb.next_playback_seq jb.buffer w.ascending;
  keyed = All-delete Keyed jb.next_playback_seq jb.buffer w.keyed;
  bounded = omega (arith, length-delete jb.next_playback_seq jb.buffer, w.bounded);
  from_next =
      From-weaken (next jb.next_playback_seq) (jb.next_playback_seq + 1) _ (omega arith)
        (From-delete jb.next_playback_seq jb.buffer w.ascending w.from_next);
}

pub take_next-IsPlaying : (jb : JitterBuffer) → IsPlaying jb → IsPlaying (take_next jb).0
take_next-IsPlaying jb w = elim (Option-cases (lookup jb.next_playback_seq jb.buffer)) [
  | inl e ↦ rw (take_next-none jb e) w
  | inr (p, e) ↦ rw (take_next-some jb p e) (advanced-IsPlaying jb w)
]

Ahead-true :
    (seq : ℕ) (buffer : List (ℕ × VoicePacket)) (done : Bool)
    → done ≡ true
    → From seq buffer
    → Ahead done seq buffer
Ahead-true seq buffer true e f = f
Ahead-true seq buffer false e f = tt

From-Ahead :
    (seq : ℕ) (buffer : List (ℕ × VoicePacket)) (done : Bool)
    → done ≡ true
    → Ahead done seq buffer
    → From seq buffer
From-Ahead seq buffer true e f = f
From-Ahead seq buffer false e f = ground arith

pub IsPlaying-IsWellFormed : (jb : JitterBuffer) → IsPlaying jb → IsWellFormed jb
IsPlaying-IsWellFormed jb w = record {
  ascending = w.ascending;
  keyed = w.keyed;
  bounded = w.bounded;
  ahead = Ahead-true jb.next_playback_seq jb.buffer jb.initial_fill_done w.done w.from_next;
}

pub IsWellFormed-IsPlaying :
    (jb : JitterBuffer) → jb.initial_fill_done ≡ true → IsWellFormed jb → IsPlaying jb
IsWellFormed-IsPlaying jb done w = record {
  done = done;
  ascending = w.ascending;
  keyed = w.keyed;
  bounded = w.bounded;
  from_next = From-Ahead jb.next_playback_seq jb.buffer jb.initial_fill_done done w.ahead;
}

pub pop-playing :
    (now : ℕ) (jb : JitterBuffer) → jb.initial_fill_done ≡ true → pop now jb ≡ take_next jb
unfolding pop
pop-playing now jb done = rw done

pub pop-starting :
    (now : ℕ) (jb : JitterBuffer)
    → jb.initial_fill_done ≡ false
    → is_filled now jb ≡ true
    → pop now jb ≡ take_next (started jb)
unfolding pop
pop-starting now jb waiting full = rw (waiting, full)

pub pop-waiting :
    (now : ℕ) (jb : JitterBuffer)
    → jb.initial_fill_done ≡ false
    → is_filled now jb ≡ false
    → pop now jb ≡ (jb, none)
unfolding pop
pop-waiting now jb waiting empty = rw (waiting, empty)

-- Taking a packet keeps the buffer in order, within its limit, and ahead of playback.
pub pop-IsWellFormed : (now : ℕ) (jb : JitterBuffer) → IsWellFormed jb → IsWellFormed (pop now jb).0
pop-IsWellFormed now jb w = elim (Bool-cases jb.initial_fill_done) [
  | inl done ↦
      rw (pop-playing now jb done)
        (IsPlaying-IsWellFormed _ (take_next-IsPlaying jb (IsWellFormed-IsPlaying jb done w)))
  | inr waiting ↦ elim (Bool-cases (is_filled now jb)) [
    | inl full ↦
        rw (pop-starting now jb waiting full)
          (IsPlaying-IsWellFormed _ (take_next-IsPlaying _ (started-IsPlaying jb w)))
    | inr empty ↦ rw (pop-waiting now jb waiting empty) w
  ]
]
