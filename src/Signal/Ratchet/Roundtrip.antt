-- ===== src/Signal/Ratchet/Roundtrip.antt =====
-- A session's bytes are read back.
use rekindle.Base.{
  ℕ, ◌≤◌, ◌<◌, ◌^◌, ltb, leb, true, false, List, [], ◌++◌, length, length-append, ◌≡◌, refl, arith,
  lt→ltb,
}
use mathlib.Core.Path.{subst}
use mathlib.Core.List.{append-nil}
use rekindle.Base.Bytes.{
  le_bytes, length-le_bytes, from_le_bytes-le_bytes, take-append, drop-append,
}
use rekindle.Base.Results.{done}
use rekindle.Signal.{cut}
use rekindle.Signal.Ratchet.{
  RatchetState, ratchet_bytes, serialize_ratchet, read_ratchet, deserialize_ratchet,
}

-- Three keys of 32 bytes, lengths of 32 bits and counters of 64 bits.
pub record IsWellFormed (r : RatchetState) : Type 0 where
  pub root : length r.root_key ≡ 32
  pub sending : length r.sending_chain_key ≡ 32
  pub receiving : length r.receiving_chain_key ≡ 32
  pub ours : length r.our_ratchet_secret < 2 ^ 32
  pub theirs : length r.their_ratchet_public < 2 ^ 32
  pub sent : r.send_counter < 2 ^ 64
  pub received : r.recv_counter < 2 ^ 64

-- The first bytes are cut off, if they are as many as asked for.
cut-append : (n : ℕ) (xs ys : List ℕ) → length xs ≡ n → cut n (xs ++ ys) ≡ (ys, done xs)
cut-append n xs ys e =
    subst (λ k. cut k (xs ++ ys) ≡ (ys, done xs)) e
      (rw (fits xs ys, take-append xs ys, drop-append xs ys) refl)
  where
    fits : (xs ys : List ℕ) → leb (length xs) (length (xs ++ ys)) ≡ true
    fits xs ys = ground (arith, length-append xs ys)

cut-all : (n : ℕ) (xs : List ℕ) → length xs ≡ n → cut n xs ≡ ([], done xs)
cut-all n xs e = subst (λ l. cut n l ≡ ([], done xs)) (append-nil xs) (cut-append n xs [] e)

module _ (r : RatchetState) (w : IsWellFormed r) where
  read_ratchet-bytes :
      (read_ratchet
        (ratchet_bytes r (length r.our_ratchet_secret) (length r.their_ratchet_public))).1
      ≡ done r
  unfolding read_ratchet
  read_ratchet-bytes =
      rw
        (
          cut-append 32 r.root_key _ w.root,
          cut-append 32 r.sending_chain_key _ w.sending,
          cut-append 32 r.receiving_chain_key _ w.receiving,
          cut-append 4 (le_bytes 4 (length r.our_ratchet_secret)) _ (length-le_bytes 4 _),
          from_le_bytes-le_bytes 4 (length r.our_ratchet_secret) w.ours,
          cut-append (length r.our_ratchet_secret) r.our_ratchet_secret _ refl,
          cut-append 4 (le_bytes 4 (length r.their_ratchet_public)) _ (length-le_bytes 4 _),
          from_le_bytes-le_bytes 4 (length r.their_ratchet_public) w.theirs,
          cut-append (length r.their_ratchet_public) r.their_ratchet_public _ refl,
          cut-append 8 (le_bytes 8 r.send_counter) _ (length-le_bytes 8 _),
          cut-all 8 (le_bytes 8 r.recv_counter) (length-le_bytes 8 _),
          from_le_bytes-le_bytes 8 r.send_counter w.sent,
          from_le_bytes-le_bytes 8 r.recv_counter w.received,
        )
        refl

  at_least :
      112 ≤ length (ratchet_bytes r (length r.our_ratchet_secret) (length r.their_ratchet_public))
  at_least = simp (length-append, length-le_bytes) (omega (arith, w.root, w.sending, w.receiving))

  long_enough :
      ltb
        (length (ratchet_bytes r (length r.our_ratchet_secret) (length r.their_ratchet_public)))
        112
      ≡ false
  long_enough = ground (arith, at_least)

  -- The state of a session whose keys have 32 bytes, whose ratchet keys have a length of 32 bits and
  -- whose counters have 64 bits is written without a panic, and read back from its bytes.
  pub deserialize_ratchet-serialize_ratchet :
      {S : Type 0} (s : S)
      → (bytes : List ℕ) × (serialize_ratchet r s ≡ (s, done bytes))
        × (deserialize_ratchet bytes ≡ done r)
  unfolding serialize_ratchet deserialize_ratchet
  deserialize_ratchet-serialize_ratchet s = (
    ratchet_bytes r (length r.our_ratchet_secret) (length r.their_ratchet_public),
    rw
        (
          lt→ltb (length r.our_ratchet_secret) (2 ^ 32) w.ours,
          lt→ltb (length r.their_ratchet_public) (2 ^ 32) w.theirs,
        )
        refl,
    rw long_enough read_ratchet-bytes,
  )
