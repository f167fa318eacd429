-- ===== src/Desktop/Pending/Detached.antt =====
-- The queue while the node is not attached.
use rekindle.Base.{
  ℕ, String, false, List, [], ◌∷◌, retain, some, any, All, ◌≡◌, ◌<◌, refl, arith, leb,
}
use rekindle.Base.Results.{failed, done}
use rekindle.Base.Actions.{Ends, either_end}
use rekindle.Desktop.Pending.{
  PendingMessage, PendingChannelMessage, Queue, Call, delete_pending, Outside, max_retries, execute,
  send_encrypted_to_server, retry_single_pending, retry_each, is_own, retry_pending_messages,
}
use rekindle.Desktop.Pending.Due.{Awaits, owned-Awaits, without_id-Awaits, none_left}
use rekindle.Desktop.Pending.Drains.{Works, deleted, tick_lem}

-- A channel message that may be tried again, for a community of which the server's route is known.
abbrev pub Addressed : Outside → List Call → PendingMessage → Type 0
Addressed O calls m =
    (m.retry_count < max_retries)
    × ((why : String) × (O.envelope m.body ≡ failed why))
    × ((c : PendingChannelMessage) × (O.channel_message m.body ≡ done c)
        × ((blob : List ℕ) × (O.server_route_blob calls c.community_id ≡ some blob)))

module _ (O : Outside) (works : Works O) (detached : O.is_attached ≡ false) where
  unsent :
      (c : PendingChannelMessage) (blob : List ℕ) (q : Queue)
      → send_encrypted_to_server O c blob q ≡ (q, done tt)
  unfolding send_encrypted_to_server
  unsent c blob q = simp detached refl

  single_deleted :
      (m : PendingMessage) (q : Queue)
      → Addressed O q.calls m
      → retry_single_pending O m q ≡ (execute (delete_pending m.id) q, done tt)
  unfolding retry_single_pending
  single_deleted m q (few, (why, no_envelope), (c, read, (blob, route))) =
      let young : leb max_retries m.retry_count ≡ false = ground (arith, few) in
      rw (young, no_envelope, read, route, unsent c blob q) (deleted O works m.id q)

  -- The owner's rows are gone, and nothing was sent.
  abbrev Lost : List Call → Queue → Type 0
  Lost calls q = All (Awaits O.owner_key []) q.rows × (q.calls ≡ calls)

  each-Lost :
      (ms : List PendingMessage) (q : Queue)
      → All (Addressed O q.calls) ms
      → All (Awaits O.owner_key ms) q.rows
      → Ends (λ q'. ⊥) (λ q' u. Lost q.calls q') (retry_each O ms q)
  unfolding retry_each
  each-Lost [] q h awaits = (awaits, refl)
  each-Lost (m ∷ ms) q h awaits = rw (single_deleted m q h.0) (
      each-Lost ms (execute (delete_pending m.id) q) h.1
        (without_id-Awaits O.owner_key m ms q.rows awaits))

-- While the node is not attached, a tick deletes the owner's messages, although nothing is sent: no
-- row of the owner is left, and the calls are as before. The owner's messages are channel messages
-- for communities whose server has a known route, each was tried less than 20 times, and the
-- database has no fault.
pub detached_loses :
    (O : Outside) (q : Queue)
    → Works O
    → O.is_attached ≡ false
    → All (Addressed O q.calls) (retain (is_own O) q.rows)
    → (any (is_own O) (retry_pending_messages O q).0.rows ≡ false)
      × ((retry_pending_messages O q).0.calls ≡ q.calls)
detached_loses O q works detached h = rw (tick_lem O works q) (
    either_end (λ q'. (any (is_own O) q'.rows ≡ false) × (q'.calls ≡ q.calls)) (λ q'. ⊥)
      (λ q' u. Lost O works detached q.calls q') (retry_each O (retain (is_own O) q.rows) q)
      (each-Lost O works detached (retain (is_own O) q.rows) q h (owned-Awaits O.owner_key q.rows))
      (λ q' no. absurd no) (λ q' u lost. (none_left O.owner_key q'.rows lost.0, lost.1)))
