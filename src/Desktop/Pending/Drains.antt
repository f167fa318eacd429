-- ===== src/Desktop/Pending/Drains.antt =====
-- The queue through a number of ticks of the sync loop.
use rekindle.Base.{
  ℕ, suc, ◌+◌, ◌≤◌, String, str_eq, true, false, List, [], ◌∷◌, map, retain, Option, none, some,
  length, any, All, ◌≡◌, ◌⊎◌, refl, sym, ap, ◌∙◌, arith, leb, Bool-cases, inl, inr,
}
use mathlib.Core.Path.{subst}
use rekindle.Base.Results.{Result, failed, done}
use rekindle.Base.Actions.{Ends, after_Ends, either_end}
use rekindle.Messaging.Envelope.{MessageEnvelope}
use rekindle.Desktop.Pending.{
  retry_rows, PendingMessage, PendingChannelMessage, Queue, Statement, delete_pending,
  increment_retry, Outside, without_id, retried, execute, max_retries, run_statement,
  delete_pending_message, increment_retry_count, settled, send_by, retry_pending_dm, retry_channel,
  send_encrypted_to_server, retry_other, retry_body, retry_single_pending, retry_each, is_own,
  retry_pending_messages, run_ticks, or_mailbox, known_route,
}
use rekindle.Desktop.Pending.Routes.{
  known_route-rows, or_mailbox-rows, send_encrypted_to_server-rows,
}
use rekindle.Desktop.Pending.Due.{
  AtLeast, Due, Awaits, without_id-Due, retried-Due, without_id-Awaits, owned-Awaits, first-Due,
  last-Due, none_left, exhausted,
}

-- The database has no fault.
pub record Works (O : Outside) : Type 0 where
  pub query : O.query_fault ≡ none
  pub statement : (st : Statement) → O.fault st ≡ none

module _ (O : Outside) (works : Works O) where
  -- The row of an id is deleted, or its count goes up.
  abbrev Stepped : ℕ → List PendingMessage → Queue → Type 0
  Stepped id rows q = (q.rows ≡ without_id id rows) ⊎ (q.rows ≡ map (retried id) rows)

  abbrev Steps : ℕ → List PendingMessage → Queue × Result String (Unit {0}) → Type 0
  Steps id rows o = Ends (λ q. ⊥) (λ q u. Stepped id rows q) o

  deletes : (id : ℕ) (q : Queue) → Steps id q.rows (delete_pending_message O id q)
  unfolding run_statement
  deletes id q = rw (works.statement (delete_pending id), run_statement) (inl refl)

  increments : (id : ℕ) (q : Queue) → Steps id q.rows (increment_retry_count O id q)
  unfolding run_statement
  increments id q = rw (works.statement (increment_retry id), run_statement) (inr refl)

  settled-Steps :
      (id : ℕ) (r : Result String (Unit {0})) (q : Queue) → Steps id q.rows (settled O id r q)
  settled-Steps id (done u) q = deletes id q
  settled-Steps id (failed why) q = increments id q

  send_by-Steps :
      (id : ℕ) (envelope : MessageEnvelope) (o : Queue × Option ℕ)
      → Steps id o.0.rows (send_by O id envelope o)
  send_by-Steps id envelope (q, none) = increments id q
  send_by-Steps id envelope (q, some route_id) =
      settled-Steps id (O.sends q.calls route_id envelope) _

  retry_pending_dm-Steps :
      (id : ℕ) (recipient : String) (envelope : MessageEnvelope) (q : Queue)
      → Steps id q.rows (retry_pending_dm O id recipient envelope q)
  unfolding retry_pending_dm
  retry_pending_dm-Steps id recipient envelope q = elim (Bool-cases O.has_node) [
    | inl e ↦ simp e (
        subst
          (λ rows.
            Steps id rows
              (send_by O id envelope (or_mailbox O recipient (known_route O recipient q))))
          (or_mailbox-rows O recipient (known_route O recipient q) ∙ known_route-rows O recipient q)
          (send_by-Steps id envelope (or_mailbox O recipient (known_route O recipient q))))
    | inr e ↦ simp e (increments id q)
  ]

  retry_channel-Steps :
      (id : ℕ) (m : PendingChannelMessage) (o : Option (List ℕ)) (q : Queue)
      → Steps id q.rows (retry_channel O id m o q)
  retry_channel-Steps id m none q = increments id q
  retry_channel-Steps id m (some blob) q =
      subst (λ rows. Steps id rows (retry_channel O id m (some blob) q))
        (send_encrypted_to_server-rows O m blob q)
        (settled-Steps id (send_encrypted_to_server O m blob q).1
          (send_encrypted_to_server O m blob q).0)

  retry_other-Steps :
      (id : ℕ) (r : Result String PendingChannelMessage) (q : Queue)
      → Steps id q.rows (retry_other O id r q)
  retry_other-Steps id (done m) q =
      retry_channel-Steps id m (O.server_route_blob q.calls m.community_id) q
  retry_other-Steps id (failed why) q = deletes id q

  retry_body-Steps :
      (m : PendingMessage) (r : Result String MessageEnvelope) (q : Queue)
      → Steps m.id q.rows (retry_body O m r q)
  retry_body-Steps m (done envelope) q = retry_pending_dm-Steps m.id m.recipient_key envelope q
  retry_body-Steps m (failed why) q = retry_other-Steps m.id (O.channel_message m.body) q

  single-Steps : (m : PendingMessage) (q : Queue) → Steps m.id q.rows (retry_single_pending O m q)
  unfolding retry_single_pending
  single-Steps m q = elim (Bool-cases (leb max_retries m.retry_count)) [
    | inl e ↦ rw e (deletes m.id q)
    | inr e ↦ rw e (retry_body-Steps m (O.envelope m.body) q)
  ]

  each-Due :
      (own : String) (k : ℕ) (ms : List PendingMessage) (q : Queue)
      → All (Due own k ms) q.rows
      → Ends (λ q'. ⊥) (λ q' u. All (Due own k []) q'.rows) (retry_each O ms q)
  unfolding retry_each
  each-Due own k [] q h = h
  each-Due own k (m ∷ ms) q h =
      after_Ends (Ends (λ q'. ⊥) (λ q' u. All (Due own k []) q'.rows)) (λ q'. ⊥)
        (λ q' u. Stepped m.id q.rows q') (retry_single_pending O m q) (λ u. retry_each O ms)
        (single-Steps m q) (λ q' why no. no)
        λ q' u stepped. each-Due own k ms q' (elim stepped [
          | inl e ↦ subst (All (Due own k ms)) (sym e) (without_id-Due own k m ms q.rows h)
          | inr e ↦ subst (All (Due own k ms)) (sym e) (retried-Due own k m ms q.rows h)
        ])

  pub deleted :
      (id : ℕ) (q : Queue)
      → delete_pending_message O id q ≡ (execute (delete_pending id) q, done tt)
  unfolding run_statement
  deleted id q = rw (works.statement (delete_pending id), run_statement) refl

  each-Awaits :
      (own : String) (ms : List PendingMessage) (q : Queue)
      → All (λ (m : PendingMessage). max_retries ≤ m.retry_count) ms
      → All (Awaits own ms) q.rows
      → Ends (λ q'. ⊥) (λ q' u. All (Awaits own []) q'.rows) (retry_each O ms q)
  unfolding retry_each retry_single_pending
  each-Awaits own [] q old h = h
  each-Awaits own (m ∷ ms) q old h =
      let over : leb max_retries m.retry_count ≡ true = ground (arith, old.0) in
      rw (over, deleted m.id q) (each-Awaits own ms _ old.1 (without_id-Awaits own m ms q.rows h))

  pub tick_lem :
      (q : Queue) → retry_pending_messages O q ≡ retry_each O (retain (is_own O) q.rows) q
  unfolding retry_pending_messages
  tick_lem q = ap (λ o. retry_rows O o q) works.query

  -- A tick: every own message that is left was tried once more.
  tick-AtLeast :
      (k : ℕ) (q : Queue)
      → All (AtLeast O.owner_key k) q.rows
      → All (AtLeast O.owner_key (suc k)) (retry_pending_messages O q).0.rows
  tick-AtLeast k q h = rw (tick_lem q) (
      either_end (λ q'. All (AtLeast O.owner_key (suc k)) q'.rows) (λ q'. ⊥)
        (λ q' u. All (Due O.owner_key k []) q'.rows) (retry_each O (retain (is_own O) q.rows) q)
        (each-Due O.owner_key k (retain (is_own O) q.rows) q (
          first-Due O.owner_key k (retain (is_own O) q.rows) q.rows h
            (owned-Awaits O.owner_key q.rows)))
        (λ q' no. absurd no) (λ q' u due. last-Due O.owner_key k q'.rows due))

  -- The tick after the last try.
  tick_last :
      (q : Queue)
      → All (AtLeast O.owner_key max_retries) q.rows
      → any (is_own O) (retry_pending_messages O q).0.rows ≡ false
  tick_last q h = rw (tick_lem q) (
      either_end (λ q'. any (is_own O) q'.rows ≡ false) (λ q'. ⊥)
        (λ q' u. All (Awaits O.owner_key []) q'.rows) (retry_each O (retain (is_own O) q.rows) q)
        (each-Awaits O.owner_key (retain (is_own O) q.rows) q
          (exhausted O.owner_key max_retries q.rows h) (owned-Awaits O.owner_key q.rows))
        (λ q' no. absurd no) (λ q' u left. none_left O.owner_key q'.rows left))

abbrev pub IsTick : String → Outside → Type 0
IsTick own O = (O.owner_key ≡ own) × Works O

ticks_drain :
    (own : String) (k : ℕ) (os : List Outside) (q : Queue)
    → All (IsTick own) os
    → k + length os ≡ suc max_retries
    → k ≤ max_retries
    → All (AtLeast own k) q.rows
    → any (λ (r : PendingMessage). str_eq r.owner_key own) (run_ticks os q).rows ≡ false
unfolding run_ticks
ticks_drain own k [] q ticks e below h = absurd (omega (arith, e, below))
ticks_drain own k (O ∷ []) q ticks e below h =
    let all : All (AtLeast O.owner_key max_retries) q.rows =
      subst (λ o. All (AtLeast o max_retries) q.rows) (sym ticks.0.0)
        (subst (λ n. All (AtLeast own n) q.rows) (omega (arith, e)) h) in
    subst
      (λ o.
        any (λ (r : PendingMessage). str_eq r.owner_key o) (retry_pending_messages O q).0.rows
        ≡ false)
      ticks.0.0 (tick_last O ticks.0.1 q all)
ticks_drain own k (O ∷ P ∷ os) q ticks e below h =
    ticks_drain own (suc k) (P ∷ os) (retry_pending_messages O q).0 ticks.1 (omega (arith, e))
      (omega (arith, e))
      (subst (λ o. All (AtLeast o (suc k)) (retry_pending_messages O q).0.rows) ticks.0.0
        (tick-AtLeast O ticks.0.1 k q (subst (λ o. All (AtLeast o k) q.rows) (sym ticks.0.0) h)))

counts_start : (own : String) (rows : List PendingMessage) → All (AtLeast own 0) rows
counts_start own [] = tt
counts_start own (r ∷ rows) = ((λ o. omega arith), counts_start own rows)

-- After 21 ticks of the sync loop the queue holds no message of its owner, whatever the routes, the
-- node and the peers answered. The database
-- has no fault in these ticks, the owner is the same, and nothing is queued meanwhile.
pub queue_drains :
    (own : String) (os : List Outside) (q : Queue)
    → All (IsTick own) os
    → length os ≡ 21
    → any (λ (r : PendingMessage). str_eq r.owner_key own) (run_ticks os q).rows ≡ false
queue_drains own os q ticks e =
    ticks_drain own 0 os q ticks (omega (arith, e)) (omega arith) (counts_start own q.rows)
