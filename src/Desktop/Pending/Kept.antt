-- ===== src/Desktop/Pending/Kept.antt =====
-- The queue while nothing is delivered.
use rekindle.Base.{
  ℕ, ◌<◌, String, true, false, List, [], ◌∷◌, map, retain, Option, none, some, All, ◌≡◌, ◌⊎◌, refl,
  ap, ◌∙◌, arith, leb, Bool-cases, Option-cases, inl, inr,
}
use mathlib.Core.Path.{subst}
use rekindle.Base.Results.{Result, failed, done}
use rekindle.Base.Actions.{after}
use rekindle.Messaging.Envelope.{MessageEnvelope}
use rekindle.Server.Protocol.{error}
use rekindle.Desktop.Pending.{
  PendingMessage, PendingChannelMessage, Queue, Call, increment_retry, Outside, retried,
  max_retries, run_statement, increment_retry_count, settled, send_by, retry_pending_dm,
  check_server_response, server_route, answered, send_on, send_request, send_encrypted_to_server,
  retry_channel, retry_other, retry_body, retry_single_pending, retry_each, retry_rows, is_own,
  retry_pending_messages, or_mailbox, known_route,
}
use rekindle.Desktop.Pending.Routes.{
  or_mailbox-rows, known_route-rows, send_encrypted_to_server-rows,
}

-- A message without its number of tries.
abbrev pub untried : PendingMessage → PendingMessage
untried m = record m { retry_count = 0 }

untried-retried :
    (id : ℕ) (rows : List PendingMessage) → map untried (map (retried id) rows) ≡ map untried rows
untried-retried id [] = refl
untried-retried id (r ∷ rows) = ap (λ ms. untried r ∷ ms) (untried-retried id rows)

-- A server that does not answer, or answers with an error.
abbrev pub Unheard : Outside → Result String (List ℕ) → Type 0
Unheard O r =
    ((why : String) × (r ≡ failed why))
    ⊎ ((bytes : List ℕ) × (r ≡ done bytes)
        × ((code : ℕ) × (message : String) × (O.response_of bytes ≡ some (error code message))))

-- The node is attached and somebody is logged in, but no peer and no server takes a message.
pub record Refuses (O : Outside) : Type 0 where
  pub attached : O.is_attached ≡ true
  pub secret : O.has_identity_secret ≡ true
  pub peers :
      (calls : List Call) (route_id : ℕ) (envelope : MessageEnvelope)
      → (why : String) × (O.sends calls route_id envelope ≡ failed why)
  pub servers :
      (calls : List Call) (route_id : ℕ) (m : PendingChannelMessage)
      → Unheard O (O.answers calls route_id m)

-- A message that may be tried again and can be read.
abbrev pub Hopeful : Outside → PendingMessage → Type 0
Hopeful O m =
    (m.retry_count < max_retries)
    × (((e : MessageEnvelope) × (O.envelope m.body ≡ done e))
        ⊎ ((c : PendingChannelMessage) × (O.channel_message m.body ≡ done c)))

module _ (O : Outside) (refuses : Refuses O) (rows : List PendingMessage) where
  abbrev Same : Queue × Result String (Unit {0}) → Type 0
  Same o = map untried o.0.rows ≡ map untried rows

  abbrev SameRows : Queue → Type 0
  SameRows q = map untried q.rows ≡ map untried rows

  increment-Same : (id : ℕ) (q : Queue) → SameRows q → Same (increment_retry_count O id q)
  unfolding run_statement
  increment-Same id q h = elim (Option-cases (O.fault (increment_retry id))) [
    | inl e ↦ rw (e, run_statement) (untried-retried id q.rows ∙ h)
    | inr (why, e) ↦ rw (e, run_statement) h
  ]

  settled-Same :
      (id : ℕ) (r : Result String (Unit {0})) (why : String) (q : Queue)
      → r ≡ failed why
      → SameRows q
      → Same (settled O id r q)
  settled-Same id (done u) why q e h = ground (arith, e)
  settled-Same id (failed w) why q e h = increment-Same id q h

  send_by-Same :
      (id : ℕ) (envelope : MessageEnvelope) (o : Queue × Option ℕ)
      → SameRows o.0
      → Same (send_by O id envelope o)
  send_by-Same id envelope (q, none) h = increment-Same id q h
  send_by-Same id envelope (q, some route_id) h =
      let (why, e) = refuses.peers (q.calls) route_id envelope in
      settled-Same id (O.sends q.calls route_id envelope) why _ e h

  retry_pending_dm-Same :
      (id : ℕ) (recipient : String) (envelope : MessageEnvelope) (q : Queue)
      → SameRows q
      → Same (retry_pending_dm O id recipient envelope q)
  unfolding retry_pending_dm
  retry_pending_dm-Same id recipient envelope q h = elim (Bool-cases O.has_node) [
    | inl e ↦ simp e (
        send_by-Same id envelope (or_mailbox O recipient (known_route O recipient q)) (
          ap (map untried) (
            or_mailbox-rows O recipient (known_route O recipient q)
            ∙ known_route-rows O recipient q)
          ∙ h))
    | inr e ↦ simp e (increment-Same id q h)
  ]

  abbrev Fails : Queue × Result String (Unit {0}) → Type 0
  Fails o = (why : String) × (o.1 ≡ failed why)

  answered-Fails :
      (c : PendingChannelMessage) (blob : List ℕ) (r : Result String (List ℕ)) (q : Queue)
      → Unheard O r
      → Fails (answered O c blob r q)
  unfolding check_server_response
  answered-Fails c blob (failed why) q u = (why, refl)
  answered-Fails c blob (done bytes) q u = elim u [
    | inl (why, e) ↦ ground (arith, e)
    | inr (other, e, (code, message, read)) ↦ (message, ground (arith, e, read))
  ]

  send_on-Fails :
      (c : PendingChannelMessage) (blob : List ℕ) (r : Result String ℕ) (q : Queue)
      → Fails (send_on O c blob r q)
  send_on-Fails c blob (failed why) q = (why, refl)
  send_on-Fails c blob (done route_id) q =
      answered-Fails c blob (O.answers q.calls route_id c) _ (refuses.servers q.calls route_id c)

  send_request-Fails :
      (c : PendingChannelMessage) (blob : List ℕ) (r : Result String (List ℕ)) (q : Queue)
      → Fails (send_request O c blob r q)
  send_request-Fails c blob (failed why) q = (why, refl)
  send_request-Fails c blob (done request) q =
      simp refuses.secret (send_on-Fails c blob (server_route O blob q) q)

  send-Fails :
      (c : PendingChannelMessage) (blob : List ℕ) (q : Queue)
      → Fails (send_encrypted_to_server O c blob q)
  unfolding send_encrypted_to_server
  send-Fails c blob q = simp refuses.attached (send_request-Fails c blob (O.request_json c) q)

  retry_channel-Same :
      (id : ℕ) (c : PendingChannelMessage) (o : Option (List ℕ)) (q : Queue)
      → SameRows q
      → Same (retry_channel O id c o q)
  retry_channel-Same id c none q h = increment-Same id q h
  retry_channel-Same id c (some blob) q h =
      let (why, e) = send-Fails c blob q in
      settled-Same id (send_encrypted_to_server O c blob q).1 why
        (send_encrypted_to_server O c blob q).0 e
        (ap (map untried) (send_encrypted_to_server-rows O c blob q) ∙ h)

  retry_other-Same :
      (id : ℕ) (r : Result String PendingChannelMessage) (c : PendingChannelMessage) (q : Queue)
      → r ≡ done c
      → SameRows q
      → Same (retry_other O id r q)
  retry_other-Same id (failed why) c q e h = ground (arith, e)
  retry_other-Same id (done d) c q e h =
      retry_channel-Same id d (O.server_route_blob q.calls d.community_id) q h

  retry_body-Same :
      (m : PendingMessage) (r : Result String MessageEnvelope) (q : Queue)
      → ((e : MessageEnvelope) × (r ≡ done e))
        ⊎ ((c : PendingChannelMessage) × (O.channel_message m.body ≡ done c))
      → SameRows q
      → Same (retry_body O m r q)
  retry_body-Same m (done e) q reads h = retry_pending_dm-Same m.id m.recipient_key e q h
  retry_body-Same m (failed why) q reads h = elim reads [
    | inl (e, enveloped) ↦ ground (arith, enveloped)
    | inr (c, readable) ↦ retry_other-Same m.id (O.channel_message m.body) c q readable h
  ]

  single-Same :
      (m : PendingMessage) (q : Queue)
      → Hopeful O m
      → SameRows q
      → Same (retry_single_pending O m q)
  unfolding retry_single_pending
  single-Same m q hope h =
      let young : leb max_retries m.retry_count ≡ false = ground (arith, hope.0) in
      rw young (retry_body-Same m (O.envelope m.body) q hope.1 h)

  each-Same :
      (ms : List PendingMessage) (q : Queue)
      → All (Hopeful O) ms
      → SameRows q
      → Same (retry_each O ms q)
  unfolding retry_each
  each-Same [] q hope h = h
  each-Same (m ∷ ms) q hope h =
      after Same (retry_single_pending O m) (λ u. retry_each O ms) q
        (λ q' why e. subst Same e (single-Same m q hope.0 h))
        λ q' u e. each-Same ms q' hope.1 (subst Same e (single-Same m q hope.0 h))

  rows-Same :
      (o : Option String) (q : Queue)
      → All (Hopeful O) (retain (is_own O) q.rows)
      → SameRows q
      → Same (retry_rows O o q)
  rows-Same none q hope h = each-Same (retain (is_own O) q.rows) q hope h
  rows-Same (some why) q hope h = h

-- While the node is attached and somebody is logged in, but no peer and no server takes a message, a tick of the sync loop loses none, whatever the
-- routes and the database's faults: the rows are as before, in their order, but for the numbers of
-- tries. The owner's messages can be read, and each was tried less than 20 times.
pub undelivered_kept :
    (O : Outside) (q : Queue)
    → Refuses O
    → All (Hopeful O) (retain (is_own O) q.rows)
    → map untried (retry_pending_messages O q).0.rows ≡ map untried q.rows
unfolding retry_pending_messages
undelivered_kept O q refuses hope = rows-Same O refuses q.rows O.query_fault q hope refl
