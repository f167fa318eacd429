-- ===== src/Desktop/Pending/Tests.antt =====
-- Examples: a message to a peer without a route.
use rekindle.Base.{
  ℕ, zero, suc, str_eq, true, false, List, [], ◌∷◌, none, some, any, map, All, ◌≡◌, refl, inl,
  arith,
}
use rekindle.Base.Results.{failed, done}
use rekindle.Desktop.Pending.{
  PendingMessage, Queue, Outside, queue_pending_message, run_statement, run_ticks,
  retry_pending_messages, retry_each, retry_single_pending, retry_pending_dm, known_route,
  try_mailbox_route_fallback, is_own,
}
use rekindle.Desktop.Pending.Kept.{Refuses, untried, undelivered_kept}
use rekindle.Desktop.Pending.Drains.{IsTick, Works, queue_drains}
use rekindle.Desktop.Pending.Detached.{detached_loses}

abbrev away : Outside
away = record {
  owner_key = "me";
  query_fault = none;
  fault = λ st. none;
  envelope = λ body.
      done (record { sender_key = []; timestamp = 1; nonce = []; payload = []; signature = [] });
  channel_message = λ body. failed "no";
  to_json = λ m. failed "no";
  has_node = true;
  has_manager = true;
  get_cached_route = λ calls peer. some (1 ∷ []);
  get_or_import_route = λ calls blob. failed "gone";
  mailbox_dht_key = λ peer. none;
  read_peer_mailbox_route = λ calls key. done none;
  sends = λ calls route_id envelope. done tt;
  server_route_blob = λ calls cid. none;
  is_attached = true;
  has_identity_secret = true;
  request_json = λ m. done [];
  import_remote_private_route = λ blob. failed "gone";
  answers = λ calls route_id m. failed "timeout";
  response_of = λ bytes. none;
}

abbrev empty : Queue
empty = record { rows = []; next_id = 1; calls = [] }

abbrev ticks : ℕ → List Outside
ticks zero = []
ticks (suc n) = away ∷ ticks n

abbrev queued : Queue
queued = record empty {
  rows =
      record {
        id = 1;
        owner_key = "me";
        recipient_key = "eve";
        body = "hi";
        created_at = 5;
        retry_count = 0;
      }
      ∷ [];
  next_id = 2;
}

queue_one : queue_pending_message away "eve" "hi" 5 empty ≡ (queued, done tt)
unfolding queue_pending_message run_statement
queue_one = refl

-- It is kept through 20 tries.
after_twenty :
    map (λ (r : PendingMessage). r.retry_count) (run_ticks (ticks 20) queued).rows ≡ 20 ∷ []
unfolding run_ticks retry_pending_messages retry_each retry_single_pending retry_pending_dm
    known_route try_mailbox_route_fallback run_statement
after_twenty = refl

ticks-IsTick : (n : ℕ) → All (IsTick "me") (ticks n)
ticks-IsTick zero = tt
ticks-IsTick (suc n) = ((refl, record { query = refl; statement = λ st. refl }), ticks-IsTick n)

queue_drains_example :
    any (λ (r : PendingMessage). str_eq r.owner_key "me") (run_ticks (ticks 21) queued).rows ≡ false
queue_drains_example = queue_drains "me" (ticks 21) queued (ticks-IsTick 21) refl

abbrev refusing : Outside
refusing = record away {
  get_or_import_route = λ calls blob. done 3;
  sends = λ calls route_id envelope. failed "timeout";
}

refusing-Refuses : Refuses refusing
refusing-Refuses = record {
  peers = λ calls route_id envelope. ("timeout", refl);
  attached = refl;
  secret = refl;
  servers = λ calls route_id m. inl ("timeout", refl);
}

undelivered_kept_example :
    map untried (retry_pending_messages refusing queued).0.rows ≡ map untried queued.rows
undelivered_kept_example =
    undelivered_kept refusing queued refusing-Refuses ((omega arith, inl (_, refl)), tt)

-- A message to a channel, and a node that is not attached.
abbrev offline : Outside
offline = record away {
  envelope = λ body. failed "no";
  channel_message = λ body. done (record {
    community_id = "c1";
    channel_id = "ch1";
    ciphertext = [];
    mek_generation = 1;
    timestamp = 5;
  });
  server_route_blob = λ calls cid. some (4 ∷ []);
  is_attached = false;
}

offline-Works : Works offline
offline-Works = record { query = refl; statement = λ st. refl }

detached_loses_example :
    (any (is_own offline) (retry_pending_messages offline queued).0.rows ≡ false)
    × ((retry_pending_messages offline queued).0.calls ≡ [])
detached_loses_example =
    detached_loses offline queued offline-Works refl
      ((omega arith, ("no", refl), (_, refl, (_, refl))), tt)
