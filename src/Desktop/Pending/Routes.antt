-- ===== src/Desktop/Pending/Routes.antt =====
-- Finding a route, and sending, changes no row of the queue.
use rekindle.Base.{ℕ, List, String, Option, none, some, ◌≡◌, refl, arith}
use rekindle.Desktop.Pending.{
  PendingChannelMessage, Queue, Outside, known_route, try_mailbox_route_fallback, or_mailbox,
  send_encrypted_to_server,
}

module _ (O : Outside) where
  pub known_route-rows :
      (recipient : String) (q : Queue) → (known_route O recipient q).0.rows ≡ q.rows
  unfolding known_route
  known_route-rows recipient q = ground arith

  mailbox-rows :
      (recipient : String) (q : Queue) → (try_mailbox_route_fallback O recipient q).0.rows ≡ q.rows
  unfolding try_mailbox_route_fallback
  mailbox-rows recipient q = ground arith

  pub or_mailbox-rows :
      (recipient : String) (o : Queue × Option ℕ) → (or_mailbox O recipient o).0.rows ≡ o.0.rows
  or_mailbox-rows recipient (q, none) = mailbox-rows recipient q
  or_mailbox-rows recipient (q, some route_id) = refl

  pub send_encrypted_to_server-rows :
      (m : PendingChannelMessage) (blob : List ℕ) (q : Queue)
      → (send_encrypted_to_server O m blob q).0.rows ≡ q.rows
  unfolding send_encrypted_to_server
  send_encrypted_to_server-rows m blob q = ground arith
