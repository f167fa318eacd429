-- ===== src/Desktop/Pending/Sending.antt =====
-- send_encrypted_to_server of src-tauri/src/commands/community.rs.
use rekindle.Base.{ℕ, if◌then◌else◌, String, List, Option, some}
use rekindle.Base.Results.{Result, failed, done}
use rekindle.Server.Protocol.{CommunityResponse, error}
use rekindle.Desktop.Pending.State.{
  PendingChannelMessage, Queue, Outside, Action, call, send_call, invalidate_route_blob,
  clear_server_route,
}

module _ (O : Outside) where
  unfoldable pub check_server_response : Option CommunityResponse → Result String (Unit {0})
  check_server_response (some (error code message)) = failed message
  check_server_response response = done tt

  abbrev pub server_route : List ℕ → Queue → Result String ℕ
  server_route blob q =
      if O.has_manager
      then O.get_or_import_route q.calls blob
      else O.import_remote_private_route blob

  abbrev pub forget_route : PendingChannelMessage → List ℕ → Queue → Queue
  forget_route m blob q =
      call (clear_server_route m.community_id)
        (if O.has_manager then call (invalidate_route_blob blob) q else q)

  abbrev pub answered : PendingChannelMessage → List ℕ → Result String (List ℕ) → Action (Unit {0})
  answered m blob (done response) q = (q, check_server_response (O.response_of response))
  answered m blob (failed why) q = (forget_route m blob q, failed why)

  abbrev pub send_on : PendingChannelMessage → List ℕ → Result String ℕ → Action (Unit {0})
  send_on m blob (failed why) q = (q, failed why)
  send_on m blob (done route_id) q =
      answered m blob (O.answers q.calls route_id m) (call (send_call route_id m) q)

  abbrev pub send_request :
      PendingChannelMessage → List ℕ → Result String (List ℕ) → Action (Unit {0})
  send_request m blob (failed why) q = (q, failed why)
  send_request m blob (done request) q =
      if O.has_identity_secret then send_on m blob (server_route blob q) q else (q, done tt)

  unfoldable pub send_encrypted_to_server : PendingChannelMessage → List ℕ → Action (Unit {0})
  send_encrypted_to_server m blob q =
      if O.is_attached then send_request m blob (O.request_json m) q else (q, done tt)
