-- ===== src/Lib.antt =====
-- Rekindle is a peer-to-peer chat program on Veilid. This library models its community server (the
-- daemon that hosts communities), the permission system that server and client share, the arrays
-- and logs that are kept in DHT records, the sessions in which peers encrypt messages, the jitter buffer
-- of the voice calls, and the queue of messages that the desktop application has not delivered yet.
--
-- How the parts interact: a request comes by a private route, in a signed envelope, or over a local
-- socket. dispatch_request finds the community it is for and calls one handler. The handler takes
-- the community from the state, checks membership, permission and rank, changes the state in memory,
-- executes statements on SQLite, publishes values to the DHT and sends broadcasts to members.
--
-- Files and code:
--   Permissions          crates/rekindle-protocol/src/dht/community.rs, module permissions:
--                        calculate_permissions in its steps, has_permission; Flags has the masks,
--                        Spec the same calculation for one bit without masks.
--   Server/State         crates/rekindle-server/src/server_state.rs, and the key of
--                        crates/rekindle-crypto/src/group/media_key.rs.
--   Server/Protocol      the community messages of crates/rekindle-protocol/src/messaging/envelope.rs.
--   Server/Store         the SQL statements of the handlers as data, and the database as an interface;
--                        Laws has what is relied on of SQLite, Memory a database that satisfies it.
--   Server/Core          the daemon's state, what it finds outside (clock, random bytes), its effects,
--                        and the Check monad for guards that refuse with a reply.
--   Server/Guards        check_permission, check_hierarchy, verify_membership, resolve_community_id.
--   Server/Effects       broadcast_to_members and its users in rpc.rs; the publish functions of
--                        crates/rekindle-server/src/community_host.rs.
--   Server/Keys, Join, Departure, Messages, Channels, Roles, Timeouts
--                        the handlers of crates/rekindle-server/src/rpc.rs, function by function with
--                        their names; rotate_mek of mek.rs is in Keys.
--   Server/Dispatch      dispatch_request; `handle` is its match on the request.
--   Server/Hosting       create_default_roles of community_host.rs.
--   Server/Loading       the load functions of community_host.rs; load_latest_mek and
--                        create_initial_mek of mek.rs.
--   Server/Hosted        host_community with its steps, setup_dht_and_route, unhost_community.
--   Server/Routes        the refresh of records and routes: rewrite_all_communities,
--                        keepalive_refresh_route, handle_server_route_change; Live has the routes
--                        that are left after routes died.
--   Server/Ipc           the requests of crates/rekindle-server/src/ipc.rs.
--   Server/Entry         process_request, handle_community_request, handle_community_rpc_direct.
--   Server/Authority     the changes that members may make, without the handlers, and the proof that
--                        the handlers make no others.
--   Server/Invariant     what holds of every hosted community.
--   Server/Security      consequences: outsiders, removal and keys, bans, role editing, messages,
--                        timeouts.
--   Voice/Jitter         crates/rekindle-voice/src/jitter.rs, with the map of packets as an ascending
--                        list, and VoicePacket of transport.rs; the clock is an argument.
--   Messaging/Envelope   crates/rekindle-protocol/src/messaging/receiver.rs and sender.rs: building,
--                        verifying and taking in signed envelopes.
--   Dht/Network          Veilid's RoutingContext as an interface, with the laws relied on; Memory is a
--                        network that satisfies them, Rules how properties of actions are proved.
--   Dht/ShortArray       crates/rekindle-protocol/src/dht/short_array.rs; Contents and Heads say when a
--                        record holds a list of elements, Refine and Clear what the methods do to it.
--   Dht/Log              crates/rekindle-protocol/src/dht/log.rs: a log of which the entries stand in short
--                        arrays, Tail the reading of its last entries. Chain has the arrays of a log,
--                        Contents when a log holds a list of entries, Refine and Read its methods, Whole
--                        a log that is written and read, Lost a write of the spine that fails.
--   Signal/Stores        crates/rekindle-crypto/src/signal/memory_stores.rs.
--   Signal/Ratchet       RatchetState of session.rs beside it, and its bytes.
--   Signal/Session       the session manager of session.rs: Agreement has the handshake, Channel the
--                        messages.
--   Desktop/Pending      the queue of undelivered messages: retry_pending_messages and what it calls of
--                        src-tauri/src/services/sync_service.rs, with the functions that queue and
--                        delete of message_service.rs and commands/community.rs. State has its
--                        table, Sending send_encrypted_to_server of commands/community.rs; Due and
--                        Drains follow it through the ticks of the sync loop, Kept and Detached
--                        through one tick.
--   Desktop/Keys         the key of crates/rekindle-crypto/src/group/media_key.rs in use, and the cache of
--                        keys of src-tauri/src/services/veilid_service.rs with the broadcasts of a
--                        message and of a new key; Reading joins it to the server.
--   Bits, Base           numbers as bit masks; lists, maps, text, signed integers.
--
-- How the model corresponds to the code: a handler is a function from the server to the server and the
-- reply. A map of communities is an association list; HashMap's order of values is the list's. Veilid
-- publishes and sends are appended to the list `sent` in the order of the code; whether they arrive is
-- not modelled. A failing statement leaves the database as it was; where the code only logs the error,
-- so does the model. Locks are not modelled: requests are handled one after another, although the code
-- releases its lock between the checks and the change in some handlers. The methods of an array and of a
-- session manager are actions: functions from a state to a state and a result, of which the first error
-- is the outcome (Base/Actions); the random secrets of a handshake are arguments.
--
-- Bounds: u64 and u32 sums wrap as in a release build (the key generation, the end of a timeout, the
-- next role id, the next packet, the count of a log); conversions to i64 saturate as in the code. There
-- is no fuel but in the printing of decimal numbers (20 digits, enough for 64 bits).
--
-- Not modelled: main.rs of the daemon and the timers, waits and retries of its loops (what Veilid answers
-- in the end is a parameter: Setup of Server/Hosted, Veilid of Server/Routes); voice capture, sending and
-- mixing; the desktop application but for its message queue and its
-- media keys; game detection; the test server.
-- Cryptography, JSON, Cap'n Proto, Veilid and SQLite are libraries: parameters, with the laws relied on
-- stated as records (Store/Laws, Dht/Network, IsSound of Messaging/Envelope and of Signal).
pub mod Base
pub mod Bits
pub mod Permissions
pub mod Server
pub mod Voice
pub mod Messaging
pub mod Desktop
pub mod Dht
pub mod Signal
