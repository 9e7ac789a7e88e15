-- ===== src/Lib.antt =====
-- zca-desktop is a client for several Zalo accounts at once, with an optional cloud server. This
-- library models the parts of its Rust code that keep state and decide: the desktop's live
-- sessions, its local store of accounts and messages, the window that a login comes back through
-- and the redaction of its logs; the commands by which it uses the server; and the server's
-- logins, its tables, its files and its hosted sessions.
--
-- The desktop (apps/desktop/src-tauri/src/):
-- - Types: the `types` layer (types/*.rs), the data that the layers exchange.
-- - Session: `session/mod.rs`. Session.Throttle has `SendThrottle` and its `reserve` and
--   `forget`; Session.Manager has `SessionManager` with `insert`, `remove`, `get` and the sends.
--   A send looks its session up, reserves a slot of the throttle, waits, and calls the Zalo
--   layer, which is an argument. A listener is a number, and every `stop` is recorded.
-- - Store: `store/db.rs`. Each table is a list of rows with its primary key; an SQL statement is
--   the operation of Common.Table that it names (insert or ignore, upsert, update, delete,
--   select with an order and a limit). Store.Messages saves texts and stickers, Store.Accounts
--   saves and loads logins, Store.Edits marks, recalls and fills in, Store.Loading and
--   Store.RecentStickers read. Store.Crypto is `store/crypto.rs`, with the keychain's entry
--   threaded through. Store.Persist is `persist_incoming` of `command/mod.rs`, by which an event
--   of a listener reaches the store.
-- - Store.Saving, Dedup, Recall, Identities, Unread, Incoming, History and Restore hold the
--   proofs on the store.
-- - Startup: `login_and_listen` and `restore_sessions` of `command/mod.rs`, where the Zalo layer
--   (an argument), the session manager and the store meet.
-- - Redact: `config/redact.rs`, over JSON documents as a tree; the parser and the printer of
--   JSON are arguments. Redact.Hiding and Redact.Pairs hold the proofs.
-- - Cloud: the client of the server (crates/zca-cloud-client/src/lib.rs) and `command/cloud.rs`.
--   Cloud itself is requests and what is made of responses; Cloud.Tokens the device token
--   between the webview and the keychain; Cloud.Commands the request of each command;
--   Cloud.Frames the frames of server-sent events; Cloud.Realtime a connection, as what it emits
--   to the webview. Cloud.Frames.Chunks and Cloud.Tokens.Stashed hold the proofs.
-- - Callback: `command/magic_link_callback.rs`, from a request's text to the status of the
--   response, the origin that may read it and the event that reaches the app. Callback.Origins
--   holds the proofs.
--
-- The server (apps/server/src/):
-- - Server: the tables (migrations/, `db.rs`), whose rows are in Server.Rows, and the crates
--   that the server calls, as one record of functions.
-- - Server.Handler: a request's handler as a function from the tables to a result and the tables
--   after it. What was written before a failure stays. A handler runs without another in
--   between, where nothing else is said.
-- - Server.Text is `auth.rs`, Server.Keys is `crypto.rs`, Server.Links and Server.Devices are
--   the operations of `db.rs` on their tables with `request_magic_link` and `revoke_device` of
--   `routes.rs` (a request for a link is two steps, its count and its insertion, between which
--   Server.Links.RateLimit lets other requests run), and Server.Login is `verify_magic_link` and
--   `register_device` of `routes.rs`.
-- - Server.Oauth: the states, identities and codes of `db.rs`, with `oauth_callback` and
--   `verify_oauth_desktop_code` of `routes.rs`. The provider is a segment of the path, which
--   must name one of two. What the provider answers is an input.
-- - Server.Accounts, Server.Conversations and Server.Files: the statements of `db.rs` on Zalo
--   accounts, conversations with their messages, and files. Deleting an account takes along what
--   the migrations' ON DELETE clauses say. Server.Files.Blobs is the files of `routes.rs`, with
--   the object store as a map; that the body of an object arrives is an input. Server.Isolation
--   runs histories of these statements for several users.
-- - Server.Hosted: `sessions.rs`. The manager and its throttle; Server.Hosted.Qr, a QR login,
--   where the task of the phone's events and the task of the login write the same flow;
--   Server.Hosted.Linking, which stores the account of a login; Server.Hosted.Restoring, which
--   brings the active accounts back after a restart; and Server.Hosted.Addresses, the guard of
--   the addresses that a media URL may reach, where the parser of an address and the resolver
--   are arguments. What the Zalo library answers is an input.
-- - Server.Realtime: what `sessions.rs` does with an account's events. Server.Realtime.Mirror
--   copies a message's media to the object store, Server.Realtime.Persisting stores messages and
--   reactions, with what `list_messages` of `routes.rs` opens of a row, and
--   Server.Realtime.Handling handles an event and broadcasts it; the stream of a device reads
--   the broadcasts from a channel of 512, which, as tokio documents it, drops its oldest event
--   when it is full, and then shows that it lagged. Server.Realtime.Mirror.Bounds,
--   Mirror.Copied, Persisting.Message and Handling.Streaming hold the proofs. Of `zalo_host.rs`,
--   Server.Realtime.Events makes these events of Zalo's, and Server.Realtime.Uploads waits for
--   the URL of an upload, in at most 150 rounds as the code does; what other tasks do to the
--   URLs meanwhile is a function.
--
-- Common holds what all share: tests, equality as an interface, signed integers over the native
-- numbers, results, maps, texts as lists of characters, and tables with their laws.
--
-- Bounds. Timestamps, ids and counters are unbounded numbers; instants and durations of the
-- throttles are numbers of one unit. The loop of `drain_sse_events` has fuel, the length of the
-- buffer, which is enough since each round takes two characters at least; every other function
-- is structural in its data.
--
-- Not modelled. The SQL engines, which run one statement at a time and do not fail but for a key
-- that is taken or a reference to an account or a conversation that is missing; the ciphers,
-- hashes, key derivation, JSON codec and keychain, which are arguments with their round trips as
-- named hypotheses; the network, the mailer (its answer is an input), the object store, the
-- configuration, the views, the HTTP clients and the web that media is fetched from; and the
-- parts that the components have not reached: the desktop's own commands but for
-- `persist_incoming`, `login_and_listen`, `restore_sessions`, the callback and those of the
-- server; its Zalo layer; the server's calls of Zalo's API and the cookies of a QR login; the
-- start of an OAuth login at a provider; the routes of sends, QR logins and lists; the keychain
-- crate and the mobile shell.
mod Common
pub mod Types
pub mod Session
pub mod Store
pub mod Server
pub mod Startup
pub mod Redact
pub mod Callback
pub mod Cloud
