-- ===== src/Lib.antt =====
-- A verification library for the Rust crate `tmcp`, an implementation of the Model Context Protocol.
-- Paths are from the repository's root; the code is in crates/tmcp/src.
--
-- The parts and how they interact. A connection reads frames with the codec (codec.rs), hands
-- responses to the request handler (request_handler.rs) and requests to the server, whose tools
-- come from the tool set (toolset.rs). Over HTTP (http/server.rs, http/validation.rs) each session
-- has a connection of its own; what it sends goes to the HTTP request that waits for it or to the
-- standing SSE stream. The bearer middleware (auth/server) stands before these handlers. Requests
-- of a server to its client, custom ones too, go through the client's dispatch (client.rs).
--
-- Base: Boolean tests, lists over the native numbers, text as bytes, decimal numbers, signed
--   integers, results with `?` chains, and maps as association lists. `HashMap` and `DashMap` are
--   such lists, so a theorem for every list covers every iteration order.
-- Errors: error.rs, the error type.
-- Codec: codec.rs. `Codec` is `JsonRpcCodec` with the buffer that `Framed` keeps for it;
--   `decode` and `encode` are the trait methods. The loop of `decode` has one round more than the
--   buffer has bytes, and each round takes a line off. `Lines` has the reference that reads lines,
--   `Draining`, `Chunks` and `Transmission` relate the code to it. `serde_json` is a parameter.
-- Requests: request_handler.rs. `Connection` is the handler with its oneshot channels, its queue
--   of notices and the requests that are alive; each operation is a function on it in `Operations`
--   (`start`, `send`, `poll`, `drop_request`, `handle_response`, `shutdown`, the setters), and
--   `Steps` makes them a step relation, so that every interleaving is covered. Each operation is
--   one step. The clock, the transport's answer to a send and `Instant::checked_add` are
--   parameters.
-- JsonRpc: the messages of schema/jsonrpc.rs, and jsonrpc.rs: requests and notifications as one
--   object for the derived deserializers, error objects (`Errors`), responses, and what the peer
--   decodes from them (`decode_response` of request_handler.rs). A JSON value is a parameter, and
--   so are the derived serializers; an object is its entries.
-- Serving: the connection loop of a server (`ServerHandle::new` of server.rs). `Dispatch` has
--   `dispatch_request` and `handle_request` (connection.rs), `Handshake` the initialize request and
--   the supported versions, `Loop` the state and its events: an arm of the `select!` with the test
--   behind it, or one step of a spawned task (its handler answers, it counts down, it queues its
--   payload) or of a handler (it notifies, or abandons a request of its own). `run` is a list of
--   events, so each interleaving is covered; an event that cannot happen changes nothing. The two
--   bounded queues have the bounds of the source. A panic is `none`, and stops the loop. The
--   in-flight requests with their cancellation tokens are those of context.rs; tokens are numbered.
--   The answers of the handler and of the transport are part of the events.
-- Auth: `Challenges` has the parsing of `WWW-Authenticate` (auth/discovery.rs), `Server` what the
--   server writes there and its middleware (auth/server/mod.rs, auth/server/middleware.rs).
--   `Segments` and `RoundTrip` relate the two. The scan that keeps indices is a recursion that
--   carries the same two flags; header values are ASCII. The token validator, the resolution of
--   URLs and `HeaderValue::from_str` are parameters; a failing `expect` is `none`.
-- Custom: custom.rs, requests of a server with a method of its own, and in `Client` how a client
--   answers a request of its server (`handle_server_request` of client.rs, `handle_request` of
--   connection.rs). What the serializer writes is a parameter; it is counted as the code counts it.
-- Versions: the release dates of schema/jsonrpc.rs, which `Dates` compares with the calendar.
-- Http/Validation: http/validation.rs. Http/Streams: `SessionRoutes` of http/server.rs.
--   Http/Sessions: its sessions; the handlers are in `Posts` and `Streaming`, each up to the point
--   where it waits for a response, with the rest as `finish_initialize` and `finish_post`;
--   `Cleanup` is a tick of the task that expires sessions. Times are in seconds; URL parsing, the
--   body and fresh session ids are parameters.
-- Toolset: toolset.rs. `Names` has paths and tool names, `Registry` the groups, `State` the
--   tools, `Changes` activation and deactivation with their hooks, `Tools` registration and calls,
--   `Listing` the pages, `Overview` the list of groups. Hooks and the notification are parameters
--   that may change the tool set while they run. The walk over the parents has one round more than
--   there are groups, since each round sees a new parent; the collection of descendants goes as
--   deep as the longest name, since names grow from parent to child.
--
-- Not modelled: the client, the server's builder, what a context offers to a handler beyond the
-- cancellation and the metadata of its request, the OAuth flows and JWT keys, the macros (code
-- generation), the transports (pure I/O), and the JSON of the schema types.
pub mod Auth
pub mod Base
pub mod Codec
pub mod Custom
pub mod Errors
pub mod Http
pub mod JsonRpc
pub mod Requests
pub mod Serving
pub mod Toolset
pub mod Versions
