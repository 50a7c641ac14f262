-- ===== src/Lib.antt =====
-- pong_pp: the server, that is its event loop, the WebSocket connections and the signaling that pairs
-- players up, and the game that runs in both browsers.
--
-- The server (src/server) accepts TCP connections, upgrades each to a WebSocket, cuts what comes in
-- into frames, and hands every text or binary message to the `Player` of the connection, which
-- opens, joins and leaves rooms and relays messages to the other player of its room. The two games
-- (src/client) send each other their state and their paddle; the web page carries these messages.
-- Bytes are numbers, byte strings are lists of them; a word of w bits keeps its wrap-around as `% 2
-- ^ w`.
--
-- Base64: src/server/util/base64.cpp. `Base64.Decode` is a decoder written from RFC 4648.
-- Sha1: src/server/util/sha1.cpp, with `process_block` in `Sha1.Block`. `Sha1.Rfc` is the padding of
--   RFC 3174, and `Sha1.Rfc.Block` its words, rounds and sums, both by arithmetic. The number of
--   bytes is the fuel of the loop over the whole blocks, each of which takes 64.
-- Ws.Frame: src/server/ws/frame.cpp, `ParseFrame` as `parse_frame` and `EncodeFrame` as
--   `encode_frame`, on the buffer and the frame that the caller passes. `Ws.Frame.Client` is the other
--   end of the connection, written from RFC 6455.
-- Ws.Handshake: src/server/ws/handshake.cpp, `FindHeader` as `find_header` and `ProcessHandshake` as
--   `process_handshake`; `Ws.Handshake.Request` says what a request is and what a lookup in it finds,
--   and `Ws.Handshake.Replies` what the two responses are.
--   The length of the buffer is the fuel of the loop over its lines.
-- Ws.Connection: src/server/ws/connection.cpp. `read` is `Read` with what the socket returned as its
--   argument; the socket's output and the message handler are the functions of a `Peer` on a world.
--   The loop of `HandleFrames` has one round for each byte of the buffer and one more; a frame takes
--   six bytes or more. `Ws.Connection.Write` is the loop of `Write`, on the list of what the calls of
--   write(2) return.
-- Signaling: src/server/signaling, one record `Server` for the objects that `Rooms`, `Hub` and the
--   players share. Rooms lie in a heap, players are named by numbers, a weak pointer is the name of a
--   player that may be gone; a player lives as long as the hub holds it. `Signaling.State` has the
--   record, `Signaling.Rooms` the operations of rooms.cpp, hub.cpp and the parts of player.cpp that
--   they call, `Signaling.Player` the handlers of the messages and `Cleanup`, `Signaling.Text` the
--   parsing. `Signaling.Tidy` says when table, rooms and players agree, and `Signaling.Tidy.Reach` has
--   the steps of the server: a player connects, sends a message, or its connection ends. The order of
--   the table of rooms stands for the order in which the unordered containers are walked.
--   `Signaling.Lobby` forgets the objects: who is connected, and the code of the room that each player
--   is in; `Signaling.Lobby.Refines` compares its steps with the server's, and
--   `Signaling.Lobby.Open` the codes that are sent out as open with who is alone in a room.
--   `Signaling.Housed` says what holds of the rooms without any condition on the clients, and
--   `Signaling.Listing` has a reader of the ROOMS line after web/src/signaling.ts. std::from_chars and
--   std::to_string are modelled as documented.
-- Reactor: src/server/reactor.cpp. The handlers are values, and what they do is a function on a state
--   that holds the table of handlers, the interface `Loop`, since a handler may add and remove others.
--   What the calls of poll(2) return is a list, so that `run` ends where it returns or waits.
-- Server: src/server/main.cpp, the interface of the reactor filled with the two handlers that `main`
--   registers, and `~Connection`. A `World` has the table, the hub, the connections and the open
--   descriptors; a descriptor may be given away again, so players are named by a count. What accept(2)
--   and read(2) return is a parameter `Os`; that accept gives a descriptor that is not open is its law.
--   `Server.Main` is `main` as a whole, with `make_listener`.
-- Client: src/client/main.cpp, the static variables as the record `Game` and each function as a function
--   on it. `Client.Field` has the constants, `Client.Ball` and `Client.Paddle` the rules, `Client.Peer`
--   the messages, `Client.Screen` the drawing, `Client.Tick` a frame, and `Client.Fair` what the browser
--   calls, one after the other. The `float`s are a parameter with the comparison and the arithmetic as
--   operations (`Client.Float`); the laws of some theorems are those of the small whole numbers, which
--   are exact, and of the sign. `Client.FixedPoint` has tenths of a pixel in their place and obeys
--   these laws. The loop of the dashes has 23 rounds, of which it needs 22 and one that ends it.
-- Client.Wire: the numbers and the messages that the two games exchange: `int_to_str`, `parse_int`,
--   `skip_sep`, and what `send_state`, `send_paddle` and `on_peer_message` do with them. An `int` that
--   overflows while it is read is undefined in the source, and no result in the model; so is a write
--   behind the end of the buffer for the scores. The model does not bound the counters of serves and
--   points; `Client.Duel.Sound` says how far they go in a match.
-- Client.Duel: both games of a match and the data channel between them: web/src/rtc.ts opens it ordered
--   and reliable, so it is two queues of messages; web/src/loader.ts draws the frames, hands a message
--   over through `msg_buf` (`write_msg`) and gives the keys. A run is a list of moves in any order: a
--   frame of either game, a page that learns that the channel is open, an arrival. A page that leaves
--   the match ends the run. `Client.Range` bounds the numbers of a game, and `Client.Duel.Serves` the
--   counters of the serves; the former asks more of the `float`s, how far the operations can go
--   (`HasBounds`), and `Client.FixedPoint.Bounds` shows that this can be met.
-- Common: lists, Boolean tests, bit operations, searches in byte strings and decimal numbers.
--
-- Not modelled: in the server as a whole, a write that fails (`Ws.Connection.Write` has it by itself)
-- and the bound of 4096 bytes on what one read returns; setvbuf, signal and setsockopt in the server's
-- main program, diagnostic output, the address of the game's message buffer (get_msg_buf), and what
-- else the TypeScript of the web page (web) does: the DOM, the negotiation of the data channel, the
-- loading of the WebAssembly module.
pub mod Common
pub mod Base64
pub mod Sha1
pub mod Ws
pub mod Signaling
pub mod Client
pub mod Reactor
pub mod Server
