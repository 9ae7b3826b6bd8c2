-- ===== src/Lib.antt =====
-- A model of etunl, a tunnel that publishes services of machines behind a NAT, and the theorems that
-- make it correct.
--
-- The program. A client (internal/client) reads a list of routes (internal/config) and opens one
-- WebSocket to the server (internal/server). Over it both sides speak frames (internal/tunnel): the
-- server opens a stream for each public request or TCP connection of a route, and the client connects
-- the stream with the local target. The client sends its routes in a RouteSync frame; the server keeps
-- them in a table of machines, allots a port to each TCP route, guards HTTP routes with the auth block
-- of the route, and counts the traffic.
--
-- The files. Each component has a file with its definitions, named after the source's functions in
-- snake_case, and child modules with its proofs and with runs at concrete inputs (Tests).
--   Base           byte strings, maps, lists, results, decimal numbers: what the program uses of Go's
--                  language and of its packages strings and strconv
--   Tunnel/Frame   internal/tunnel/frame.go: EncodeFrame is `encode_frame`, DecodeFrame `decode_frame`
--   Tunnel/Mux     internal/tunnel/stream.go: Mux.OpenStream, HandleFrame, SendData, CloseStream,
--                  CloseAll. A Stream is shared by pointer, so a Mux holds a heap of streams, and its
--                  map holds positions in the heap; `sent` is what went to the connection, and
--                  `link_up` tells whether sending succeeds. A handler that waits for room in a
--                  channel is the result `blocked`.
--   Tunnel/Conn    internal/tunnel/conn.go: the read loop over the messages that arrive, the pings, and
--                  Conn.Close; `messages` is what sendFrame makes of frames, Tunnel/Conn/Arriving what
--                  the other end makes of them, and Tunnel/Conn/Serving lets the read loop and the
--                  handlers of the streams, which only take payloads, take turns there;
--                  Tunnel/Conn/Closing has the two steps of the select of Close, which Watcher.Stop
--                  repeats, for several callers at once
--   Tunnel/Pump    the loops that copy between a socket and a stream, which internal/server,
--                  internal/client and internal/connect each have: the two goroutines of a stream
--                  as steps `reads`, `picks` and `others`, in any interleaving
--   Tunnel/Auth    internal/tunnel/auth.go: RouteAuth.Check, Scheme, HasSession, LookupUser
--   Config/Auth, Config/Routes, Config/Server
--                  internal/config/config.go: the checks of an auth block, the editing of the routes,
--                  the loading of the two files and the range of TCP ports
--   Config/Slices  internal/config/config.go: AddRoute and RemoveRoute on the Go slice of the routes,
--                  whose array other slices and pointers share; `append_slice` is Go's `append`
--   Config/Files   internal/config/config.go: what a save makes of the file, and loading from its bytes
--   Client/Wire    internal/client/client.go: configToRouteInfo, authToWire and backoff
--   Client/Agent   internal/client/client.go and internal/config/watcher.go: connect, connectLoop,
--                  onConfigChange and the loop of the watcher with its reload
--   Client/Streams internal/client/router.go and handleStream: the client's end of a stream
--   Client/Dashboard, Client/LocalProxy
--                  internal/client/dashboard.go and internal/client/local_proxy.go
--   Client/Sharing internal/client: the array that the dashboard edits and the local proxy looks at
--   Server/Routes  internal/server/server.go: the table of machines in handleTunnel, and findRoute
--   Server/Ports   internal/server/server.go: allocatePort
--   Server/Listeners   internal/server/tcp_proxy.go: syncTCPListeners
--   Server/Samples, Server/Metrics   internal/server/metrics.go: the ring of buckets, and the counters
--   Server/Metrics/Latency   internal/server/metrics.go: recordLatency at its atomic steps, by several
--                  goroutines
--   Server/Metrics/Snapshot  internal/server/metrics.go: Snapshot, behind any calls of the other methods
--   Server/Accepting   the accept loops of internal/server/tcp_proxy.go, internal/client/local_proxy.go
--                  and internal/connect/connect.go
--   Server/Session, Server/Login     internal/server/session_auth.go: the signed cookie and the
--                  redirect target, and the login form with the check of the session; the page of
--                  the form is in Server/LoginPage
--   Server/Http    requests and answers as net/http gives and takes them
--   Server/Proxy   internal/server/http_proxy.go: the guards of handleHTTPProxy, up to the stream
--   Server/Relay   internal/server/http_proxy.go and tcp_proxy.go: a request, a WebSocket and a TCP
--                  connection on their streams, with the counters; its module Arriving and that of
--                  Client/Streams put the two ends of the tunnel together
--   Server/Admin   internal/server/admin.go: the API of the admin panel
--   Server/Endpoint    internal/server/server.go: ServeHTTP, handleHealth and handleTunnel before its
--                  read loop
--   Cli            cmd/etunl/main.go: init, add, remove, list, the options of connect, and what server and
--                  client start
--   Connect        internal/connect/connect.go: one connection of etunl connect
--
-- How Go's values are modelled. Strings and byte slices are lists of numbers; `int` is a ℤ or, where
-- it cannot be negative, a ℕ; unsigned integers of w bits carry their `% 2 ^ w`. A Go map is an
-- association list, and the order of its entries is the order of iteration, so a theorem over every
-- list holds under every order. Operations under a mutex are single steps; the theorems on reachable
-- states go over all sequences of them. A Boolean argument stands for a choice of `select`.
--
-- Fuel. The loop over the frames of a message takes the length of the message as fuel, as each frame
-- takes at least nine bytes; a theorem below says that it never runs out. format_int takes nineteen
-- digits, enough below 2^63. The other loops recurse on their lists or counters.
--
-- Goroutines. The handlers of a stream copy both ways at once, in two goroutines. A run of the model
-- is a list of steps in any order: one round of the first goroutine, one round of the second, or a
-- change that the read loop or another goroutine makes to the multiplexer. The steps of a handler are
-- in two lists, those up to its return, where it closes the stream, and those that a goroutine it left
-- running still does behind it. A round is one step: a payload that arrives between a read and the
-- SendData behind it is a step before the round or after it.
--
-- Parameters. Code that is not in this repository is an argument: encoding/json in Tunnel/Mux and in
-- the handlers, HMAC and base64 in Server/Session, `net.Listen` in Server/Listeners, the dials, the
-- reads and writes of sockets and the picks of `select`, the parsing and writing of HTTP messages, the
-- events of fsnotify, the reading and writing of files and the random numbers. net/http is read
-- through the fields of a request. A write of a file may fail on the way: its first bytes are then there.
--
-- Not modelled: the WebSocket library, the HTML pages of the panel and the dashboard, what the reverse
-- proxy of net/http does for the local proxy, the parsing of the command line, the times in the answers
-- of the admin API, and directories and permissions of files. Client/Dashboard and Client/Agent give the
-- dashboard and the local proxy routes of their own, as they have them behind each load of the file;
-- what the shared array makes of an edit until then is in Client/Sharing.
pub mod Base
pub mod Tunnel
pub mod Config
pub mod Client
pub mod Server
pub mod Cli
pub mod Connect
