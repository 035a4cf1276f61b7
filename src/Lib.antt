-- ===== src/Lib.antt =====
-- ClientHub: a hub with a shared secret, to which clients connect. A client exposes local services and
-- forwards local ports; the hub opens tunnels between clients and relays their bytes. An administrator
-- lists and changes the rules that the hub stores for the clients.
--
-- Parts and files. The names of functions are those of the source, in lower case with underscores.
-- - Proto/Message.antt: pkg/proto/message.go, the header and its encoding. ReadMessage takes the bytes of
--   a stream and gives back the rest; ReadMessageFromBytes takes the bytes of one message. Name is
--   MsgType.String.
-- - Proto/Payload.antt: the payload structs of pkg/proto/message.go. encoding/json is a Codec at each type.
-- - Crypto.antt: pkg/crypto/chacha20.go. The primitives are the record Primitives; what their documentation
--   promises is IsCorrect.
-- - Tunnel.antt: pkg/tunnel/tunnel.go, the encrypted frames of a connection. Tunnel/Stream.antt is the
--   loop that reads one frame after another and hands each message to a function.
-- - Registry.antt: pkg/server/registry.go, the connected clients and the live tunnels. Each method runs
--   under the lock and is one step. Registry/Invariant.antt runs sequences of calls.
-- - Relay.antt: pkg/server/relay.go, from one end of a tunnel to the other.
-- - Store.antt: pkg/server/store.go, the stored rules and their file. What the file system does is an
--   argument of each method.
-- - Server.antt and its children: pkg/server/server.go. State has the struct and New the constructor;
--   Session the connection of a client, from its first message to its end; OpenTunnel, Pending and Push
--   what a client's messages and the server's requests do; Datagram the UDP packets; Admin the
--   administrator's commands. Steps has the critical sections of these handlers as one relation on the
--   state; Session/Loop and Admin/Loop have handleClient and handleAdmin as a whole,
--   on the bytes of a connection.
-- - Library.antt: what the program uses of encoding/json and fmt, as one record of parameters.
-- - Config.antt: config/config.go, the three configurations.
-- - Client.antt and its children: pkg/client/client.go and pkg/client/proxy.go. State has the struct;
--   Session the authentication and the dispatch of messages; Tunnels, Request, Forwards and Push the
--   handlers; Reconnect what happens between two connections, and Run the loop around them.
-- - Handshake.antt: the authentication at both ends of one connection.
-- - Opening.antt: the opening of a tunnel at the client that asks, the server and the target.
-- - Manager.antt and its children: pkg/manager/manager.go, the administrator's library: Exchange one
--   command and its response, Commands and Listing the commands with what they print.
-- - Administration.antt: a command of that library against the server's handler.
-- - Bridge.antt and its children: pkg/cbridge/bridge.go, the library for desktop applications. Handles are
--   the numbers that stand for objects, Hub a client that is started and stopped, Managers the
--   administrator's functions, Callbacks the C functions. Bridge/CLibrary.antt is cmd/libclienthub/main.go,
--   the functions exported to C.
-- - HubCtl.antt and its children: cmd/manager/main.go, the command line: its defaults, its files and
--   the installation of the services.
-- - Examples.antt: theorems run at concrete inputs.
--
-- Conventions. A byte is a number below 256 and a stream is the list of the bytes that are still to come.
-- A session number, a request number and the counters have 32 bits and wrap. A connection is a number that
-- stands for the socket, its writer and its done channel. A network is a function that says whether a
-- write returns an error, fixed while one message is handled; a handler lists the writes that returned
-- none, in their order. A map of Go is
-- an association list, and a loop over a map goes in the order of the list: a theorem that holds for every
-- list holds for every order. A channel of capacity one is an optional value in a table of channels.
--
-- Concurrency. A critical section is one step, and Server/Steps.antt and Bridge/Hub/Steps.antt have every
-- order of such steps. Where a function waits for another goroutine, what the others do meanwhile is a
-- function on the state, which the theorems quantify over; a function that a method starts as a goroutine
-- is a step of its own. The goroutines of the speed test run by turns, in an order that is an argument
-- (Server/Admin/Probes.antt). A method of the store that changes it also writes the file in its step; since
-- the source writes after it has released the lock, a late write of any contents is a step as well.
--
-- Bounds and fuel. The loops that read a connection run on fuel, one unit for each message. A frame takes
-- at least one byte of the stream, so that fuel greater than the number of bytes is enough. Every other
-- loop is a recursion on a list or on a number. Nil pointers that the source follows are modelled by a
-- result that panics.
--
-- Not modelled: sockets, listeners and the accept loops (Run, serveTCP, serveUDP and serveAdmin in
-- pkg/server/server.go), the ticker of the heartbeat, timers and logging; the flags, the templates of
-- the services, systemctl and launchctl in cmd/manager; cmd/server and cmd/client, which parse flags and
-- start the process; the memory of C strings in cmd/libclienthub.
mod Prelude
pub mod Proto
pub mod Crypto
pub mod Tunnel
pub mod Registry
pub mod Relay
pub mod Store
pub mod Library
pub mod Server
pub mod Config
pub mod Client
pub mod Handshake
pub mod Opening
pub mod Administration
pub mod Bridge
pub mod HubCtl
pub mod Examples
pub mod Manager
