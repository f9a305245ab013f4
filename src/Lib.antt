-- ===== src/Lib.antt =====
-- mpfpv2: a UDP relay for FPV drones. Clients send every packet of their TUN device over all network
-- interfaces to one server, which drops the duplicates and sends the rest to the client that has the
-- packet's destination as its virtual IP.
--
-- The parts and the files that model them:
--
--   protocol/protocol.go   Protocol/Wire (types, encoders, decoders); Header, Heartbeat and Ack hold
--                          what is proved of them. An encoder gives the buffer as it leaves it, and
--                          none where Go panics on an index out of range.
--   protocol/dedup.go      Dedup (Deduplicator, IsDuplicate as check_seq and is_duplicate, Reset);
--                          Dedup/Window is the specification, a window of ages without a bitmap.
--   server/server.go       Server/State (the Server struct and the pool file), Send (sendToClient,
--                          sendHeartbeatAck), Pool (allocateIP), Heartbeat (handleHeartbeat), Data
--                          (handlePacket, handleData, the body of tunReadLoop), Cleanup (cleanup),
--                          Start (New), Run (all of them as steps of one machine),
--                          Registration, Routing, Timeouts and Expiry (what the
--                          handlers do), Overlap (a heartbeat within deleteClient).
--   server/web.go          Server/Web (getClients, getClient, getStats, updateServerConfig),
--                          Server/Cleanup (deleteClient) and Server/Api (getRoutes, getServerConfig
--                          and the handlers of registerRoutes on whole requests).
--   config/config.go       Config (applyDefaults, validate, LoadFile, parseConnString).
--   client/transport.go    Client/Paths (Send, SendAllHeartbeat, UpdateRTT,
--                          CheckAndRecycleStalePaths, recyclePath, removePath, Stop) and
--                          Client/Interfaces (scanInterfaces, isPhysicalInterface, addPath,
--                          detectChanges).
--   client/client.go       Client/Handlers (what is sent, handleHeartbeatAck, handleData),
--                          Client/Sockets (the set-up of Run, with NewMultiPath and Start of
--                          transport.go), Client/Run (New, the turns of the loops, the poll of the
--                          interfaces and the end) and Client/Checksum (recalcIPv4Checksum).
--   client/clientid.go     Client/Identity (loadOrGenerateID).
--   client/transport_linux.go, client/machineid_linux.go, machineid_windows.go and machineid_other.go
--                          Client/Bind (createBoundUDPConn and machineID).
--   tunnel/                Tunnel (CreateTUN and createPlatformTUN on Linux and Windows).
--   client/cmd/main.go, client/cmd-windows/main.go and server/cmd/main.go
--                          Command (client_main, windows_main, server_main: from the arguments to a
--                          client or a server).
--
-- The parts meet in the wire format: Client/Stamp and Client/Sending read the client's packets with the
-- server's decoders, Client/Registration follows a heartbeat to the server and its ack back,
-- Client/Delivery a packet from a TUN device to the endpoints of another client, and the server's steps
-- in Server/Run run on any bytes at all.
--
-- Conventions. A struct is a record and its handlers are functions from one state to the next. The runs of
-- the server and of the client take each handler as one step. cleanup, deleteClient and removePath let go
-- of their lock before they are done; Server/Overlap and Client/Overlap show what deleteClient and
-- removePath lead to where another handler comes in between. A map is an association list; the order of
-- a Go map is open, and the list's order stands for any. A number stands for a fixed-width integer, with
-- the wrap of its width written out as u8, u16, u32 and u64. Times are nanoseconds. What leaves the
-- process is a list of effects. An index out of range and the closing of a closed channel are none.
--
-- Parameters: SHA-256, YAML, url.Parse, net.SplitHostPort, net.ParseCIDR, whether a write to a socket
-- succeeds, whether a socket can be bound, what the system lists as interfaces, the clock.
--
-- Bounds and fuel. The search of allocateIP has one round for each host address of the subnet, which is
-- what the loop has. Two turns of the carry loop fold any 32-bit sum. Five digits print any 16-bit id.
-- The deduplication laws are stated for a window that divides 2^32 and is at most half of it, as the
-- default of 4096 does.
--
-- Not modelled: other overlaps of handlers than those two, the options of sockets, the system behind the
-- TUN devices, goroutines and their cancellation, the channel between the sockets' readers and the
-- client, logging, the HTTP server and the web page, DNS, the buffer pool, and of the command line
-- programs their output, signals and, on Windows, the elevation to administrator.
pub mod Base
pub mod Config
pub mod Protocol
pub mod Dedup
pub mod Server
pub mod Client
pub mod Command
pub mod Tunnel
