-- ===== src/Lib.antt =====
-- A verification library of the QuickTunnel VPN: its Noise handshake and replay protection, its relay,
-- its server of networks and members, and the agent, the API client and the peer manager of its client.
--
-- A device joins a network on the server, which keeps the networks and their peers in two tables: the owner of
-- the network approves it, and it gets an address of the virtual network. Its agent then sends heartbeats,
-- and its peer manager keeps a connection to each peer that the server lists. Two peers that cannot reach
-- each other directly both connect to the relay with a session token; the relay pairs them and forwards
-- their datagrams. Traffic is protected by a Noise IK handshake and by ciphers with a replay window.
--
-- Store            server/internal/database/queries/peers.go and networks.go: every SQL statement as a function of
--                  the tables, with the columns and unique indices of database/migrations. In its child Statements the
--                  statements on peers as one relation.
-- Api/Members      server/internal/api/member_handler.go: list, approve, reject and kick.
-- Api/Devices      the same file: the handlers that a device calls with its token.
-- Api/Tunnel       server/internal/api/member_tunnel_handler.go: the handlers that the router serves to devices.
-- Api/Join         server/internal/api/join_handler.go.
-- Api/Registration server/internal/api/peer_handler.go: RegisterPeer, with what other requests do between its statements.
-- Api/Agents       the same file: ListPeers, UnregisterPeer and Heartbeat.
-- Api/Coordination server/internal/api/coord_handler.go: Announce and ListPeers.
-- Api/Networks     server/internal/api/network_handler.go.
-- Middleware       server/internal/api/middleware/realip.go, and the key of ratelimit.go beside it.
-- Agent            client/internal/agent/agent.go and state.go: the intervals, the endpoint and one step of each
--                  loop; in its child Life Start and Stop.
-- Client           client/internal/api_client/client.go: credentials, requests and retries; in its child RelayHost
--                  the host of a relay.
-- Noise/Replay     pkg/noise/replay.go: the bitmap of 2048 counters, its shifts by words and bits, and
--                  Accept. Log is the abstract view: the list of the counters accepted so far.
-- Noise/Cipher     pkg/noise/cipher_state.go: keys, nonces, EncryptWithAd, DecryptWithAd, Rekey.
-- Noise/Symmetric  pkg/noise/symmetric_state.go: the chaining key and the transcript hash.
-- Noise/Handshake  pkg/noise/handshake_state.go: both messages of the IK pattern, for both roles.
-- Relay/Sessions   relay/internal/relay_server.go: the two session maps and the cleanup.
-- Relay/Server     the same file: every packet type and forwarding; in its child Reach the runs of the relay.
-- Relay/Metrics    relay/internal/metrics.go: the counters.
-- Netutil          pkg/netutil/ip.go: AllocateIP.
-- Peer/Endpoint    client/internal/peer/manager.go: the choice of a peer's endpoint.
-- Peer/Manager     the same file: the connections, syncPeersOnce and Stop; in its child Relay the endpoint of a
--                  relay (resolveRelayEndpoint), in Switch ForceRelay and AttemptDirect.
-- Peer/Handshake   client/internal/peer/handshake.go: the signed packets by which clients greet each other.
-- Stdlib           what the code uses of Go's packages strings, strconv, encoding/hex and net.
-- Base             lists, words, bits and maps with string keys.
--
-- State is a record and an operation returns the new one; an operation that can fail returns a result. An
-- operation under a mutex is one step. Numbers of w bits wrap at 2 ^ w, where the code's do.
--
-- Parameters, since their code is not in the repository: the AEAD, BLAKE2s, HKDF and X25519 (Noise/Crypto,
-- with the laws that the handshake relies on, and a concrete instance in Noise/Crypto/Toy), HMAC-SHA256,
-- the random source, the clock, the answer of the socket to each write, encoding/json, the text form of IPv6, net/url,
-- what Redis returns, the answers of the HTTP API to its client, and those of the tunnel. Spaces and letter
-- case are those of ASCII.
--
-- Bounds: the loops of the replay window and of AllocateIP run over a count that is computed before they
-- start, so they have no other fuel; the text of a number has one step for each unit of the number, more
-- than it has digits. The retries of doJSON and of RegisterPeer run over the number of attempts in the code.
--
-- A request is one step unless its file says otherwise; `down n` tells that its statement n fails for a reason
-- outside the tables. Statuses stand for replies, without their messages and logs. Numbers of a request are
-- not negative. Requests that the check of the database refuses for the form of a text or its length fail
-- as if the database was down.
--
-- Not modelled: users and sessions (JWT and bcrypt), downloads and install scripts, the buckets of the rate
-- limits, the choice of relays, NAT discovery and hole punching, VNC, command lines, sockets, TUN devices and
-- the web front end.
pub mod Agent
pub mod Api
pub mod Base
pub mod Client
pub mod Middleware
pub mod Netutil
pub mod Noise
pub mod Peer
pub mod Relay
pub mod Stdlib
pub mod Store
