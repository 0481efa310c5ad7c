-- ===== src/Lib.antt =====
-- Verification of meshtastic-go, a Go library for nodes of a Meshtastic radio mesh.
--
-- The program. core holds the data of the protocol: node ids (core/node_id.go), channels and their
-- registry (core/channel.go), keys, ciphers and packet signatures (core/crypto), the deduplicator
-- (core/dedupe). device/node builds an emulated node on these: an incoming packet is deduplicated,
-- decrypted by PKI or by the key of a channel, checked against the signature policy, stored in the
-- node database (device/nodedb) and reported as an event; an outgoing packet gets an id, defaults,
-- a signature and a cipher text, and is handed to a transport, paced. A bridge
-- (device/node/bridge*.go) does the same for many identities at once, sends in their names and
-- answers requests to them. Packets come from transports, several of which transport/raw/multi.go
-- joins into one. An application drives a node through the client API (device/clientapi), whose
-- other end is the client of transport/client.
--
-- The files.
--   Common and its children: tests, lists, byte strings, bits, dictionaries, little-endian words.
--   Proto: the messages of core/proto as records (Messages, Radio), their ports (Ports), and the
--     third-party code as parameters (Codec): ProtoCodec is the protobuf encoding, Ciphers the
--     cryptography.
--   Fixtures: a small encoding and toy ciphers for the tests.
--   Dedupe: core/dedupe/dedupe.go. seen_at, is_seen and delete_until are seenAt, isSeen,
--     deleteUntil.
--   Channel: core/channel.go. register, lookup_pair, resolve_by_name and the other lookups.
--   Crypto/Keys, Crypto/Nonce, Crypto/Packet: core/crypto/keys.go, aes.go and xeddsa.go.
--   NodeId, NodeId/Text: core/node_id.go.
--   Beacon: core/beacon.go. Lora: core/lora/priority.go and precision.go. Lora/Regions:
--     regions.go.
--   PositionSharing: core/position.go. Traceroute: core/traceroute/traceroute.go.
--   Stream: transport/stream/conn.go. Inbound: sanitizeInbound of transport/udp/udp.go and of
--     transport/mqtt/mqtt.go.
--   Transport: transport/interfaces.go. Transport/Multi: transport/raw/multi.go.
--     handle_from_child and handle_child_state are the handlers that makeChildHandler and
--     makeChildStateHandler build.
--   NodeDb: device/nodedb/nodedb.go.
--   PacketId, Throttle: device/node/packetid.go and throttle.go.
--   Device/Config, Device/Base: device/node/base.go. Device/Signing: device/node/signing.go.
--   Device/Node with Options, Send and Receive: device/node/node.go, pki.go and send.go.
--     handle_incoming_packet is handleIncomingPacket, process_decoded is processDecoded.
--     Device/Handlers holds the events and the cases of processDecoded that nodes and bridges
--     share.
--   Device/Bridge: device/node/bridge.go. Device/Bridge/Request and Send with NodeInfo and
--     Payloads: bridge_send.go and the Send functions of bridge.go; send_as is sendAs.
--     Device/Bridge/Route and Respond: bridge_responders.go. Device/Bridge/Context and Receive:
--     handleIncomingPacket and processDecoded of a bridge.
--   ClientApi with Subscribers: device/clientapi/server.go and admin.go. Client:
--     transport/client/state.go and transport.go. The client reads what the handshake of the server
--     writes.
-- A child module named for a result holds the proofs, and Examples the tests of a component.
--
-- The model. An operation that changes state takes the state and returns it; a Go error is `none`,
-- `false` or Outcome.err, and a slice bound that is exceeded is Outcome.panic. A clock reading, a
-- random draw and the answer of a transport are arguments. A 32-bit word is a number below 2^32,
-- and wraps where the code wraps. A map is an association list. Locks are left out: each operation
-- is one step. Each loop is a recursion on a list or on a number of digits, but for
-- ChannelUsesPublicKey, which calls itself for the primary channel: it runs on fuel 2, one unit for
-- each of the two calls, and `none` is a call that has run out of it.
-- In Transport/Multi and ClientApi/Subscribers the moves of the goroutines are explicit lists.
--
-- Not modelled: the main loops (Run) of a node and of a bridge and the broadcast scheduler, which
-- wait on tickers; the decoding of base64 keys; the registry of handlers of transport/client, in
-- whose place the calls are recorded; geofences, roles and the radio formulas, most of them in
-- floating point; sockets, serial ports, the MQTT client and logging, which are input and output;
-- generated code.
pub mod Common
pub mod Crypto
pub mod Beacon
pub mod Channel
pub mod Client
pub mod ClientApi
pub mod Dedupe
pub mod Device
pub mod Fixtures
pub mod Inbound
pub mod Lora
pub mod NodeDb
pub mod NodeId
pub mod PacketId
pub mod PositionSharing
pub mod Proto
pub mod Stream
pub mod Throttle
pub mod Traceroute
pub mod Transport
