-- ===== src/Lib.antt =====
-- A model of the core of can-hub, in C under src/. Agents export the CAN buses of a device to a hub,
-- and clients use them through it. What is modelled are the tables and queues that the agent and the
-- hub keep, each a record, with one function for each C function, and the messages of a session; the
-- handlers that call them (agent/agent.c and hub/broker.c of the sources) are not modelled.
--
-- Base: what the modules share. Base/Lists and Base/Blocks have arrays as lists (get_or and set for
-- an access, overlay and blit for memcpy), Base/Slots the loops over a table of slots with the laws
-- of searching and counting, Base/Find the same for the slot found, Base/Best the loops that keep the
-- best slot so far, Base/Paging the list replies of a page at a time, Base/Prefixes the first entries
-- of an array, Base/Tabulate the view of a ring by position, Base/Logic the Boolean tests.
--
-- Shared (src/shared): BoundedString is bounded_string.c, ReconnectBackoff reconnect_backoff.c, and
-- EgressShaper the token bucket of egress_shaper.c, with Bounds for its invariant and Conformance
-- for what it lets through.
--
-- Protocol (src/protocol): Wire is wire.c and message_header.c, numbers and texts as bytes; Message is
-- what the messages share; Frame is frame_message.c with the walk over the frames of a datagram
-- (Datagram, ReadBack); Hello, Register (RoundTrip), Open, Subscribe, Error, ListReply, Status and
-- InterfaceName are hello_message.c, register_message.c, open_message.c, subscribe_message.c,
-- error_message.c, list_message.c, interface_status_message.c and interface_name.c; Settings and
-- Ifconfig (Forwarding) are ifconfig_message.c.
--
-- Agent (src/agent/domain): StepRing is step_ring.c, the ring of script records between the hub's
-- credit and the interpreter (Invariant, Refine against a queue of bytes, Credit for runs);
-- EchoCorrelator is echo_correlator.c, the tokens of frames whose echo the bus still owes (Refine,
-- Operations, Others); TxPacer is tx_pacer.c; ChannelMap is channel_map.c.
--
-- Hub (src/hub/domain): ClientSession is client_session.c, the channels that a client holds open
-- (Channels, Invariant, Dormancy); EchoTokens is echo_tokens.c, which client an agent's echo belongs
-- to (Attribution, Release); TransactionTable is transaction_table.c with its exclusive leases
-- (Invariant, Leases); BridgeRoutes and BridgeGroups are bridge_routes.c and bridge_groups.c
-- (Invariant, Lookup, Members), and BridgeTargets is bridge_targets.c, which asks both where a frame
-- goes (Reached); EgressQueue is egress_queue.c (Scans). InterfaceRegistry is interface_registry.c,
-- the catalogue of all interfaces (Invariant, Registration, Reach; Served and OverWire follow a
-- registration to the agent's ChannelMap, Pacing a channel to its EgressShaper; Listing). HubPeer and
-- PeerDirectory are hub_peer.c and peer_directory.c, the live peers and which of them makes room
-- (Lookup, Displaced); FrameRoutes is frame_routes.c, which asks the registry and the sessions of the
-- directory where a frame goes (Destinations, BothWays); RejectedPeers is rejected_peers.c, the
-- identities turned away (Attempts, Flood).
--
-- Socketcand/AsciiFramer is socketcand/domain/ascii_framer.c, which finds the commands of the text
-- gateway in a byte stream; Stream sets it against an automaton over single bytes.
--
-- Conventions. A pointer to a slot is the slot's index, NULL is none. An out parameter is part of the
-- result. Integers are natural numbers, with % 2 ^ w written where a w-bit value may wrap around.
-- A string is the list of its bytes before the final NUL. A reset by memset is a record of zero
-- values. Loops are recursions on the entries or turns left. The while loop of
-- TransactionTable_ForClientChannel has the size of the table and one more as fuel: every turn moves
-- its iterator past an entry. The channel allocation keeps the 33 attempts of the source, one more
-- than there are bindings. The inner loop of FrameRoutes_ToInterface has the size of a session and
-- one more as fuel: every turn moves the iterator past a binding. What a message is encoded into is
-- the list of the bytes written, of which the length is the result; nothing written is the empty
-- list. A char array whose last byte is not NUL is a text as long as the array.
--
-- Not modelled: the broker over the tables; the messages of txn_message.c,
-- txn_steps_message.c and admin_message.c; hub/domain/admin_views.c, which copies the tables into
-- replies; the agent's script interpreter and ISO-TP link, the client and the rest of the socketcand gateway,
-- which these parts do not depend on, except as their callers; and src/platform, which is input and
-- output over system libraries.
pub mod Base
pub mod Shared
pub mod Protocol
pub mod Agent
pub mod Hub
pub mod Socketcand
