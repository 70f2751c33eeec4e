-- ===== src/Lib.antt =====
-- Verification of the multi-port serial gateway: its serial ports, Modbus frames, controller, DHCP
-- client and installation journal.
--
-- A port of the gateway takes requests from a network listener into a bounded queue, hands them one
-- at a time to a serial backend, and tells the outcome of each to a completion callback. The event
-- loop gives every port a turn with the reading of a 32-bit tick counter that wraps.
--
-- Deadline models src/core/deadline.c, and Transaction models src/core/transaction.h. Queue models
-- the ring of transactions of src/core/port_runtime.c (`queue_push`, `queue_pop`). Port models the
-- rest of that file: Port/State its types, Port/Machine its transitions and shared helpers,
-- Port/Submit the submissions, Port/Control the requests that interrupt a port, and Port/Step
-- `port_runtime_step`. A port is the record `Port`, each operation a function from the port before to
-- its result and the port after. The C function `port_runtime_x` is `x` here. The other modules of
-- Port hold the theorems: Port/Invariant and Port/Valid the invariant, Port/Transitions the states,
-- Port/Requests, Port/Admission and Port/Outcomes what each operation comes to, Port/History,
-- Port/Conservation and Port/Life what becomes of the transactions over any sequence of calls.
-- Modbus/Crc models src/modbus/modbus_crc.c.
-- Modbus/Mbap models src/modbus/mbap_stream.c: a ring of received bytes, cut into requests that go to
-- a callback. Mbap/Stream and Mbap/Parser relate the ring and its parser to a list of bytes,
-- Mbap/Frames and Mbap/Fragments read that list, Mbap/Feed and Mbap/Delivery hold the theorems on
-- `mbap_stream_feed`. Modbus/Adapter models src/modbus/modbus_tcp_adapter.c, which submits a request
-- to a port as a frame of the serial line, probes the frames that come back and builds the answers.
-- Modbus/Dispatcher models src/modbus/modbus_dispatcher.c, in which the clients of a port take turns.
-- The functions of these files keep their names; a buffer with its length is a list. A callback of
-- the stream is a function on a state of its own, on which nothing is assumed.
-- The loop of `parse_available` runs on fuel that starts at the number of buffered bytes, and the
-- copying loop of `mbap_stream_feed` on fuel that starts at the number of bytes fed; each round takes
-- one at least, and Mbap/Parser and Mbap/Feed show what they end with.
-- Uart models the start, the poll, the cancellation and the recovery of src/uart/uart_backend.c over
-- the parameter `Syscalls`, the calls of the device that move bytes; Uart/Events holds the theorems.
-- Opening, configuring and stopping the device, its trace functions and the texts on the standard
-- error are left out. The loop that drains a device runs on fuel for the 512 bytes after which the
-- code stops, of which each round takes one at least.
-- Config models src/config/config_model.c, and Config/Values holds the theorems on its tables.
-- Panel/KeyRepeat models src/panel/key_repeat.c, and Panel/KeyRepeat/Release holds its theorems.
-- Gateway/Config models the configuration of the ports in src/gateway/gateway_controller.c and its
-- validation, Gateway/Config/Address the address test with what it uses of `sscanf`, and
-- Gateway/Config/Conflicts and Gateway/Config/Replacement hold the theorems. Gateway/Controller models
-- the rest of that file: Gateway/Controller its data, the transports and the start,
-- Gateway/Controller/Step the turn of a port and of the controller, Gateway/Controller/Requests the
-- reconfiguration, the wait for the network and the shutdown, Gateway/Controller/Health the report.
-- A port of the controller is the record `PortController`; the turn of a port is cut into one function
-- for each lifecycle. A transport is a table of functions over a state of its own; since a listener
-- holds a pointer to the runtime of its port, a transport takes the runtime and returns it, and what
-- the theorems assume of it is in Gateway/Controller/Agreement: it reaches the runtime only as a
-- listener does, by calls of the port, by setting or clearing its completion callback and by using the
-- device; Gateway/Controller/Listening shows it of the initialisation and the dispatcher of the Modbus
-- listener. What a completion does to a transport is done by the transport's next call,
-- which sees the record of completions. The theorems on one turn or one request stand in
-- Gateway/Controller/Turns, Rebinding, Requesting, Replacing and Scheduling, those on sequences of
-- calls in Gateway/Controller/Life, Outcomes and Shutdown.
-- Gateway/Persistent models the defaults, the safe mode and the check of the settings of
-- src/config/gateway_persistence.c. Gateway/Coordinator models src/gateway/gateway_coordinator.c over
-- the parameter `Surroundings`, the functions that the coordinator is given; Gateway/Coordinator/Step
-- is its step, one function for each state, with the test of the shutdown deadline in 32 bits as on
-- the target. Gateway/Coordinator/Events, Startup and Endings hold its theorems.
-- Network/Ipv4 and Network/Settings model src/network/gateway_network_settings.c: the addresses as
-- texts and the validation of the settings of the two LANs. Network/Dhcp models
-- src/network/gateway_dhcp_client.c, with Network/Dhcp/Receive for `gateway_dhcp_receive`; a packet is
-- the list of its bytes, and the loop over its options runs on fuel for its bytes, of which each round
-- takes one at least. Network/Dhcp/Wire models
-- src/network/gateway_dhcp_wire.c, the frames around the packets and those of ARP. Network/Dhcp/Life,
-- Network/Dhcp/Lease and Network/Dhcp/Wire/Checksum hold the theorems.
-- Installer/Journal models the journal of src/installer/install_transaction.c: `encode` and `decode`,
-- with the tests of a file and of a path, and Installer/Digest the SHA-256 of
-- src/installer/install_digest.c, over which the journal is closed. Installer/Journal/RoundTrip holds
-- the theorem. The bytes after a position are the rest of a list; whether a path is allowed is an
-- argument, as it is a callback in the code. The loop of `install_digest_update` runs on fuel that
-- starts at the number of bytes; each round takes one at least.
--
-- The device driver behind a port is the parameter `Backend`, a table of functions over a state of
-- its own, on which nothing is assumed. The calls of the completion callback are recorded in
-- `completions`; the callback does not call back into the port. Pointers that the functions test and
-- callers never pass as null (`port`, `config`, `message`) are taken as valid; `payload`, `metadata`
-- and `operation` are optional. Enumerations hold the values they name. A counter of the statistics
-- stops at its last value, other unsigned arithmetic wraps at 2^32. Texts hold their bytes without
-- the terminating zero.
--
-- The loops of `flush_queue` and of a ready port run on fuel that starts at the number of queued
-- transactions; each round takes one out, so the fuel is enough, and the theorems on these loops say
-- what they end with.
--
-- Not modelled are the listeners, the sockets of the DHCP client, the stored documents, the installer
-- apart from its journal, and the web interface, nor what is only I/O on files, processes, sockets and
-- displays.
--
-- The tests and the instances of the theorems at concrete values stand in Examples.
pub mod Prelude
pub mod Deadline
pub mod Transaction
pub mod Queue
pub mod Port
pub mod Modbus
pub mod Uart
pub mod Config
pub mod Panel
pub mod Gateway
pub mod Installer
pub mod Network
pub mod Examples
