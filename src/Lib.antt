-- ===== src/Lib.antt =====
-- Verification of the thermometer backend, the Python service under backend/pc_client that talks
-- to the device over Bluetooth LE.
--
-- The parts and the files that model them:
--   * Protocol: backend/pc_client/protocol.py, the packets. Protocol.Enums has the enumerations
--     with their numbers, Protocol.Error what is raised, Protocol.Layout the packing of a layout
--     (`_pack_layout`, `_unpack_layout`, over the little-endian standard sizes of `struct`),
--     Protocol.Config the layouts and constants of protocol/thermometer_protocol.json,
--     Protocol.Packet the request builders, `validate_passkey` and `parse_response`,
--     Protocol.Decode the `decode_…` functions and `compute_authentication_proof`. Each function
--     has its Python name, without a leading underscore; one that raises returns a `Result`.
--   * History: backend/pc_client/history_sync.py, the transfer loop of `synchronize` (`turn` is one
--     round, `transfer` the loop, `closing` and `complete` what follows it), `validate_chunk` and
--     `timestamp`. It asks the device with requests of Protocol and checks the chunks that
--     Protocol.Decode returns.
--   * Client: backend/pc_client/thermometer_client.py. Client has its request ids and how many records it
--     asks for; Client.Session its requests, `connect`, `authenticate` and `get_history_chunk`, over a
--     transport that is a parameter; the packets are those of Protocol.
--   * Scheduler: backend/pc_client/ble_scheduler.py, through which those requests go. The operations
--     of `BleRequestScheduler` are functions on a state, and `run` applies any sequence of them.
--   * Persistence: backend/pc_client/persistence_worker.py, the bounded queue before the database, in
--     the same way. Futures has what it shares with Scheduler.
--   * Credentials: backend/pc_client/credential_registry.py, addresses and the dictionary of enrolled
--     devices, with `validate_passkey` of Protocol; Credentials.Reset is `reset_all_pairings` of
--     backend/pc_client/pairing_reset.py, over that dictionary.
--   * Service: `ThermometerBleService` of backend/pc_client/ble_service.py. Service.Operations has the
--     operations that callers wait for; Service.Controller the connection state with what all parts
--     of it use; Service.Intent what callers and callbacks do to it (`start`, `stop`, `scan`,
--     `_begin_connection`, `disconnect`, `forget_pairing`, `_on_transport_disconnected`);
--     Service.Manager and Service.Opening the connection manager (`_connection_manager`,
--     `_open_connection`, `_connection_lost`, `_find_reconnect_target`,
--     `_supervise_connection_manager`); Service.Steps all of these in any order, as `run`.
--     Service.Safety has what holds after any run. Service.Records builds the rows for the database
--     out of the values of Protocol and History, and Service.Polling is the loop of `_poll_current`.
--     Every change of the connection state goes through `transition_state` of Lifecycle.
--   * Lifecycle: backend/pc_client/service_state.py and `_transition` of
--     backend/pc_client/ble_service.py, the snapshots that the service publishes.
--   * Prelude has the shared helpers, Examples the theorems at concrete inputs.
--
-- Conventions and bounds. Numbers that the source never makes negative are natural numbers, so its
-- tests for a negative argument have nothing to test; 32-bit arithmetic keeps `% 2 ^ 32` written
-- out. A temperature is a number of hundredths of a degree, a time a number of milliseconds. The
-- texts of errors are constructors, without the values that they quote. What a device, the network
-- and the clock do in one round of the transfer is an argument, `Round`, over which the theorems
-- quantify. The entries of `remaining` and `next_sequence` are read and written only while their
-- sensor is in hand, so they stand in the entry of `pending`. The loop runs on fuel; each round uses
-- up a record or a job, so more fuel than records and jobs is enough. An attempt of the connection
-- manager that fails and what the manager does then are one step; one that returns a snapshot ends,
-- and the manager goes on in a step of its own. A future is known by its
-- request's number. A handler of the service is cut where it waits: each part up to the next wait is a
-- function, and an event says what the wait has brought, so that the parts of several handlers may
-- come in any order, also in orders that the event loop cannot bring about. The manager keeps its
-- `Place` between its parts. A client, an operation and an attempt are known by their numbers, an
-- address by its lower-case text, and a discovered device by its address. The inner loop of the poll
-- runs on the readings of the clock that it makes. The digest `hmac_sha256` is a parameter.
--
-- Not modelled: the choice of the time anchor before the transfer, the progress that is shown, texts
-- of errors, logging, `set_display` and the task of a history transfer in the service, its status and
-- the events that it sends to the interface, the names of devices, the timeouts of a connection's
-- steps (a timeout is a failure, which may come at every wait), the REST interface, the desktop
-- interface, the credential file, the pairing of operating systems, the database, the firmware and
-- the web frontend.
pub mod Prelude
pub mod Protocol
pub mod Futures
pub mod History
pub mod Lifecycle
pub mod Scheduler
pub mod Persistence
pub mod Credentials
pub mod Client
pub mod Service
pub mod Examples
