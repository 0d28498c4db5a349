-- ===== src/Lib.antt =====
-- Verification of the integration `dess_monitor_local` for Home Assistant, which reads hybrid inverters
-- over serial lines, TCP bridges and WiFi dongles, and writes their settings. All paths below are from
-- the repository's root, and begin with `custom_components/dess_monitor_local/` where they have no
-- other folder in front.
--
-- The parts and how they interact. A coordinator polls the devices in cycles. It sends each command
-- through the queue of its transport to an adapter, the adapter speaks a protocol over the transport,
-- checks the frame of the answer and decodes it to a section of named values, and the coordinator
-- decides what to publish. EyBond dongles connect to a listener of ours instead; a manager keeps their
-- sessions and routes each request by the serial number (PN) of the dongle, and a registry remembers
-- the dongles and their settings.
--
-- Crc, Crc/Frame, Crc/Bytewise, Crc/Accept: api/crc.py. The checksum routines are folds over lists of
-- bytes; `voltronic_byte`, `xmodem_round` and `modbus_round` are the bodies of the loops, with the
-- masks of the source as remainders. Crc/Frame has `validate_voltronic_response`,
-- `validate_pi18_response` and `build_pi30_frame`.
--
-- Modbus/Framing, Modbus/Stream, Modbus/Write, Modbus/Smg2: api/protocols/modbus_rtu.py. `Outcome` is a result or the
-- exception that the source raises. Modbus/Stream is `read_modbus_block` on the bytes that the
-- connection delivers. Modbus/Smg2 is `read_smg2_snapshot_via`, whose dicts are tables of field,
-- register and conversion. Modbus/Write has the writes of one register, over TCP and, from
-- api/adapters/modbus.py, through a dongle; the bus is a parameter, for which Modbus/Device has a device
-- that serves writes. Modbus/Projections has the sections that a snapshot is shown as,
-- and Modbus/Adapter the cache of snapshots and the registers of the settings. Modbus/Roundtrip,
-- Modbus/Snapshot and Modbus/Settings hold the proofs.
--
-- Decode: api/decoders/voltronic.py and the PI30 parts of api/decoders/enums.py. Texts are lists of code
-- points (Base/Text). Decode/Fields has the field tables, Decode/Voltronic the decoders and
-- `decode_direct_response`, Decode/Bits the status bits.
--
-- Pi18: api/decoders/pi18.py, api/protocols/pi18_tcp.py and the PI18 parts of api/decoders/enums.py.
-- Pi18/Tables has the tables, Pi18/Frame the request frames and the stripping of an answer, Pi18/Numbers
-- `int(text)` and the f-strings of numbers, Pi18/Status, Pi18/Rated and Pi18/Warnings the decoders of
-- lists of tokens, Pi18/Respond the others and `decode_pi18_response`. Pi18/Transport is the collector of
-- one answer and `query_pi18` on the chunks that a connection delivers before the timeout.
-- Pi18/Delivery, Pi18/Request and Pi18/Errors hold the proofs.
--
-- Agent/Split, Agent/Adapter: api/protocols/agent_http.py and api/adapters/agent.py; the answer to an HTTP
-- request is an input, the URL parser a parameter. Agent/Status holds the proof on the status bits.
--
-- Sensors/Binary: binary_sensor.py. Sensors/Readings, Sensors/Summary: the values of the entities of
-- sensors/direct_sensor.py, of which Sensors/Summary has the summary of faults. Sensors/Agreement,
-- Sensors/Warnings and Sensors/Flags hold the proofs.
--
-- Selects/Options, Selects/Pending: select.py and api/adapters/base.py. Selects/Options has what each select
-- reads and sends, Selects/Pending the writes and the option that is held until the device confirms it,
-- Selects/Release the proof on the latter.
--
-- Soc/Estimator: soc_core.py; each operation is a function of the state of the object, with the times as
-- arguments. Soc/Sensor: `DirectBatteryStateOfChargeSensor` of sensors/direct_energy_sensors.py, which
-- feeds it; the states of the entities that it reads are texts. Energy/Meter: the energy sensors of the
-- same file, and Energy/Estimates its estimates of time. Soc/Bounds, Soc/Shown, Soc/Sync and
-- Energy/Growth hold the proofs, over floats with the laws of `IsOrdered` and `IsMonotone` (Base/Float),
-- which Base/Units shows for floats that count whole units.
--
-- Bus/Queue, Bus/Registry: api/commands/direct_command_queue.py. `CommandQueue` has its priority queue
-- kept in order; `bypasses` is the choice of `run_on_bus` to pass it by; `ensure` and `release_entry` are
-- those of `QueueRegistry`, whose lock makes each of them one step. Bus/Lanes has the two lanes that the
-- queue implements; Bus/Order, Bus/Owners and Bus/Counts hold the proofs.
--
-- Ring/Log: frame_log.py and diag_hub.py, whose buffers of the module are a state that is passed on.
--
-- Coordinator, Sanity, Values: coordinators/direct_coordinator.py, coordinators/failure_tracker.py and
-- sanity.py. `fetch_with_retry` takes both answers of the bus as inputs, `none` where the transport
-- raises, and the state that the object keeps; `refresh_command` is the forced read. `float` and the
-- arithmetic on floats are parameters (`Float`, Base/Float).
--
-- EyBond/Registry, EyBond/Stored, EyBond/Lifecycle: api/protocols/eybond_discovery.py, with the clock as
-- an argument. EyBond/Children, EyBond/Identity: coordinators/eybond_children.py and
-- coordinators/device_target.py. EyBond/Restart: the registry at the set-up of a hub, in eybond_hub.py.
-- Adapters: api/adapters/factory.py.
--
-- EyBond/Wire: the frames of api/protocols/eybond_dongle.py. EyBond/Manager: `EybondManager` of the same
-- file. Session objects and futures are numbers into stores, so that the set of sessions, the map by PN
-- and the handler of a connection share them. Each piece of code between two points where the event
-- loop may switch is one function: `connect`, `handle_frame` (EyBond/Handler) and `disconnect` are the parts
-- of `_handle_session`, `begin_send` and `give_up_send` those of `send_frame`. EyBond/Reachable has the
-- step relation; `shutdown` is a function and not a step of it, as no session is served after it.
-- EyBond/Dispatch: the URIs, the table of managers and `ensure_started` of the same file, the wrappers of
-- `send_frame`, and api/adapters/eybond.py.
--
-- Direct/Collector: api/protocols/elfin_tcp.py, api/protocols/serial_uart.py and api/adapters/voltronic.py,
-- on the chunks that a connection delivers.
--
-- Bounds and fuel. Numbers of Python are unbounded here as well; where the source masks, the model
-- takes remainders, and `struct.pack` fails outside of its fields. Loops are recursions on lists. Only
-- `read_frames` and `drain` have fuel, a bound on the number of rounds, of which the number of frames and
-- the length of the queue are enough, as each round takes one.
--
-- Not modelled: sockets, serial lines, tasks and locks of the event loop, logging, the entities and forms
-- of Home Assistant except where named above, HTTP requests. A `str` is ASCII, and a stored registry has values of the
-- right types.
--
-- Base and the files below it hold what the parts share: lists and dicts over native numbers, equality
-- tests as instances, laws of exclusive and inclusive or, decimal texts, integers and floats.
pub mod Base
pub mod Crc
pub mod Values
pub mod Sanity
pub mod Coordinator
pub mod EyBond
pub mod Adapters
pub mod Modbus
pub mod Ring
pub mod Bus
pub mod Decode
pub mod Pi18
pub mod Soc
pub mod Energy
pub mod Agent
pub mod Selects
pub mod Sensors
pub mod Direct
