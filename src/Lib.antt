-- ===== src/Lib.antt =====
-- Robot HAL: a hardware abstraction layer in Rust. Callers name resources (serial ports, CAN buses,
-- USB devices, GPIO lines, cameras), a runtime opens them for a session and hands out lease tokens,
-- and every operation is checked against the lease. This library models the parts that decide: who
-- holds a resource, which token is still good, which sessions may work, which data are legal, what
-- a client reads from the frames of a camera in shared memory, and what a peer makes of a message.
--
-- Prelude.antt and Prelude/: the library names that the other files share; Boolean tests on native
--   numbers, equality of keys as an interface (`Equality`), counted lists, association lists for
--   `HashMap` and `BTreeMap`, and what is asked of a Rust `str`.
-- Core.antt and Core/: crates/robot-hal-core/src.
--   Names: the newtypes over `String` and the enumerations. Error: `HalError`, `HalResult` and the
--   monad of `?`. Identifier: `validate_identifier` (capability.rs), the `parse` functions and
--   `HalError::new`. Capability: `CapabilityId::parse`. Context: `ErrorContext::new`. Lease:
--   `LeaseToken`. Resolution: descriptors, selectors and `resolve_resource`, whose statement is in
--   Resolution/Outcomes.
-- Runtime.antt and Runtime/: crates/robot-hal-runtime/src.
--   LeaseTable: lease_table.rs, one exclusive control lease per resource. CanLeases and
--   CanLeaseTable: can_lease_table.rs, shared and exclusive leases, reserved first and committed
--   later. Lifecycle: session_lifecycle.rs. Events: events.rs. Sessions and Registry: registry.rs,
--   the serial sessions over the lease table, the lifecycle and the events. The child modules of a
--   table hold its proofs: how an operation acts on one resource (Slot, Steps), invariants
--   (Invariant, Exclusion, Backing, Consistency), spent tokens (Fencing), the answers of each
--   operation (Outcomes), a lease from its reservation to its use (Opened), the memory of closed sessions (Closed, Closing), the numbers of events
--   (Numbering) and histories of calls (History).
--   GpioManager: gpio_manager.rs, the sessions on GPIO lines. Each has a worker thread; calls, the
--   tasks that wait for a worker and the workers interleave in any order (Steps). Calls has what
--   comes after an open. Safety holds the invariant, Changes, Guard, Endings and Turns keep it,
--   Exclusive states what follows; Revoke is `revoke_owner`. CanActor: what can_actor.rs does with
--   received frames, batches and the sessions of an open channel, with Turns, Answers, Conserved,
--   Batches and Sharing for its statements. CanQueue: the room that batches reserve in its queue.
-- Can.antt and Can/: crates/robot-hal-can/src, frames, filters, link configurations and bus status.
-- Devices.antt and Devices/: the contracts of crates/robot-hal-usb/src, crates/robot-hal-gpio/src and
--   crates/robot-hal-serial/src, with Usb/Valid for the statement on transfers.
-- Protocol.antt and Protocol/: crates/robot-hal-protocol/src, what a message is decoded to, and the
--   encoders beside it. CanEnums, CoreEnums, DeviceEnums and SerialEnums: the enumerations of
--   proto/seeed/hal/v1/hal.proto. Wire: the helpers of the decoders. CanFrames, CanLinks and
--   CanRequests: can_conversion.rs. Sessions, Errors, SerialPorts, UsbTransfers and GpioLines:
--   conversion.rs, with the encoders of the client in crates/robot-hal-client/src (usb.rs, gpio.rs,
--   connection.rs). Versions: the handshake of lib.rs. The Inverse modules say which messages are
--   accepted and that encoding comes back, CanLinks/Filters for filters and status. Issued goes
--   from the lease table to the client.
-- Camera.antt and Camera/: frames in shared memory.
--   Format: `CameraFormat` of crates/robot-hal-camera/src/lib.rs. Layout: layout.rs of
--   adapters/shared-memory/src, with Layout/Slots and Layout/Planes for its statements. Slot and
--   Ring: the broker's half of ring.rs, a state machine on the slots; Ring/Select, Ring/Pins,
--   Ring/Lease and Ring/Refused hold its statements. Reader: the client's half,
--   `ReadOnlyMapping::copy`, with Reader/Copied and Reader/Published.
-- Tests modules hold runs on concrete data.
--
-- A method on `&mut self` takes the state and returns the new state beside its answer. A history is
-- a list of calls, run from the empty state; in the registry a call is the whole method, since each
-- runs under the lock of its manager. The manager of GPIO sessions waits outside its lock, so its
-- calls are cut into steps at the waits, and a step relation lets them interleave. Errors are
-- values of `HalResult` with the source's names, categories and messages. A `u64` is a native
-- number with the checks that the source makes at its upper end (`checked_add`, `saturating_add`),
-- and a `usize` has 64 bits. The loops are structural recursion: on the entries of a context, on
-- the order of closed sessions, on the sessions of an owner, and on the number of slots of a ring
-- that are left. Printing a `u64` uses twenty rounds, and 2^64 has twenty digits.
--
-- A message is a record with the fields of its protobuf message: an absent message is an `Option`, an
-- enumeration is the number on the wire, and `bytes` are a list of numbers. A negative `i32` names no
-- value of an enumeration, as no natural number above the last one does. A decoder gives the error
-- that the source gives; the text of an error that `map_err` throws away is not seen.
-- `OpenUsbResponse` and `OpenGpioResponse` have the same fields and one model. A `Duration` is a
-- number of nanoseconds, in the CAN requests of milliseconds.
--
-- The identifiers that `LeaseId::new` draws (UUIDs), the handle of an actor and the answer of its
-- queue (tokio) are parameters, and so are the operating system's answers to a lock and an unlock
-- of a shared mapping and what a capture's copier does. A `watch` channel is the last value sent. A
-- hash map is an association list with one entry per key; its order of iteration is not the
-- source's. A GPIO worker is what its channels hold: whether it has answered the open, whether it
-- was asked to close and whether it has ended. A time limit is a choice of the step: a wait may end
-- before the worker does. A CAN channel is a state with what `send` makes of it, and what `receive`
-- returned. Not modelled: the serde visitors, `Debug` and `Display`, event subscriptions, the
-- command queue of a GPIO worker and the native session behind it, the clean-up signals, bus events
-- and thread of a CAN actor, the CAN, camera and USB managers, the bytes of a mapping's header, the
-- camera messages and the frame codec of the protocol, the broker, the rest of the client, the
-- native adapters.
pub mod Prelude
pub mod Core
pub mod Protocol
pub mod Runtime
pub mod Can
pub mod Camera
pub mod Devices
