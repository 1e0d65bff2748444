-- ===== src/Lib.antt =====
-- The native core of node-serialport-rs: the Rust library that Node loads to use serial ports.
--
-- JavaScript holds a `NativePort` (src/lib.rs). Its calls check their arguments, try to write at
-- once, or put commands into a bounded channel. A task on an I/O worker (src/reactor.rs, on a
-- worker of src/workers.rs) opens the port, takes commands from the channel, serves the ordered ones
-- from the front of its own queue, polls reads and writes in turn (src/transfer.rs), and reports
-- each result as an event that a callback turns into JavaScript values. Both sides share a
-- `Control`: the flag `stop`, the count `pending_ops` of ordered commands, and the port itself in a
-- mutex.
--
-- Which file models what:
--   Prelude, Io, Bits    shared names, lists over the native numbers; `std::io` and `Poll`; the
--                        binary digits of `&` and `|`
--   Error, Command       src/error.rs and src/command.rs, with the same function names
--   Transfer             src/transfer.rs: `poll`, `poll_read`, `poll_write`, `retry_interrupted`
--   Event                src/lib.rs: `NativeEvent`, `CallbackEvent`; `read_event` is
--                        `CallbackEvent::read`, `deliver` is the closure in `NativePort::new`, over
--                        the memory that the allocator manages (Event.Memory)
--   Serial, Platform     the port behind src/platform.rs as a parameter, with its laws in
--                        Serial.Laws; `set_baud_rate` and `baud_rate` of src/platform.rs
--   Platform.Unix        src/platform/unix.rs: the stream over a descriptor and its system calls,
--                        which is a port in the sense of Serial; Platform.Unix.Open its `open`, and
--                        `open` of src/platform.rs
--   Platform.Windows     src/platform/windows.rs: `open` over the calls of Windows, and the methods
--   Platform.Termios     `configure` of src/platform.rs for Unix, and `set_baud_rate` and
--                        `baud_rate` in the build for macOS; Platform.Dcb is `configure` for Windows
--   Port.New             src/lib.rs, `NativePort::new`, with `spawn` of src/workers.rs
--   Cleanup              src/lib.rs: `register_cleanup`, the registries and the hook of Node
--   Listing              src/lib.rs, `PortInfo` and, in Listing.Task, `ListTask`; Listing.Ids is
--                        `port_ids` of src/platform.rs; Listing.Identity, Listing.Metadata and
--                        Listing.Registry are src/platform/windows_list.rs and its child `os`;
--                        Listing.Location is src/platform/macos_list.rs
--   Control              src/lib.rs, `Control`; src/reactor.rs, `with_port`; channel and callback
--   Port                 src/lib.rs, `NativePort`: `enqueue`, `read_port`, `read_credit_port`,
--                        `request`, `close`; Port.Write has `write_port` and `writev_port`
--   Reactor              src/reactor.rs. Reactor.Task is `run` as a state machine of six phases;
--                        Reactor.Serve the inner loop; Reactor.Turn and Reactor.Select the
--                        `select!`; Reactor.Receive and Reactor.Deliver two of its branches;
--                        Reactor.Burst `send_ready_reads`; Reactor.Window the adaptive read size;
--                        Reactor.Operation `operation`
--   Workers              src/workers.rs: `acquire` and the drop of a lease
--   Settings             src/settings.rs: `open`, which checks the options before it opens a device
--   History              all of it: any sequence of JavaScript's calls and of the task's steps. A
--                        `writev` is in three kinds of parts, its call, its elements one by one, and
--                        its end, between which other calls, `writev` too, and steps may come; the
--                        calls in progress are a stack (History.Frames). History.Vector has the
--                        parts in one piece
--   Ledger, Stream       the invariants over the whole: what `pending_ops` and `written` count, and
--                        the order of the bytes on their way to the device
--   Reads                the bytes on their way from the device to JavaScript
--   Wire                 a concrete device, channel and callback, for tests
--
-- Numbers are natural numbers; `pending_ops` and the workers' `ports` wrap at 2 ^ 64 where the code
-- adds and subtracts. A byte is any number, since bytes are only moved. A flag word of Windows is a
-- number of 32 bits, and a text that is looked into is a list of bytes, or of UTF-16 units.
--
-- Fuel: `next_power_of_two` doubles at most 63 times, which reaches every length up to 2 ^ 63; the
-- burst loop runs at most 15 rounds, which is the bound of the loop itself. The loops of the Unix
-- stream end when the readiness events that are noted, or the signals that interrupt a drain, are
-- used up, and fuel above their number is enough. `enumerate` counts the rounds of a loop that has
-- that bound in the code, `u32::MAX`. The reactor's outer loop does not end by itself, so it is a
-- step function and not a loop.
--
-- What one step is: a call of JavaScript, or what the task does between two points at which it may
-- let others run. Within a step nothing else happens, with three exceptions that are inputs of the
-- step: whether the worker holds the mutex when `write` tries it, what a burst sees of `stop`, of
-- `pending_ops` and of Tokio's budget, and, where `writev_port` is looked at by itself, what the
-- reading of its elements does; in a history each element is a step of its own. The awaited drain of
-- the driver counts as part of its step.
--
-- Not modelled: the start of a worker's thread and of its runtime, the poisoning of a mutex while
-- it is held (that it is poisoned is), and the TypeScript layer. SetupAPI, the registry, the
-- directory of port names, `available_ports`, the calls of the kernels, the crates' ports and the
-- executor are parameters. `Settings` has `open` and `configure` as parameters of its own.
pub mod Prelude
pub mod Bits
pub mod Io
pub mod Workers
pub mod Error
pub mod Command
pub mod Transfer
pub mod Wire
pub mod Event
pub mod Serial
pub mod Listing
pub mod Settings
pub mod Platform
pub mod Control
pub mod Cleanup
pub mod Port
pub mod Reactor
pub mod Ledger
pub mod History
pub mod Stream
pub mod Reads
