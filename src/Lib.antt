-- ===== src/Lib.antt =====
-- Verification library of the RP2350 KeyMouse bridge firmware: a serial protocol over USB CDC whose
-- frames press keys, move the mouse and collect batches, for a host that may retry, cancel and lose
-- the line.
--
-- The parts, in the order in which a byte goes through them:
--
--   * Stream (src/frame_stream.rs, and `drain_frames` and the packet loop of src/runtime.rs): the
--     receive buffer as its array and length; what the framing decides at its head, the drain of
--     whole frames, the copy of packets and the timer of a partial frame.
--   * Protocol (src/protocol.rs): frames, the CRC, the encoder and the decoder, and the check of a
--     request's version, flags and sequence.
--   * Commands (src/commands.rs, src/owned_command.rs, and `encode_owned_command` of src/runtime.rs):
--     payloads to commands, commands to payloads, and the key strokes of ASCII text.
--   * Input (src/input_state.rs): the six-key keyboard, the mouse buttons, the plans of taps and
--     clicks, the reports of a long movement, and the strokes of a text.
--   * Batch (src/batch.rs): the collector of a batch with its shadow of the input state.
--   * Coordinator (src/coordinator.rs): admission, the response cache, completion tokens, and who owns
--     the executor. Admit has the admission itself; Cache the entries, `insert_active` and `complete`;
--     Meanwhile what happens while a request is active, and Retry what its retries get.
--   * Execution (src/execution_core.rs and the payloads of src/firmware_config.rs): commands and batches
--     on a backend, which is a record of the calls of the trait `ExecutionBackend` over a state of its
--     own; so every statement holds of any backend. Monad has the computations on it; an `await` is the
--     call it waits for.
--   * Stop (src/stop_core.rs): the cancellation of the running work and the one release that answers
--     all the stops that wait for it.
--   * Safety (src/safety.rs): leases, deadlines of partial frames, cancellation generations.
--   * Executor (src/command_executor.rs, src/hid_report.rs): the backend that writes HID reports, and the
--     wait that a cancellation ends.
--   * RuntimeSafety (src/runtime_safety.rs): the lease of the controlling host over its sessions.
--   * Runtime (src/runtime.rs, src/response_writer.rs): Runtime.antt has the dispatch of an admission,
--     Round.antt a round of the dispatcher's loop, Jobs.antt the executor's jobs, and Session.antt the
--     rounds of the tasks for the lease, the control lines and the responses. Run.antt has the states
--     that the dispatcher reaches.
--   * Led (src/led.rs): the animation of the status LED.
--   * Errors (src/error.rs): the error codes of the wire.
--   * Model (`RuntimeModel` and `IncomingRequest` of src/coordinator.rs): the ordering of the dispatcher
--     for tests on the host; Model/Dispatched.antt compares it with the dispatcher.
--   * Hidctl (tools/hidctl/src/keys.rs, script.rs, client.rs): the host's tool: its script language and
--     the plan of a script, the reader of responses and the retries of a command. Parse.antt is the
--     language, Script.antt the plan, Reader.antt and Sender.antt the client.
--   * Common: lists, results, machine words and bits that these share, and the interface Heapless.
--
-- How the code is read. Functions keep the source's names; a method takes its receiver first and
-- returns what it leaves of it. A `Result` is `Result E A`; where an error leaves the receiver as it
-- was, the new receiver is the value of `ok`. A panic is `none`. Machine words are natural numbers
-- with their wrap-around written out; `i8` and `i16` are integers. Iterators with `find`, `position`
-- and `filter` are functions on lists; a `for` or `while` loop is recursion on the list it walks or
-- on fuel.
--
-- How the parts of the runtime meet. A task is the function of one of its rounds: it takes the task's
-- locals and what the round received or read, and gives the signals, jobs and responses it sends as a
-- list of outputs in their order, with the locals afterwards. `dispatcher_step` sends an `ExecutionJob`,
-- `run_job` makes an `ExecutionResult` of it, which comes back as the dispatcher's `Wake`;
-- `apply_runtime_safety_action` sends the event that comes back as `on_safety_event`. The
-- cancellation signal, the timer and the HID writers are the record `Device` over a state of its own,
-- the serial port of the host's tool is what each of its reads and writes meets (`Attempt`).
--
-- Fuel. `drain_frames` gets as much as there are bytes in the buffer and `receive_packet` one for each
-- byte of a packet, and each round consumes at least one; `steps` of a movement of an `i16` ends within
-- 259 reports, so the 260 of `move_steps` are enough; `completed_index` makes the 64 rounds of
-- the source; `scan` and `split_loop` of the host's tool get the length of their input and one, and each
-- round but the last takes something of it. Where one of the theorems below is about such a function,
-- that the fuel is enough is part of it. `wait_for_generation_change` is a race of a timer with a
-- signal that only the environment bounds, and its fuel is a parameter of the definitions.
--
-- The crate heapless is not in the repository. Its vectors are the parameter `Heapless` of the
-- definitions that use them, with the documented behaviour of `push` and `extend_from_slice` as the
-- hypothesis `IsHeapless`; `list_vec` is a vector that meets it.
--
-- The host's tool reads text as lists of code points; `Hidctl.antt` has what the source uses of
-- Rust's strings and number parsers.
--
-- Not modelled: the waits of the receive task of src/runtime.rs on its endpoint and the task of the
-- keyboard LEDs, the serial ports, threads and argument
-- parser of tools/hidctl/src/client.rs and main.rs, and tools/webui. The embassy runtime, its channels and
-- the USB stack are not in the repository, and src/main.rs, src/usb_device.rs and
-- src/static_resources.rs only call them.
pub mod Common
pub mod Protocol
pub mod Safety
pub mod Stream
pub mod Commands
pub mod Input
pub mod Batch
pub mod Coordinator
pub mod Stop
pub mod Execution
pub mod Executor
pub mod RuntimeSafety
pub mod Runtime
pub mod Model
pub mod Led
pub mod Errors
pub mod Hidctl
