-- ===== src/Lib.antt =====
-- A model of the libfabric benchmark in CBM_Benchmark, with proofs.
--
-- The program runs on three kinds of hosts. The clients (entry nodes) write to the memory of the
-- servers (processing nodes) as fast as they can; the controller (central node) connects to all of
-- them, starts the clients, asks them for a row of transfers at each checkpoint and at the end, and
-- writes a report. All of them talk through libfabric: endpoints, two completion queues and an event
-- queue, all polled by one thread.
--
-- Which file models what:
-- - Config, Config/Read: CBM_Benchmark/Config.h and Config.cpp, the settings and `readConfig`; Text:
--   the functions of the C++ library that it uses. Config/Lines, Config/RoundTrip and Text/Number,
--   Text/Width, Text/Search, Text/Lines are proofs.
-- - Clock: CBM_Benchmark/Clock.cpp.
-- - Fabric: what the code uses of libfabric. The library is no part of the repository and is a
--   parameter: a record of functions that answer each call from the list of all calls before it. A
--   theorem for every `Fabric` holds whatever the network does. Where a theorem needs a documented
--   property of the library, it is the hypothesis `IsDocumented`: a poll has no status 0.
-- - Machine: the state of a node (CBM_Benchmark/Node.h, Endpoint.h), with the log of its calls, and
--   the monad of its functions. A run returns (`done`), goes wrong (`fault`: an access out of range,
--   an unset pointer, a "%s" of a number, a message that is read as what it is not), or is still
--   polling when its fuel is used up (`spin`). Machine/Ensures has the rules to reason about runs.
-- - Poll: `checkComp`, `waitComp`, `checkCmEvent`, `waitCmEvent` of CBM_Benchmark/Node.cpp.
-- - Endpoint: CBM_Benchmark/Endpoint.cpp, and Endpoint/Connect its `connect`.
-- - Node/Init, Node/Listen, Node/Client, Node/Client/Benchmark, Node/Controller: the functions of
--   CBM_Benchmark/Node.cpp under their names in snake_case. Node/Destroy: the two destructors.
--   Node/Controller/Cooperation says what the controller waits for of its clients. The other children
--   of these modules are proofs about them.
-- - Traffic: what a log adds up to, the messages sent, the receives posted and the completions read;
--   Traffic/Orders: the commands among the messages.
-- - Main: CBM_Benchmark/Main.cpp, the three programs, the timed loop, the report, `main`.
--   Main/Campaign follows the controller's program from its start to its end, through the functions
--   of all the modules above; Main/Sessions is the protocol of one client as a state machine.
--   Main/Answers follows the client's program in the same way. Main/Completing has the controller
--   reach its end when the clients answer it.
-- - Host: CBM_Benchmark/host2ip.cpp.
-- - Base: numbers, lists and Boolean tests; Tests: runs at concrete inputs.
--
-- Fuel: `fuel` counts the polls of one wait, `turns` the turns of a loop that depends on the
-- network. Where all queues answer within a number of polls, that number is enough fuel. The loops
-- with a fixed number of turns have no fuel. The fuel of `Text.format` is above its number.
--
-- Numbers: an `int` or `long` is an unbounded integer, except where the code converts: `size_t` wraps at
-- 2^64, the size in a context wraps at 2^32, `stoi` rejects what is no `int`. The counters of the code
-- would overflow only after 2^63 completions. Seconds are whole numbers of nanoseconds, so that
-- the rounding of `double` is not modelled. A call that returns an error code as `ssize_t` keeps it.
--
-- Memory: an endpoint's buffers hold one message of a known shape; a receive that completes puts its
-- message in the buffer of the endpoint whose context the completion carries. `free` of a context is
-- noted in the log, but does not invalidate it; Node/Client/FreedContext reads its use off the log.
-- `malloc` succeeds, and the opening of an endpoint's memory regions too. What the code reads unset
-- is a parameter (`unset`).
--
-- The start signal: the comments at CBM_Benchmark/Main.cpp:85 and Node.cpp:629 and the process model
-- doc/Benchmarking_process_model.bpmn have start sent to all hosts. The code sends it to the clients
-- only, and so does the model; a server waits for the stop alone.
--
-- Simplified: `atoi` outside the range of `int` has no defined result in C; here it is the exact
-- number. `dispatch` sets this case apart (`undefined`), and so it does a port that is longer than the
-- text it is written over; the ports of Node/Init are not tested in this way. The one-byte buffers that
-- `Node::init` writes these ports to (`new char(10)`) are no faults: every endpoint has its whole port.
-- The constructor of an endpoint calls fi_getinfo, which is taken to succeed and is not in the log.
-- Texts have no zero byte, so that `strcpy` to a C string keeps all of a text. The place i * m + j of a
-- line of the report is unbounded, where the code has an `int`. Printing is left out also where it
-- comes before a guard, as in `controllerCheckpoint`, which prints before it tests the mode.
--
-- Not modelled: printing, the output file's name and opening, and the NUMA binding, which are input
-- and output; the branches for Windows, which are empty but for the start of its sockets.
pub mod Base
pub mod Config
pub mod Text
pub mod Host
pub mod Clock
pub mod Fabric
pub mod Machine
pub mod Poll
pub mod Endpoint
pub mod Traffic
pub mod Node
pub mod Main
pub mod Tests
