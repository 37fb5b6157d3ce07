-- ===== src/Lib.antt =====
-- Going Unmanaged: the programs of a C++ handbook.
--
-- The repository is a set of small programs, most of them a library with a test program beside it.
-- Those with a logic of their own are modelled here, each by its own tree of modules:
--
--   Formula   exercises/exprlab/expr.cpp and expr.h, the formula field. Formula::Parse runs Tokenize,
--             which is `tokenize` of Formula/Tokenizer.antt, and the recursive descent of class Parser,
--             one definition for each method in Formula/Parser.antt (Comparison is `comparison`, Build
--             is `build`, struct Depth is `enter` and `leave`). Formula::Node is `Node` of
--             Formula/Tree.antt, HeightOf is `height_of`. Eval and Formula::Evaluate are in
--             Formula/Eval.antt. Formula/Grammar.antt is the grammar that the parser is measured by.
--   Spsc      exercises/deadlinelab/spsc_queue.h, the queue between two threads. Each access of TryPush
--             and TryPop to memory that the threads share is one step (`produce`, `consume`).
--   RefCount  exercises/comlab: FakeSDK2.cpp with its counted Things, and in RefCount/Handles.antt the
--             ThingHandle of ref.h. A client is any sequence of host calls and handle operations.
--   Sdk       exercises/fakesdk/FakeSDK.cpp and solutions/fakesdk_solution.cpp: a vendor SDK that
--             allocates, and the worker SumAllThings with the guard that disposes.
--   Interop   exercises/interoplab/marshal.h: UTF-8 to UTF-16 and the count of code points.
--   Plugin    exercises/interoplab/plugin.cpp and plugin.h: the C functions of a plug-in that managed
--             code calls, with the sinks of marshal.h. Plugin_Create is `create`, and so on.
--   Bridge    exercises/bridgelab: MainThreadQueue, StubHostAdapter and BridgeCore. A `Job` is a callable that
--             Post takes, by what it does: it may use the host, post and drain, and it returns or throws.
--             Drain is split into its beginning, the things that its jobs do, and its end, between which
--             other threads post; `drain` is the whole of it with no other thread in between.
--   Strings   exercises/cookbook/strings.cpp: the conversions between UTF-8 and UTF-16 in Strings/Unicode.antt,
--             and split, join, trim and their kind in Strings/Parts.antt.
--   Device    exercises/fakedevice/FakeDevice.cpp, a C SDK that calls back, and in Device/Session.antt the
--             DeviceSession of solutions/device_solution.cpp, which moves while the SDK holds its address.
--   Threaded  solutions/device_threaded_solution.cpp: the same SDK behind a thread of its own. What a thread
--             does between two accesses to shared state is one step: `poller` for Poller::Run with the jobs
--             of its queue, `construct`, `tell`, `ask` and `leave` for Session, `flush` for FlushAndWait.
--             Poller::Run has no bound; Threaded/Ends.antt counts its steps to the end.
--   Buffers   solutions/Buffer.h: class Buffer with its copies and moves, over a heap whose blocks are deleted
--             once. Buffers/Values.antt says which list of ints an object stands for.
--   Config    exercises/cookbook/errors.cpp and expected.cpp, where one configuration is read with exceptions
--             and with results, and beside it flags.cpp and alternatives.cpp.
--   Events    exercises/cookbook/events.cpp: SampleSource.
--   Wire      exercises/capturelab/wire.cpp: frames in network byte order, and the loop that decodes a capture.
--   Engine    exercises/abilab/engine.cpp, and Lookups, exercises/cookbook/lookups.cpp with
--             exercises/reportlab/registry.cpp.
--   Counter   exercises/constlab/counter.h, and SessionLog, exercises/exitlab/logger.cpp.
--   Templates exercises/templatelab: Ring and Join of util.h, and in Templates/Pump.antt the Session of
--             session.h, whose policy is a record with laws. Both policies of policies.h fill it; one of
--             them is a client of Device.
--   Catalog   exercises/retrolab/after/catalog.cpp: a key and value catalog, with Parse in Catalog/Parse.antt and
--             the texts that it is for in Catalog/Parse/Grammar.antt.
--             Catalog/Legacy.antt is before/catalog.cpp, the array of pointers that it replaces.
--
-- Prelude has what they share: Boolean tests, lists over the native numbers, byte strings. Tests has
-- runs of the definitions on concrete inputs.
--
-- Conventions. A string is the list of its bytes. A pointer is a place in a list, and an operation
-- through one whose object is gone, which is undefined in C++, is `none`. An error is a value: Outcome
-- of Formula/Outcome.antt, or the code that the C function returns beside what it wrote.
--
-- Fuel. The loop of Tokenize has a unit of fuel for each byte and one more, for a round takes a byte at
-- least. The parser has ten units for each token and ten more: of the calls below each other, each takes
-- a token or is one of the eight from Comparison down to Primary. An answer from the parser is never
-- that the fuel has run out. Eval is by structure; `eval_within` is Eval with a bound on its nested
-- calls, for the depth of the machine's stack.
--
-- The loops of Catalog::Parse and of the capture have a unit for each byte, for each round takes one at
-- least. The loops of Catalog::Parse are `none` where the fuel runs out, which no text makes happen.
--
-- Bounds. Sizes and counts are natural numbers: no list here comes near 2 ^ 64 elements. The decrement
-- of a count in Sdk, RefCount and Device wraps as a size_t does, and the code units of Interop are cut to
-- 16 bits. An int32_t of Plugin is an integer, and a product out of its range is undefined. The int that
-- Catalog::Parse makes of a long wraps at 32 bits. A negative max_depth behaves as 0.
--
-- Not modelled: floating point, whose operations and std::from_chars are parameters of Formula, whose
-- average is one of Counter, which Describe of Templates leaves out, and which are whole numbers in
-- RefCount and Sdk, where the code only adds whole numbers; the memory orders of the queue's atomics, for
-- which the steps are sequentially consistent; failed allocation, but in Engine_Create; the tree of
-- exercises/framelab; and the other labs, of which many are about a tool, the build or the standard library.
pub mod Prelude
pub mod Formula
pub mod Spsc
pub mod RefCount
pub mod Sdk
pub mod Interop
pub mod Catalog
pub mod Bridge
pub mod Plugin
pub mod Strings
pub mod Device
pub mod Config
pub mod Templates
pub mod Threaded
pub mod Buffers
pub mod Events
pub mod Wire
pub mod Counter
pub mod SessionLog
pub mod Engine
pub mod Lookups
mod Tests
