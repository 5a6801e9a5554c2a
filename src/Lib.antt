-- ===== src/Lib.antt =====
-- APF-UE4SS: the framework core (APFrameworkCore), which connects game mods to an Archipelago
-- server, and the library of its clients (APClientLib). Mods declare locations and items in manifests; the framework validates them, numbers
-- them, waits for the mods to register, and then routes checks to the server and items to the mods.
--
-- The parts, and the files that model them:
--   Types                 APFrameworkCore/include/ap_types.h: enumerations and structures. The type
--                         `J` stands for nlohmann::json, which is not in the repository; Types/Json
--                         is its interface, with the documented behaviour as laws.
--   Sha1                  class SHA1 of APFrameworkCore/src/ap_capabilities.cpp: words are numbers
--                         below 2^32, the bit count is kept modulo 2^64.
--   Capabilities          class APCapabilities of the same file: add_manifest, assign_ids and the
--                         searches; Capabilities/Validate for validate, Capabilities/Checksum for
--                         compute_checksum and generate_capabilities_config.
--   Registry              APFrameworkCore/src/ap_mod_registry.cpp: discovery, registration, queries;
--                         Registry/Pattern for the regular expression of the priority clients,
--                         Registry/Parse for parse_manifest.
--   Session               APFrameworkCore/src/ap_state_manager.cpp: the session state in memory;
--                         Session/File for the session file (SessionState::to_json and from_json of
--                         ap_types.h, load_state, save_state).
--   Router                APFrameworkCore/src/ap_message_router.cpp: each operation is a function of
--                         the router's state that returns the new state and the list of effects
--                         (messages sent or broadcast, checks and scouts handed to the server).
--   Manager               APFrameworkCore/src/ap_manager.cpp: init, the state handlers of `update`
--                         and the transitions; Manager/Messages for the messages of the
--                         clients, the events and `update` itself, Manager/Messages/Commands for the
--                         registrations and the commands.
--   Queue                 APFrameworkCore/include/thread_safe_queue.h: the queue between threads as
--                         steps under its mutex.
--   Retry                 APFrameworkCore/include/retry_util.h: the three retry functions, with
--                         StopToken as what it answers; Retry/Laws, Retry/Pauses and Retry/Simple
--                         for their proofs.
--   Pipe                  the wire format of APFrameworkCore/src/ap_ipc_server.cpp and
--                         APClientLib/src/ap_ipc_client.cpp; Pipe/Server and Pipe/Server/Messages
--                         for the server, Pipe/Client for the client.
--   Configuration         APFrameworkCore/src/ap_config.cpp and its structures in ap_types.h.
--   Actions               APClientLib/src/ap_action_executor.cpp, with sol2 as an interface.
--   ClientManager         APClientLib/src/ap_client_manager.cpp and the log levels of
--                         APClientLib/include/ap_client_types.h.
--   Polling               APFrameworkCore/src/ap_polling_thread.cpp and the events of
--                         APFrameworkCore/include/message_queues.h.
--   ClientMessages        `handle_message` of APClientLib/src/main.cpp; ClientMessages/Invoke for the
--                         calls of the mod's callbacks, whose outcomes come in as values.
--   Prelude, Examples     shared helpers; fixtures, tests and the theorems at concrete inputs.
--
-- How the parts interact: the manager holds registry, capabilities and session. The router of the
-- program points to the latter two; here `Manager.router` builds the router's view of them and
-- `with_router` takes its changes back. `init` fills the capabilities from the registry's enabled
-- manifests. The mutex of the manager is not recursive: the functions that lock it take whether the
-- calling thread holds it, and return `deadlock` if so (the usual form of what is undefined
-- behaviour in C++); `thrown` is an exception of the JSON library, or of
-- std::stoll on the session file.
--
-- The server's connections and the client meet in the wire format: `encode` gives the bytes that one
-- side writes, `extract` and `decode` what the other makes of its read buffer. The results of the
-- Windows calls (ReadFile, WriteFile, GetOverlappedResult, CreateFileA) are arguments, and what is
-- done to a pipe or through a handler comes back as a list of effects. The read buffers hold 65536
-- bytes; what a read makes of a longer message is a hypothesis on ReadFile. The router's EXECUTE_ACTION
-- is the payload of Actions; the events of Polling are those that Manager/Messages handles.
--
-- Choices: numbers are the native ones, ids and counts are integers over them without a width (the
-- program's ids start at a configured base and its counts are far from their limits); lengths on the
-- pipe wrap modulo 2^32. The clock of the session is in its own ticks, and its conversions to whole
-- seconds are a parameter. The type double is a parameter `D` or `J`. A std::map with text keys is an
-- ascending list; an unordered_map is a list in the order in which keys came in, one of the orders it
-- may have. The loop of the SHA-1 padding runs on 64 units of fuel, and the loops of Retry on fuel
-- above the number of rounds; it is shown that these are enough. All other recursion is structural.
-- Clocks, the slot's connection, the number of clients and the contents of files are inputs; within
-- one call the clock is read once. An exception is none, or a constructor of its own where some are
-- caught and others not.
--
-- Not modelled: log output of the framework, the Lua module and its exports (glue to Lua), path
-- utilities and the file system, the wait loop of the server's I/O thread and the loop of the polling
-- thread (threads and waits of the system), the wrapper of the server's client
-- (APFrameworkCore/src/ap_client.cpp, around a submodule that is not in the repository), AtomicState,
-- the search of the client library for its mod folder, the Lua functions that
-- APClientLib/src/main.cpp exports and its log, the Lua mods and the Python world.
pub mod Prelude
pub mod Types
pub mod Sha1
pub mod Capabilities
pub mod Registry
pub mod Session
pub mod Router
pub mod Manager
pub mod Queue
pub mod Retry
pub mod Pipe
pub mod Configuration
pub mod Actions
pub mod ClientManager
pub mod Polling
pub mod ClientMessages
pub mod Examples
