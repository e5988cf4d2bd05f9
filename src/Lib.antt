-- ===== src/Lib.antt =====
-- The C++ parts of the Consistent Block Encrypter (CBE): its plugin for Genode's virtual file system
-- (VFS), which stands between a client that reads and writes files, the CBE library, the crypto
-- component and the file of the block back end; and the programs that test the CBE and initialise,
-- check and dump its devices.
--
-- The parts and how they interact. A client calls `read`, `write` and `sync` of the data file
-- (`Data_file_system` in src/lib/vfs/cbe/vfs.cc). They submit one request at a time to the
-- `Wrapper`, whose `handle_frontend_request` runs rounds of three handlers until a round makes no
-- progress: `_handle_cbe_frontend` moves requests of the client into the CBE and data between the
-- two, by way of two helper requests for what is not aligned to blocks; `_handle_cbe_backend` carries
-- out one I/O request of the CBE at a time by an `Io_job` (src/lib/vfs/cbe/io_job.h);
-- `_handle_crypto` passes keys and blocks to the crypto component. Background requests (rekeying,
-- extending, creating and discarding a snapshot) are submitted by operations of the `Wrapper` and
-- collected by the same loop as the client's. What they exchange is declared in
-- include/cbe/types.h.
--
-- The programs under src/app do without the plugin. The tester (src/app/cbe_tester/main.cc) reads
-- tests from its configuration, starts one at a time by a request to the CBE or to the library that
-- initialises, checks or dumps a device, and passes the block and crypto requests of these on;
-- cbe_init, cbe_check and cbe_dump do so for the one request of one library each. vfs_replay
-- (src/app/vfs_replay/component.cc) replays reads, writes and syncs on a file of the VFS.
--
-- Which file models which part.
--   Types, Types/Convert: include/cbe/types.h, with `convert_from` and `convert_to`.
--   Interfaces: the CBE library (include/cbe/library.h), the crypto component
--     (include/cbe/external_crypto.h) and the back end's file, as records of operations over a state
--     of any type. Interfaces/Contracts states what the proofs rely on of them, as records of named
--     hypotheses, and Interfaces/Samples has concrete values which meet them.
--   IoJob: `Io_job`; its children are about its step relation (Machine), its bounds (Progress), a
--     run of a whole job (Transfer), and what such a run reads and writes (Reading, Writing,
--     Correctness). Calls is about the notifications that a job sends to the CBE.
--   Wrapper: the state of `Wrapper` and its small operations. Wrapper/Submit is
--     `submit_frontend_request`, Wrapper/Backend `_handle_cbe_backend`, Wrapper/Frontend
--     `_handle_cbe_frontend`, Wrapper/Encryption `_handle_crypto`, and Wrapper/Handle
--     `handle_frontend_request`, `start_rekeying`, `start_extending`, `create_snapshot`,
--     `discard_snapshot`, `active_snapshot_ids` and `_notify_backend_io_progress`.
--     Wrapper/Frontend has a module per stage of that function (Admit, Complete, Helper, Transfer) and
--     modules of proofs (Invariant, Safety, Range, Merge, Settled), Wrapper/Encryption one about the way
--     of a block (Blocks), and Wrapper/Handle those about the whole loop (Invariant, Keeps, Control,
--     Settled).
--   DataFile: `Data_file_system`; Session is about every history of calls, Replies about the replies.
--   Snapshots: `Snapshots_file_system`, the directory of snapshots: its registry (Updates, Lookups), its
--     paths (Paths), its directory service (Directory), its handles (Handles), and what a client lists
--     (Listings).
--   ControlFiles: the files `extend`, `rekey`, `create_snapshot` and `discard_snapshot`; Writes says when
--     they take what is written.
--   BlockIo: the loops for block I/O that each of the programs has a copy of; Pairing is about what a
--     library is told.
--   Configuration: include/cbe_init/configuration.h.
--   Tools: src/app/cbe_check/main.cc, src/app/cbe_dump/main.cc, src/app/cbe_init/main.cc;
--     Exits says how often they exit.
--   Tester: src/app/cbe_tester/main.cc: the queue of tests (Tester), the tree of snapshots (Snapshots),
--     the tests of the configuration (Config), the class `Main` (Main, Cbe, Background, Exchange,
--     Execute, in the order of the code), and its histories (Histories), whose proofs are under Invariant
--     (the flags and the state) and Order (the order of the tests).
--   Replay: src/app/vfs_replay/component.cc; Loop is the loop over the nodes, Memory and Order are
--     about its histories, Steps and Termination about how long it takes.
--   Log: `print_cstring_buffered`, and in Lines what it logs.
--   Interfaces/Session and Interfaces/Programs: the block session and the libraries of the programs,
--     and concrete values of them.
--   Prelude: numbers, lists, memory (`memcpy` on functions from addresses to bytes) and the results
--     of code that throws.
--   The modules named Tests run the definitions on small components.
--
-- Conventions. Numbers are natural numbers; where the source's 32 or 64 bits may wrap, the
-- definition reduces the result (`u32`, `u64`), except for the position of an I/O job in the back
-- end, for which it matters only in a job that reaches beyond 2^64. Memory is a function from
-- addresses to bytes, and a pointer in a request is an address. A method is a function from the
-- state to the state and its result; an exception is a value `throw`. Log output is left out, but
-- for the lines by which the tester says that it takes up a test.
--
-- Fuel. A loop `while (true)` takes fuel and throws `out_of_fuel` when it is used up. The loop that
-- collects requests needs one round more than there are completed requests in the CBE
-- (`drain_ends`), and a run of an I/O job needs its measure (`run_ends`); the rounds of
-- `handle_frontend_request` and `_handle_crypto` have no bound in the code, since the CBE and the
-- crypto component may make progress forever, so theorems about them speak of calls that return. The
-- loops for block I/O of the programs go round twice at most (`exchange-Good`); vfs_replay needs three
-- for each byte and node that is left (`replay-Returns`); the tester's `_execute` has no bound either,
-- for the same reason.
--
-- What is not modelled: the CBE library itself and the other libraries under src/lib, which are
-- written in Ada and SPARK; their bindings; the factories of the VFS plugin; src/app/cbe_tester/util.h,
-- which the tester includes and does not use; the entry points and signal handlers of the programs; what else goes to the
-- log, apart from `print_cstring_buffered`; how XML is parsed; and the mutex, since a call is one step.
pub mod Prelude
pub mod Types
pub mod Interfaces
pub mod IoJob
pub mod Wrapper
pub mod DataFile
pub mod Snapshots
pub mod ControlFiles
pub mod BlockIo
pub mod Configuration
pub mod Tools
pub mod Tester
pub mod Replay
pub mod Log
