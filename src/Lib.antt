-- ===== src/Lib.antt =====
-- rgpot-core: the Rust core library of rgpot, which computes energies and forces of atoms through
-- callbacks, in the process or by remote calls.
--
-- The parts and their files, with the sources from the root of the repository:
--   Status: rgpot-core/src/status.rs. Status codes, the last error of each thread, `catch_unwind`.
--   Layout, Types: rgpot-core/src/types.rs and the structs of potential.rs, tensor.rs and DLPack.
--   Tensor: rgpot-core/src/tensor.rs. Strides, tensors over borrowed and owned buffers, their
--     deleters, `rgpot_tensor_*` (Tensor/CApi) and the validation helpers (Tensor/Validate).
--   Tensor/Store: the calls of a C caller together, over all files of c_api and tensor.rs. Store/Calls
--     lists the calls, Store/Table the abstract table of tensors that they are about, Store/View
--     reads that table off the memory, Store/Allowed says which calls a memory allows, and Store/Tidy
--     says what each block in use is there for.
--   Potential, CApi/Potential: rgpot-core/src/potential.rs and c_api/potential.rs. The handle that
--     wraps a callback, its user data and a destructor.
--   CApi/Types: rgpot-core/src/c_api/types.rs. Inputs and outputs for C callers.
--   Rpc/Client, CApi/Rpc: rgpot-core/src/rpc/client.rs and c_api/rpc.rs. A remote calculation.
--   CApi/Rpc/System: client processes and a server process, each with its own memory, and the calls
--     between them, whether they are answered or lost.
--   Rpc/Server: rgpot-core/src/rpc/server.rs. What the server does for one `calculate` call, and the
--     listening server (Rpc/Server/Start).
--   Rpc/Wire: what the two sides use of capnp and the network.
--   Suite: the `#[cfg(test)]` modules of these files, with the callbacks that they register. Tests/Suite
--     runs them.
--   Build: rgpot-core/build.rs, over a small file system (Build/Disk).
-- A C caller makes tensors and an input, and hands them to a potential's handle or to a client's.
-- The client sends the input's three lists; the server wraps them in tensors of its own, calls its
-- callback, copies the forces, frees all tensors and answers; the client fills the output in.
--
-- How it is modelled. A world (Memory) holds the blocks of the heap by address, the address given
-- out next, and each thread's last error. Code is a command: from a world to a value and a world, a
-- panic, the end of the process, or undefined behaviour. A read or a write through NULL or through
-- a pointer to a freed block or a block of another type, a slice longer than its buffer, and a
-- double free are undefined. `Box::new`, `Vec` buffers and the structs whose address is passed on
-- are blocks of their own; addresses are not reused, and the memory does not run out. Integers are
-- the numbers of their bit patterns: a multiplication in i64 or usize is tested for overflow, and
-- panics or wraps modulo 2 ^ 64 by the world's `overflow_checks`. The target has 64-bit pointers.
-- Doubles are bit patterns, since the crate never computes with them; the tests turn integers into
-- doubles (Suite). A panic that reaches the edge of an `extern "C"` function ends the process, as it
-- does from Rust 1.81 on (pixi.toml admits 1.75, for which it is undefined). The loop of the strides is structural in its index, and no definition runs on fuel: the loop that
-- accepts connections is structural in the list of events that reach the socket, which ends with a
-- failed `accept`. The build script runs over the files of its machine, by their paths as written; a
-- panic of it carries the name of the call that failed where std's message would name the cause.
--
-- Parameters: the C functions called through pointers (Foreign); capnp's list builders (ListBuilder,
-- with the behaviour that IsListBuilder names: lists of fewer than 2 ^ 29 elements; what it refuses is
-- a panic with capnp's own payload), its accessors (InputReader, ResultReader) and one
-- exchange with the remote side (Network); a listening socket with its events (Listener); the UTF-8
-- check of a host string, the outcome of `Runtime::new()`, and the `{:?}` of a DLPack type; cbindgen
-- (with the behaviour that IsCbindgen names) and the capnp compiler (IsCapnpc, with the
-- translation of a schema as a function that may refuse it).
--
-- Not modelled: the code and the header that the build generates; tokio's scheduling (a
-- client's call is driven to its end before it returns, and a server's calls run one after the
-- other, since its method never awaits); the C++ wrappers and potentials, the Python code and the
-- documentation.
pub mod Prelude
pub mod Layout
pub mod Memory
pub mod Status
pub mod Foreign
pub mod Tensor
pub mod Types
pub mod Potential
pub mod CApi
pub mod Rpc
pub mod Suite
pub mod Build
pub mod Tests
