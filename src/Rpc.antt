-- ===== src/Rpc.antt =====
-- rgpot-core/src/rpc: the client and the server of Potentials.capnp.
pub mod Fallible
pub mod Wire
pub mod Client
pub mod Server
