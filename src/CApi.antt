-- ===== src/CApi.antt =====
-- rgpot-core/src/c_api: the exported functions.
pub mod Types
pub mod Potential
pub mod Rpc
