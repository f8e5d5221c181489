-- ===== src/Domain.antt =====
-- aquaops/domain and aquaops/db: the persisted rows, the transaction boundary and the services.
pub mod Models
pub mod Session
pub mod Services
pub mod Transition
pub mod Ownership
mod Samples
