-- ===== src/Pool.antt =====
-- internal/pool: the manager that keeps the pool of VMs.
pub mod Sizing
pub mod Config
pub mod Handlers
pub mod Sweeps
pub mod Vmids
pub mod Targets
pub mod Adoption
pub mod DestroyQueue
pub mod Workers
pub mod Eviction
pub mod Parked
