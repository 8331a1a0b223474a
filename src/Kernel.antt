-- ===== src/Kernel.antt =====
-- backend/app/kernel: the registry of services and the order in which they start.
pub mod Registry
mod Tests
