-- ===== src/Windows.antt =====
-- src/os_impl/windows.rs.
pub mod Platform
pub mod Mapping
pub mod Options
pub mod Map
pub mod Kernel
pub mod Handles
pub mod Failure
pub mod Protection
pub mod Backend
pub mod Builder
pub mod Access
pub mod Jit
pub mod Gated
pub mod Ranges
pub mod Areas
pub mod Simulated
pub mod Examples
