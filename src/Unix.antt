-- ===== src/Unix.antt =====
-- src/os_impl/unix.rs.
pub mod Platform
pub mod Libc
pub mod Options
pub mod Kernel
pub mod Mapping
pub mod Map
pub mod Backend
pub mod Builder
pub mod Exclusive
pub mod Handles
pub mod Process
pub mod Calls
pub mod Simulated
pub mod Jit
pub mod Gated
pub mod Failure
pub mod Ranges
pub mod Typed
pub mod Opened
pub mod Examples
