-- ===== src/Linux.antt =====
-- src/os_impl/linux.rs.
pub mod Combine
pub mod Number
pub mod Region
pub mod Gives
pub mod Line
pub mod Open
pub mod Examples
