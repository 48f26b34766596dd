-- ===== src/Fds.antt =====
-- The virtual file descriptors of a machine: lib/tinykvm/linux/fds.cpp and fds.hpp, and the handlers
-- of lib/tinykvm/linux/system_calls.cpp that open, duplicate and close them.
pub mod Map
pub mod Host
pub mod Manage
pub mod Translate
pub mod Reset
pub mod Calls
pub mod Owners
pub mod Managed
pub mod Translated
pub mod Isolated
pub mod Controlled
pub mod Restored
pub mod Run
pub mod Settled
pub mod RoundTrip
pub mod Epolls
pub mod Limits
pub mod Bounds
mod Tests
