-- ===== src/Paging.antt =====
-- lib/tinykvm/amd64/paging.cpp: the guest's page tables.
pub mod Entry
pub mod Memory
pub mod Walk
pub mod Writable
pub mod Leaf
pub mod Fork
pub mod Isolation
pub mod IsolatedLeaf
pub mod IsolatedHuge
pub mod IsolatedWalk
mod Tests
