-- ===== src/ProxyAllocator.antt =====
-- ProxyAllocator.h and ProxyAllocator.cpp: the arena's sub-allocator.
pub mod Align
pub mod FreeList
pub mod SizeClasses
pub mod Arena
pub mod Reserve
pub mod Init
mod Tests
mod EdgeTests
