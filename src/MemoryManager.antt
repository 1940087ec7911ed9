-- ===== src/MemoryManager.antt =====
-- MemoryManager.h and MemoryManager.cpp: the manager that the hooks call.
pub mod Counters
pub mod Proxy
pub mod Corral
pub mod Report
