-- ===== src/Hooks.antt =====
-- WorkingHooks.cpp: the hooks of the allocation functions and the tables that they keep.
pub mod VatTable
pub mod Modules
pub mod Moves
pub mod Heap
pub mod HeapUse
pub mod Shards
pub mod Diagnostics
pub mod Virtual
pub mod Win32
pub mod MapView
pub mod MapFile
pub mod Native
pub mod Switches
pub mod Dbpf
