-- ===== src/Lib.antt =====
-- The verification library of the VAS manager: a DLL that is loaded into a 32-bit game and serves
-- the game's larger allocations from one reserved arena, so that they do not scatter over the
-- address space.
--
-- The parts and where they stand. The hooks (WorkingHooks.cpp) decide which calls to redirect and
-- call the memory manager, which keeps a record for each slot and takes the slots from the arena's
-- allocator; around these stand the pressure monitor, the collector's cadence, the hitch detector,
-- the inventory of mapped views, the dedup table and the trace ring.
--
--   ProxyAllocator        ProxyAllocator.h, ProxyAllocator.cpp. Align is `AlignUp`; FreeList is the
--                         sorted free list (`InsertFreeSortedAndCoalesce`, `TakeFreeFit`);
--                         SizeClasses is the reuse caches (`PopSizeClass`, `PushSizeClass`,
--                         `ReclaimCache`); Arena is the state of the class with `Allocate`, `Free`
--                         and `GetStats`; Reserve is `ReserveArenaContiguous`; Init is the
--                         constructor, `Initialize`, `InitFromShared` and `Shutdown`.
--   MemoryManager         MemoryManager.h, MemoryManager.cpp. Proxy is `CreateProxyAllocation`,
--                         `FreeProxyAllocation` and `FindRecordByAddress`; Corral is the script
--                         arena, a growing list of segments with an allocator each; Counters is
--                         the events that are counted; Report is `GetStats`.
--   MapViewTypeTracker    MapViewTypeTracker.h, MapViewTypeTracker.cpp. Types is the hash table of
--                         resource types, Files the table of file names, Views `RecordView`, Allow
--                         the allow-list, TypeNames the names of resource types.
--   Hooks                 WorkingHooks.cpp. Virtual is the hooks of `VirtualAlloc` and `VirtualFree`;
--                         Native those of `NtAllocateVirtualMemory`, its extended form and
--                         `NtFreeVirtualMemory`; Heap those of `RtlAllocateHeap` and `RtlFreeHeap`;
--                         Moves those that reallocate heap blocks, and `RtlCreateHeap`; Win32 those
--                         of `HeapAlloc`, `HeapFree` and the movable allocations; MapView those of
--                         `NtMapViewOfSection` and `NtUnmapViewOfSection`, and MapFile that of
--                         `MapViewOfFile`. Shards is the proxy heaps that small blocks go to;
--                         Switches is the modes and the tests that gate the hooks; VatTable is the
--                         tracked addresses, Diagnostics the records of unfreed blocks, HeapUse the
--                         counts for each heap; Modules is the tests on module names and stack
--                         frames; Dbpf is the scan of the index of a mapped package.
--   ProxyAllocatorTrace   ProxyAllocatorTrace.h, ProxyAllocatorTrace.cpp: the ring of records.
--   Analytics             Analytics.h, Analytics.cpp: the counters with their names and id caches.
--   VasPressureMonitor, ContainmentLane, ProxyGc, HitchDetector, ScriptScanDedup
--                         the files of these names.
--   Prelude               numbers, Boolean tests, lists, words and bit masks.
--   Examples, and the modules of tests in ProxyAllocator
--                         the theorems at concrete inputs.
--
-- State and operations. A class is a record, an operation a function from the state to the result
-- and the next state. `SIZE_T` and `DWORD` are numbers below 2 ^ 32 with the wrap written out
-- (`add32`), the 64-bit counters likewise (`add64`). A null pointer is 0 where it is stored and
-- `none` where it is returned. The linked lists of blocks are lists; the pool of their nodes is the
-- number of free nodes. Operations that run under a critical section are single steps. What the
-- operating system, the environment, the C runtime or another thread answers is an argument: the
-- call of a hook carries the answers that the hook may need on its way. What a hook counts or asks
-- of the system is a list of events, the newest first.
--
-- The arena's ledger is the abstract view: a list of the slots that were handed out and not freed.
-- `ProxyAllocator.Arena.Valid` says how it fits the concrete state, `Steps` runs it through any
-- history, and the records of the memory manager are such a ledger.
--
-- Fuel. The walk over the address space is on fuel, one step for each address up to the end of the
-- range, which is enough as every round goes to a higher address. All other loops are recursions on
-- the list that they run over or on their bound (256 probes, 64 probes).
--
-- Not modelled: the heartbeat and observer threads, the hooks of WorkingHooks.cpp other than those
-- named above, the timings, logging, exception handling, the launcher and the start-up code. They
-- are mostly calls of the system and output; a hook that only passes its call on has no logic of
-- its own.
pub mod Prelude
pub mod ProxyAllocator
pub mod MapViewTypeTracker
pub mod VasPressureMonitor
pub mod Hooks
pub mod ProxyAllocatorTrace
pub mod ContainmentLane
pub mod MemoryManager
pub mod ProxyGc
pub mod HitchDetector
pub mod ScriptScanDedup
pub mod Examples
pub mod Analytics
