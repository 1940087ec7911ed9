-- ===== src/MemoryManager/Report.antt =====
-- `MemoryManager::GetStats`: the figures of the arena that the manager reports.
use ts3vasmanager.ProxyAllocator.FreeList.Sizes.{total}
use ts3vasmanager.ProxyAllocator.Arena.Outcome.{largest, get_stats-free}
use ts3vasmanager.ProxyAllocator.Arena.{get_stats}
use ts3vasmanager.MemoryManager.Proxy.Records.{slots, IsManaged}
use ts3vasmanager.MemoryManager.Proxy.{Manager}
use ts3vasmanager.Prelude.{ℕ, sym, arith, ◌+◌, ◌≤◌, ◌≡◌}

pub record ManagerStats : Type 0 where
  pub proxy_arena_size : ℕ
  pub proxy_used_bytes : ℕ
  pub proxy_free_bytes : ℕ
  pub proxy_largest_free_span : ℕ
  pub active_count : ℕ
  pub allocation_requests : ℕ
  pub allocation_failures : ℕ
  pub granted_bytes : ℕ
  pub freed_bytes : ℕ
  pub reused_bytes : ℕ

unfoldable pub get_manager_stats : Manager → ManagerStats
get_manager_stats m =
    let pa = get_stats m.proxy in
    record {
      proxy_arena_size = pa.arena_size;
      proxy_used_bytes = pa.used_bytes;
      proxy_free_bytes = pa.free_bytes;
      proxy_largest_free_span = pa.largest_free_span;
      active_count = pa.active_allocations;
      allocation_requests = pa.total_allocation_requests;
      allocation_failures = pa.total_allocation_failures;
      granted_bytes = pa.total_granted_bytes;
      freed_bytes = pa.total_freed_bytes;
      reused_bytes = pa.total_reused_bytes;
    }

-- While the records are the live slots of the arena, the manager reports as used the total of the
-- records' rounded sizes, as the largest free span the largest free block, and free and used bytes
-- that fit in the arena together.
pub get_manager_stats-used :
    (m : Manager)
    → IsManaged m
    → ((get_manager_stats m).proxy_used_bytes
        ≡ total (slots m.proxy.alloc_granularity m.allocations))
      × ((get_manager_stats m).proxy_largest_free_span ≡ largest m.proxy.free.blocks)
      × ((get_manager_stats m).proxy_free_bytes + (get_manager_stats m).proxy_used_bytes
          ≤ (get_manager_stats m).proxy_arena_size)
unfolding get_manager_stats get_stats
get_manager_stats-used m h =
    let s = get_stats-free m.proxy (slots m.proxy.alloc_granularity m.allocations) h in
    (sym h.used, s.1, omega (arith, s.2))
