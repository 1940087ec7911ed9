-- ===== src/Hooks/Virtual/Activates.antt =====
-- Which calls of `VirtualAlloc` activate the proxy.
use ts3vasmanager.Prelude.{Bool, not, ◌≡◌, ◌||◌}
use ts3vasmanager.ProxyAllocator.Arena.{Arena}
use ts3vasmanager.MemoryManager.Corral.{Corral}
use ts3vasmanager.Hooks.Virtual.{Hooks, Alloc}
use ts3vasmanager.Hooks.Switches.{Switches}

abbrev Switched : Switches → Hooks → Type 0
Switched s h = h.switches ≡ s

-- A call that the hook serves: its thread is neither bootstrapping nor in a hook, and the process is
-- not shutting down.
abbrev pub is_served : Alloc → Hooks → Bool
is_served c h =
    not (c.bootstrapping || (h.tl_hook_active || (h.in_hook || h.switches.shutting_down)))
