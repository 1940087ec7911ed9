-- ===== src/MapViewTypeTracker.antt =====
-- MapViewTypeTracker.h and MapViewTypeTracker.cpp: the inventory of mapped views.
pub mod Types
pub mod Views
pub mod Allow
pub mod Files
pub mod TypeNames
