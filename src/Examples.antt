-- ===== src/Examples.antt =====
-- The theorems on the tracker, the manager and the small components at concrete inputs.
mod Tracker
mod Manager
mod Small
mod Hooks
mod Heaps
mod Maps
