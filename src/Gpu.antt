-- ===== src/Gpu.antt =====
-- The GPU box: apps/backend/src/services/gpu-lifecycle.service.ts.
pub mod State
pub mod Queues
pub mod Provider
pub mod Control
pub mod Sweep
pub mod Heartbeat
pub mod WriteAhead
pub mod History
pub mod Commands
pub mod Outcomes
pub mod Transitions
pub mod Idle
pub mod Panel
