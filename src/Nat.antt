-- ===== src/Nat.antt =====
-- internal/nat: planning and applying project-owned port forwarding.
pub mod Ranges
pub mod Prepare
pub mod Plan
pub mod Render
pub mod Executor
