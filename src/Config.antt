-- ===== src/Config.antt =====
-- internal/config: the choice of the panel's port.
pub mod Port
