-- ===== src/Haproxy.antt =====
-- internal/haproxy: the instance of HAProxy that the program owns.
pub mod Text
pub mod Parse
pub mod Plan
pub mod Executor
