-- ===== src/Auth.antt =====
-- internal/auth: passwords, sessions and logins, with the tables of database/store.go that they use.
pub mod Password
pub mod Session
pub mod Service
