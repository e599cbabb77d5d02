-- ===== src/Web.antt =====
-- web/main.go: users, sessions, the login limiter and the small stores of the web front end.
pub mod User
pub mod Token
pub mod Session
pub mod Users
pub mod Limiter
pub mod Stores
pub mod Front
pub mod Secret
