-- ===== src/Auth.antt =====
-- Who may use the panel: auth.go and the login and user handlers of runtime_api.go.
pub mod Login
pub mod Sessions
pub mod Users
