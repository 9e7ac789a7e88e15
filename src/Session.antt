-- ===== src/Session.antt =====
-- The desktop's `session` layer (apps/desktop/src-tauri/src/session/mod.rs): per-account pacing of
-- sends, and the manager of the live sessions with their realtime listeners.
pub mod Throttle
pub mod Manager
mod Tests
