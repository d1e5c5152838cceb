-- ===== src/Wm.antt =====
-- The window system: kernel/src/wm/window.rs.
pub mod Window
mod Tests
