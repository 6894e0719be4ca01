-- ===== src/Desktop.antt =====
-- The desktop shell: apps/desktop/src.
pub mod Supervisor
pub mod Widget
pub mod Steady
mod Tests
