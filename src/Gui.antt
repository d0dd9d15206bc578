-- ===== src/Gui.antt =====
-- gui/helpers.c and gui/console.c: drawing into the back buffer or the frame buffer, and the log.
pub mod Rows
pub mod Fonts
pub mod Screen
pub mod Console
mod Tests
