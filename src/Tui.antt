-- ===== src/Tui.antt =====
-- tui/: the buffers between the event stream and the screen.
pub mod Throttle
pub mod Scrollback
