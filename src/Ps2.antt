-- ===== src/Ps2.antt =====
-- drivers/ps2, drivers/touchpad.c, drivers/hid and drivers/usb/touchpad_adapter.c: the keyboard and the
-- touchpad behind the PS/2 controller.
mod Tests
pub mod Ring
pub mod Controller
pub mod Touchpad
pub mod Keyboard
pub mod Stream
pub mod Adapter
