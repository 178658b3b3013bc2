-- ===== src/Keyboard.antt =====
-- volumes/02.Kernel64/Source/Keyboard.c: the scan code state machine, the key queue and the waits
-- for the keyboard controller.
pub mod Table
pub mod State
pub mod Controller
pub mod Convert
pub mod Codes
pub mod Nesting
pub mod Keys
pub mod RoundTrip
mod Tests
