-- ===== src/Core.antt =====
-- What the leaves share on the device: the state of the communications, the blinking of the status
-- light and the history of errors (stacx.h).
pub mod Blink
pub mod Comms
pub mod History
