-- ===== src/Sensors.antt =====
-- The leaves that read the board's pins.
pub mod PulseCounter
