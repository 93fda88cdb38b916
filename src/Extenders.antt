-- ===== src/Extenders.antt =====
-- The leaves that extend the board's pins (leaf_pinextender_*.h), and what their handlers share.
pub mod ShiftRegister
pub mod Port
pub mod Expander
