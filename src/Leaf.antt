-- ===== src/Leaf.antt =====
-- leaf.h: the superclass of all sensors and actuators, one module for each of its concerns.
pub mod Value
pub mod Prefs
pub mod Values
pub mod State
pub mod Topic
pub mod Command
pub mod Help
pub mod Receive
pub mod Action
pub mod Tests
pub mod Publish
