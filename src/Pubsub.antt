-- ===== src/Pubsub.antt =====
-- The publish-subscribe transport: `AbstractPubsubLeaf` of abstract_pubsub.h.
pub mod Address
pub mod Messages
pub mod Route
pub mod Connection
pub mod SendQueue
pub mod Tests
