-- ===== src/Contracts.antt =====
-- The contracts that all parts share (src/core/contracts): events and domain types.
mod Events
mod Domain
unfoldable pub use Events.*
unfoldable pub use Domain.*
