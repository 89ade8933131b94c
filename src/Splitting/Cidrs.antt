-- ===== src/Splitting/Cidrs.antt =====
-- The CIDR half of `SplittingPage`.
mod State
mod Handlers
mod View
pub mod Adding
pub mod Clearing
pub mod Frame
pub mod Paging
pub mod Messages
pub mod Bulk
unfoldable pub use State.*
unfoldable pub use Handlers.*
unfoldable pub use View.*
