-- ===== src/Splitting/Domains.antt =====
-- The domain half of `SplittingPage`.
mod State
mod Handlers
mod View
pub mod Subdomains
pub mod Submission
pub mod Adding
pub mod Frame
pub mod Paging
pub mod Messages
pub mod Untranslated
pub mod Bulk
unfoldable pub use State.*
unfoldable pub use Handlers.*
unfoldable pub use View.*
