-- ===== src/Groups.antt =====
-- The page of the worker groups and the workers (admin/front/src/pages/group/GroupsPage.tsx).
mod State
mod Handlers
mod Bulk
mod View
pub mod Frame
pub mod Paging
pub mod Messages
pub mod Selection
pub mod Deletion
unfoldable pub use State.*
unfoldable pub use Handlers.*
unfoldable pub use Bulk.*
unfoldable pub use View.*
