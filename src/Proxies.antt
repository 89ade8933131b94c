-- ===== src/Proxies.antt =====
-- The page of the proxy accounts (admin/front/src/pages/proxy/ProxiesPage.tsx).
mod State
mod Handlers
mod View
pub mod Frame
pub mod Paging
pub mod Messages
pub mod Bulk
unfoldable pub use State.*
unfoldable pub use Handlers.*
unfoldable pub use View.*
