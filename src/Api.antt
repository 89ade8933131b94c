-- ===== src/Api.antt =====
-- The HTTP layer of the admin panel (admin/front/src/shared): its data, its calls, and the client.
mod Types
mod Calls
pub mod AuthStorage
pub mod Client
pub mod Responses
pub mod Segments
pub mod Decoded
pub mod Building
pub mod RoutingApi
pub mod ProxyApi
pub mod WorkerApi
pub mod GroupApi
pub mod UserApi
pub mod Endpoints
mod Entries
pub mod Reading
pub mod Queries
pub use Types.*
pub use Calls.*
