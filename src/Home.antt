-- ===== src/Home.antt =====
-- The dashboard (admin/front/src/pages/HomePage.tsx) and the configuration context
-- (shared/config/ConfigContext.tsx).
mod Dashboard
mod Summary
pub mod Doubles
pub mod Percent
mod View
pub mod Laws
pub mod Attention
pub mod Figures
pub mod Messages
unfoldable pub use Dashboard.*
unfoldable pub use Doubles.{percent}
unfoldable pub use View.*
unfoldable pub use Summary.*
