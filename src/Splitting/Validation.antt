-- ===== src/Splitting/Validation.antt =====
-- The validators of the routing page: `isValidDomain` and `isValidCidr`.
mod Domain
mod Matcher
mod Cidr
pub mod Language
pub mod Octets
pub mod Labels
pub mod DomainLaws
pub mod CidrLaws
unfoldable pub use Domain.*
unfoldable pub use Matcher.*
unfoldable pub use Cidr.*
