-- ===== src/I18n.antt =====
-- The texts of the panel in its two languages (admin/front/src/shared/i18n). Which text a key and a
-- language give is the i18next library's, so the tables and the keys are what is modelled.
mod Tables
mod En
mod Ru
pub mod Keys
pub mod Language
pub mod Laws
unfoldable pub use Tables.*
unfoldable pub use En.{en}
unfoldable pub use Ru.{ru}
