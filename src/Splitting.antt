-- ===== src/Splitting.antt =====
-- The routing page (admin/front/src/pages/splitting/SplittingPage.tsx).
pub mod Messages
pub mod Settings
pub mod Tabs
pub mod Validation
pub mod Domains
pub mod Cidrs
pub mod Defaults
pub mod DefaultsLaws
pub mod DefaultsMessages
