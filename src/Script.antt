-- ===== src/Script.antt =====
-- The asynchronous handlers of the pages. A handler is a `Script` over the page's `useState`
-- values: it sets state, shows messages, navigates, and awaits calls of the API. Nothing runs
-- between two awaits; at an await anything else may run, which `Script.Interleaving` makes explicit.
mod Defs
pub mod Run
pub mod Keeps
pub mod Compose
pub mod Sends
pub mod Shows
pub mod Interleaving
unfoldable pub use Defs.*
