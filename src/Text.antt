-- ===== src/Text.antt =====
-- The operations on strings that the source calls: the language's own, over UTF-16 code units.
mod Defs
mod Unicode
mod Encoding
pub mod Laws
pub mod Digits
pub mod Decoding
pub mod Utf8
pub mod RoundTrip
pub mod Queries
pub mod Ascii
unfoldable pub use Defs.{
  codes, is_space, trim_start, trim_end, trim, starts_with, ends_with, includes, slice, split,
  lines,
}
unfoldable pub use Unicode.{combine, code_points, is_surrogate, utf8}
unfoldable pub use Encoding.*
