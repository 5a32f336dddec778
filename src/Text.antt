-- ===== src/Text.antt =====
-- Texts: Python's `str`, its decimal numbers and the patterns that the tools match.
mod Base
pub mod Decimal
pub mod Patterns
unfoldable pub use Base.*
