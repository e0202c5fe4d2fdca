-- ===== src/Text.antt =====
-- Go strings as lists of bytes, with what the program uses of `strings`, `strconv` and `fmt`.
mod Split
mod Number
mod Search
unfoldable pub use Split.*
unfoldable pub use Number.*
unfoldable pub use Search.*
