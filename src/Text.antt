-- ===== src/Text.antt =====
-- Go strings as bytes: the functions of unicode/utf8 and strings that the daemon calls, and its
-- own bounded echo of a prompt.
mod Utf8
mod Space
pub mod Bounded
unfoldable pub use Utf8.{valid_utf8}
pub use Utf8.{valid_utf8-append}
unfoldable pub use Space.{trim_space, is_blank}
pub use Space.{is_plain, trim_space_plain}
