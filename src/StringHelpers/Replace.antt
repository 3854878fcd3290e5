-- ===== src/StringHelpers/Replace.antt =====
-- The two `replace_in_place` functions of string.cpp against what they are to return.
mod Indices
mod Substring
mod Byte
pub use Indices.{drop-drop, drop_zero, take-drop_append, length-drop}
unfoldable pub use Substring.{replace_all}
pub use Substring.{replace_in_place-replace_all}
pub use Byte.{substitute, replace_char_in_place-substitute}
