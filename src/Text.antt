-- ===== src/Text.antt =====
-- common/sys/string.c: helpers on strings. A string is the list of its bytes without the NUL.
pub mod Ansi
pub mod Dbcs
pub mod Mime
mod Tests
