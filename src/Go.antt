-- ===== src/Go.antt =====
-- What the program uses of Go's standard library.
pub mod Utf8
pub mod Regexp
pub mod Strings
pub mod Scanner
pub mod Sha1
pub mod Numbers
pub mod Maps
pub mod Case
pub mod Base64
pub mod Net
