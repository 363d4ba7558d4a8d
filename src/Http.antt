-- ===== src/Http.antt =====
-- src/http_parser.c and include/http_parser.h.
pub mod Request
pub mod RequestLine
pub mod Headers
pub mod Body
pub mod Parse
pub mod Sizes
pub mod Response
pub mod Files
mod Tests
mod ResponseTests
