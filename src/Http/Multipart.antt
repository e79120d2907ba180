-- ===== src/Http/Multipart.antt =====
-- Multipart bodies: parse_boundary and parse_multipart_body of
-- source/http/parser_v2/http_parser_v3.cpp, and source/http/middleware/multipart_extract.cpp.
pub mod Stream
pub mod Upload
pub mod Meta
pub mod Body
pub mod Extract
pub mod Form
mod Tests
