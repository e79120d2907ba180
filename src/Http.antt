-- ===== src/Http.antt =====
-- The HTTP core: include/obelisk/http and source/http.
pub mod Header
pub mod Io
pub mod Multipart
pub mod Stream
pub mod Numeral
pub mod Router
pub mod Json
pub mod Request
pub mod Response
pub mod Server
pub mod Params
pub mod Validator
pub mod Client
pub mod Signer
mod Tests
