-- ===== src/Api.antt =====
-- The HTTP interface: api (the server's handlers), model (what is sent), client, and the parts of
-- Go's standard library that they use: base64 and URL queries.
pub mod Base64
pub mod Url
pub mod Model
pub mod Store
pub mod Server
pub mod Client
