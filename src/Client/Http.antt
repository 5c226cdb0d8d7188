-- ===== src/Client/Http.antt =====
-- apps/thinclient/main.c: `http_get`, which fetches the manifest and the segments.
pub mod Chunked
pub mod Ends
pub mod Sizes
pub mod Endless
mod Tests
pub mod Response
pub mod Receive
pub mod Timely
